-- ===== src/Routing/Hedging/Ending.antt =====
-- A race of src/pitwall/routing/hedging.py ends.
use pitwall_gpu_broker.Routing.Hedging.{
  Race, Status, racing, won, lost, stopped, is_member, loop_test, Event, timeout, race_cancelled,
  completed, turn, first_turn,
}
use pitwall_gpu_broker.Prelude.Dict.{Dict}
use pitwall_gpu_broker.Prelude.{
  ℕ, ◌+◌, ◌<◌, String, ◌≡◌, Bool, true, false, List, [], ◌∷◌, if◌then◌else◌, length,
}

abbrev pub is_racing : Status → Bool
is_racing (racing s) = true
is_racing (won p v s ended cancelled) = false
is_racing (lost s) = false
is_racing (stopped s ended cancelled) = false

-- What `asyncio.wait` may return: a timeout only before the hedge is open, and otherwise attempts of
-- which the first is active. The race may be cancelled at any time.
abbrev pub IsPossible : Event → Race → Type 0
IsPossible timeout s = s.hedge_open ≡ false
IsPossible (race_cancelled ended) s = Unit
IsPossible (completed [] unnoted) s = ⊥
IsPossible (completed ((p, o) ∷ ps) unnoted) s = is_member p s.active ≡ true

abbrev pub AllPossible : ℕ → List Event → Status → Type 0
AllPossible cap [] st = Unit
AllPossible cap (e ∷ es) (racing s) = IsPossible e s × AllPossible cap es (turn cap e s)
AllPossible cap (e ∷ es) (won p v s ended cancelled) = Unit
AllPossible cap (e ∷ es) (lost s) = Unit
AllPossible cap (e ∷ es) (stopped s ended cancelled) = Unit

-- How many events a race has left.
abbrev left : Race → ℕ
left s = length s.waiting + length s.active + (if s.hedge_open then 0 else 1)

abbrev Under : ℕ → Status → Type 0
Under n (racing s) = left s < n
Under n (won p v s ended cancelled) = Unit
Under n (lost s) = Unit
Under n (stopped s ended cancelled) = Unit

abbrev pub started : List String → Status
started ids = loop_test (first_turn ids) (first_turn ids).active
