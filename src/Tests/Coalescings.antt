-- ===== src/Tests/Coalescings.antt =====
-- Tests of the coalescer (src/pitwall/routing/coalescing.py).
use pitwall_gpu_broker.Routing.Coalescing.{
  returned, running, cancelling, cancelled, settled, die, InflightExecution, outcome,
  caller_cancelled, Event, call, settle, wake, abandon, step, run_events,
}
use pitwall_gpu_broker.Routing.Coalescing.Invariant.{key_at}
use pitwall_gpu_broker.Routing.Coalescing.Sharing.{
  after, IsHonest, no_duplicate_work, callers_share, nothing_leaks,
}
use pitwall_gpu_broker.Prelude.Dict.{lookup}
use pitwall_gpu_broker.Prelude.{ℕ, String, ◌≡◌, refl, ◌≢◌, some, List, [], ◌∷◌, ◌++◌, All}

-- Two calls share a task of "a", a third has its own of "b"; one of the two is cancelled.
abbrev shared : List Event
shared = call "a" ∷ call "a" ∷ call "b" ∷ abandon 2 ∷ []

abbrev all_ended : List Event
all_ended =
    call "a" ∷ call "a" ∷ call "b" ∷ abandon 2 ∷ settle 0 (returned 7) ∷ wake 1 ∷ abandon 0 ∷ []

runs_a : (after shared).status 0 ≡ running "a"
unfolding run_events step
runs_a = refl

all_left : (after all_ended).callers ≡ []
unfolding run_events step
all_left = refl

answers :
    (after all_ended).answers
    ≡ (record { key = "b"; task = 1 }, caller_cancelled)
      ∷ (record { key = "a"; task = 0 }, outcome (returned 7))
      ∷ (record { key = "a"; task = 0 }, caller_cancelled)
      ∷ []
unfolding run_events step
answers = refl

-- A task that was asked to cancel may still run when the next call starts another; it may then end as
-- cancelled or settle.
abbrev restarted : List Event
restarted = call "a" ∷ abandon 0 ∷ call "a" ∷ []

overlap : ((after restarted).status 0 ≡ cancelling "a") × ((after restarted).status 1 ≡ running "a")
unfolding run_events step
overlap = (refl, refl)

ends_cancelled : (after (restarted ++ (die 0 ∷ []))).status 0 ≡ cancelled
unfolding run_events step
ends_cancelled = refl

settles_late :
    (after (restarted ++ (settle 0 (returned 3) ∷ []))).status 0 ≡ settled "a" (returned 3)
unfolding run_events step
settles_late = refl

no_duplicate_work_example :
    ◌≡◌ {A = ℕ} 0 0
    × ((e : InflightExecution) × (lookup "a" (after shared).inflight ≡ some e) × (e.task ≡ 0))
no_duplicate_work_example = no_duplicate_work shared 0 0 "a" runs_a runs_a

callers_share_example :
    All (IsHonest (after all_ended).status) (after all_ended).answers
    × All (λ c. key_at ((after all_ended).status c.task) ≡ some c.key) (after all_ended).callers
callers_share_example = callers_share all_ended

nothing_leaks_example :
    ((after all_ended).inflight ≡ [])
    × ((t : ℕ) (key : String) → (after all_ended).status t ≢ running key)
nothing_leaks_example = nothing_leaks all_ended all_left
