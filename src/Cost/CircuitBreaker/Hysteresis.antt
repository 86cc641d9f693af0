-- ===== src/Cost/CircuitBreaker/Hysteresis.antt =====
-- What src/pitwall/cost/circuit_breaker.py decides, and that it does not flap.
use pitwall_gpu_broker.Cost.CircuitBreaker.{
  should_recover, CircuitBreakerDecision, runway_of, headroom_pct_of, Reading, BreakerState,
  evaluate, Thresholds, Breaker, Quotients, action_for_stress, allow, block, closed, opened,
  half_open, transition_from,
}
use pitwall_gpu_broker.Prelude.{
  ℕ, ◌+◌, ◌≤◌, ◌<◌, ◌≡◌, refl, ◌≢◌, ◌↔◌, true, Option, none, some, List, [], ◌∷◌, arith, is_some,
  All,
}

-- A breaker remembers when it tripped exactly while it is not closed.
abbrev pub IsCoherent : Breaker → Type 0
IsCoherent b =
    (b.state ≡ closed → b.last_trip_at ≡ none) × (b.state ≢ closed → is_some b.last_trip_at ≡ true)

stress-not-allow :
    (t : Thresholds) (pct : ℕ) (runway : Option ℕ) → (action_for_stress t pct runway).0 ≢ allow
unfolding action_for_stress
stress-not-allow t pct runway h = ground arith

stress-block :
    (t : Thresholds) (pct : ℕ) (runway : Option ℕ)
    → ((action_for_stress t pct runway).0 ≡ block) ↔ (pct ≤ t.downgrade_headroom_pct)
unfolding action_for_stress
stress-block t pct runway = ground arith

module _ (t : Thresholds) (pct : ℕ) (runway : Option ℕ) (now : ℕ) where
  transition-actions :
      (s : BreakerState) (last : Option ℕ)
      → let (s', action, _) = transition_from s last t pct runway now in
        ((action ≡ allow) ↔ (s' ≡ closed))
        × ((action ≡ block) ↔ ((s' ≢ closed) × (pct ≤ t.downgrade_headroom_pct)))
  unfolding transition_from
  transition-actions closed last =
      ground (arith, stress-not-allow t pct runway, stress-block t pct runway)
  transition-actions opened none =
      ground (arith, stress-not-allow t pct runway, stress-block t pct runway)
  transition-actions opened (some at) =
      ground (arith, stress-not-allow t pct runway, stress-block t pct runway)
  transition-actions half_open last =
      ground (arith, stress-not-allow t pct runway, stress-block t pct runway)

module _ (q : Quotients) (t : Thresholds) where
  -- Spending is allowed exactly when the breaker is closed afterwards, whatever the readings; and
  -- it is blocked exactly when the breaker is not closed and the headroom is at the block limit.
  action_by_state :
      (b : Breaker) (r : Reading)
      → let (d, b') = evaluate q t b r in
        ((d.action ≡ allow) ↔ (b'.state ≡ closed))
        × (d.state ≡ b'.state)
        × ((d.action ≡ block) ↔ ((b'.state ≢ closed) × (d.headroom_pct ≤ t.downgrade_headroom_pct)))
  unfolding evaluate
  action_by_state b r =
      let facts =
        transition-actions t (headroom_pct_of q r) (runway_of q r) r.now b.state b.last_trip_at in
      (facts.0, refl, facts.1)

  evaluate-IsCoherent : (b : Breaker) (r : Reading) → IsCoherent b → IsCoherent (evaluate q t b r).1
  unfolding evaluate
  evaluate-IsCoherent b r h = ground arith

  -- The decisions on readings taken one after the other, and the breaker afterwards.
  pub decisions : Breaker → List Reading → List CircuitBreakerDecision
  decisions b [] = []
  decisions b (r ∷ rs) = let (d, b') = evaluate q t b r in d ∷ decisions b' rs

  pub after : Breaker → List Reading → Breaker
  after b [] = b
  after b (r ∷ rs) = after (evaluate q t b r).1 rs

  open_stays :
      (b : Breaker) (r : Reading) (tripped_at : ℕ)
      → b.state ≡ opened
      → b.last_trip_at ≡ some tripped_at
      → r.now < tripped_at + t.cooldown_seconds
      → ((evaluate q t b r).0.action ≢ allow)
        × ((evaluate q t b r).0.state ≡ opened)
        × ((evaluate q t b r).1 ≡ b)
  unfolding evaluate
  open_stays b r tripped_at o l early =
      ground (arith, stress-not-allow t (headroom_pct_of q r) (runway_of q r))

  open_holds :
      (b : Breaker) (rs : List Reading) (tripped_at : ℕ)
      → b.state ≡ opened
      → b.last_trip_at ≡ some tripped_at
      → All (λ r. r.now < tripped_at + t.cooldown_seconds) rs
      → All (λ d. (d.action ≢ allow) × (d.state ≡ opened)) (decisions b rs) × (after b rs ≡ b)
  unfolding decisions after
  open_holds b [] tripped_at o l early = (tt, refl)
  open_holds b (r ∷ rs) tripped_at o l early =
      let (refused, still, same) = open_stays b r tripped_at o l early.0 in
      let rest = open_holds b rs tripped_at o l early.1 in
      rw same (((refused, still), rest.0), rest.1)

  trip-opens :
      (b : Breaker) (r : Reading)
      → IsCoherent b
      → b.state ≡ closed
      → (evaluate q t b r).0.action ≢ allow
      → ((evaluate q t b r).1.state ≡ opened) × ((evaluate q t b r).1.last_trip_at ≡ some r.now)
  unfolding evaluate
  trip-opens b r h c tripped = ground (arith, h.0 c)

  -- Once a closed breaker that remembers no trip trips, no reading within the cooldown lets
  -- spending through again or changes the breaker, however good the reading is.
  pub no_flapping :
      (b : Breaker) (r : Reading) (rs : List Reading)
      → IsCoherent b
      → b.state ≡ closed
      → (evaluate q t b r).0.action ≢ allow
      → All (λ r'. r'.now < r.now + t.cooldown_seconds) rs
      → let b' = (evaluate q t b r).1 in
        All (λ d. (d.action ≢ allow) × (d.state ≡ opened)) (decisions b' rs) × (after b' rs ≡ b')
  no_flapping b r rs h c tripped early =
      let (o, l) = trip-opens b r h c tripped in open_holds (evaluate q t b r).1 rs r.now o l early

  -- A breaker that is not closed and remembers when it tripped lets spending through again exactly
  -- on a reading at or above both recovery thresholds and, where it is open, once the cooldown
  -- since its trip has elapsed.
  recovery_condition :
      (b : Breaker) (r : Reading) (tripped_at : ℕ)
      → b.state ≢ closed
      → b.last_trip_at ≡ some tripped_at
      → ((evaluate q t b r).0.action ≡ allow) ↔ (
          (should_recover t (headroom_pct_of q r) (runway_of q r) ≡ true)
          × (b.state ≡ opened → tripped_at + t.cooldown_seconds ≤ r.now))
  unfolding evaluate
  recovery_condition b r tripped_at c l =
      ground (arith, stress-not-allow t (headroom_pct_of q r) (runway_of q r))
