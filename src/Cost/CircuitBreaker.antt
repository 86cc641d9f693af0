-- ===== src/Cost/CircuitBreaker.antt =====
-- src/pitwall/cost/circuit_breaker.py: the budget circuit breaker. Decimal amounts, percentages
-- and hours are counted in units of one fixed scale, instants and the cooldown in microseconds.
-- The rounding of Decimal's division depends on the context of the caller, so the two quotients
-- are functions that the breaker is given: `percent headroom budget` is `headroom / budget * 100`,
-- and `hours headroom rate` is `headroom / rate`.
pub mod Hysteresis
use pitwall_gpu_broker.Prelude.{
  ℕ, ◌+◌, ◌-◌, Bool, true, false, ◌&&◌, ◌||◌, Option, none, some, ltb, leb, if◌then◌else◌,
}

pub data BreakerState : Type 0 where
  closed opened half_open : BreakerState

pub data BreakerAction : Type 0 where
  allow downgrade block : BreakerAction

-- The texts of `reason`.
pub data Reason : Type 0 where
  budget_healthy budget_recovered budget_exhausted burn_rate_critical headroom_low : Reason

pub record CircuitBreakerDecision : Type 0 where
  pub action : BreakerAction
  pub reason : Reason
  pub state : BreakerState
  pub headroom_usd : ℕ
  pub headroom_pct : ℕ
  pub runway_hours : Option ℕ

-- The thresholds of `BudgetCircuitBreaker`.
pub record Thresholds : Type 0 where
  pub headroom_trip_pct : ℕ
  pub runway_trip_hours : ℕ
  pub recovery_headroom_pct : ℕ
  pub recovery_runway_hours : ℕ
  pub downgrade_headroom_pct : ℕ
  pub cooldown_seconds : ℕ

-- The fields that `evaluate` writes.
pub record Breaker : Type 0 where
  pub state : BreakerState
  pub last_trip_at : Option ℕ

-- A new breaker, and what `reset` leaves.
abbrev pub reset : Breaker
reset = record { state = closed; last_trip_at = none }

-- The Decimal divisions.
pub record Quotients : Type 0 where
  pub percent : ℕ → ℕ → ℕ
  pub hours : ℕ → ℕ → ℕ

-- What one call of `evaluate` is given.
pub record Reading : Type 0 where
  pub budget_usd : ℕ
  pub mtd_spend_usd : ℕ
  pub now : ℕ
  pub burn_rate_usd_per_hour : Option ℕ

abbrev at_most : Option ℕ → ℕ → Bool
at_most none limit = false
at_most (some hours) limit = leb hours limit

abbrev none_or_at_least : Option ℕ → ℕ → Bool
none_or_at_least none limit = true
none_or_at_least (some hours) limit = leb limit hours

unfoldable pub should_trip : Thresholds → ℕ → Option ℕ → Bool
should_trip t headroom_pct runway_hours =
    leb headroom_pct t.headroom_trip_pct || at_most runway_hours t.runway_trip_hours

unfoldable pub should_recover : Thresholds → ℕ → Option ℕ → Bool
should_recover t headroom_pct runway_hours =
    leb t.recovery_headroom_pct headroom_pct
    && none_or_at_least runway_hours t.recovery_runway_hours

unfoldable pub action_for_stress : Thresholds → ℕ → Option ℕ → BreakerAction × Reason
action_for_stress t headroom_pct runway_hours =
    if leb headroom_pct t.downgrade_headroom_pct
    then (block, budget_exhausted)
    else if at_most runway_hours t.runway_trip_hours
    then (downgrade, burn_rate_critical)
    else (downgrade, headroom_low)

abbrev stressed : BreakerState → BreakerAction × Reason → BreakerState × BreakerAction × Reason
stressed s (action, reason) = (s, action, reason)

-- `_transition`, by the state that the breaker is in.
transition_from :
    BreakerState → Option ℕ → Thresholds → ℕ → Option ℕ → ℕ → BreakerState × BreakerAction × Reason
transition_from closed last_trip_at t pct runway now =
    if should_trip t pct runway
    then stressed opened (action_for_stress t pct runway)
    else (closed, allow, budget_healthy)
transition_from opened none t pct runway now = stressed opened (action_for_stress t pct runway)
transition_from opened (some tripped_at) t pct runway now =
    if leb (tripped_at + t.cooldown_seconds) now
    then (if should_recover t pct runway
        then (closed, allow, budget_recovered)
        else stressed half_open (action_for_stress t pct runway))
    else stressed opened (action_for_stress t pct runway)
transition_from half_open last_trip_at t pct runway now =
    if should_recover t pct runway
    then (closed, allow, budget_recovered)
    else stressed opened (action_for_stress t pct runway)

-- The assignments to `_last_trip_at`, by the new state.
trip_time : BreakerState → BreakerState → Option ℕ → ℕ → Option ℕ
trip_time previous closed last_trip_at now = none
trip_time previous half_open last_trip_at now = last_trip_at
trip_time half_open opened last_trip_at now = some now
trip_time previous opened none now = some now
trip_time previous opened (some tripped_at) now = some tripped_at

headroom_of : Reading → ℕ
headroom_of r = r.budget_usd - r.mtd_spend_usd

unfoldable pub headroom_pct_of : Quotients → Reading → ℕ
unfolding headroom_of
headroom_pct_of q r = if ltb 0 r.budget_usd then q.percent (headroom_of r) r.budget_usd else 0

unfoldable pub runway_of : Quotients → Reading → Option ℕ
unfolding headroom_of
runway_of q r = elim r.burn_rate_usd_per_hour [
  | none ↦ none
  | some rate ↦ if ltb 0 rate then some (q.hours (headroom_of r) rate) else none
]

unfoldable pub evaluate :
    Quotients → Thresholds → Breaker → Reading → CircuitBreakerDecision × Breaker
unfolding transition_from trip_time headroom_of headroom_pct_of runway_of
evaluate q t b r =
    let pct = headroom_pct_of q r in
    let runway = runway_of q r in
    let (state, action, reason) = transition_from b.state b.last_trip_at t pct runway r.now in
    (
      record {
        action = action;
        reason = reason;
        state = state;
        headroom_usd = headroom_of r;
        headroom_pct = pct;
        runway_hours = runway;
      },
      record { state = state; last_trip_at = trip_time b.state state b.last_trip_at r.now },
    )
