-- ===== src/Cost/SloGovernor.antt =====
-- src/pitwall/cost/slo_governor.py: the pacing of spending against a daily target. Amounts and
-- ratios are counted in units of one fixed scale; the rounded quotient of `_ratio` is a function
-- that the governor is given. The numbers in the text of a reason are left out, and so is the
-- instant `now`, of which only the time zone is read.
pub mod Percentile
pub mod Pace
use pitwall_gpu_broker.Cost.CircuitBreaker.{
  BreakerAction, allow, downgrade, block, CircuitBreakerDecision,
}
use pitwall_gpu_broker.Prelude.Sort.{sort}
use pitwall_gpu_broker.Prelude.{
  ℕ, zero, suc, ◌+◌, ◌-◌, ◌*◌, ◌/◌, ◌≤◌, ◌<◌, ◌≡◌, Bool, true, false, ◌&&◌, Option, none, some,
  List, [], ◌∷◌, leb, if◌then◌else◌, length,
}

pub data PacingAction : Type 0 where
  allowed throttle defer : PacingAction

-- The texts of `reason`.
pub data PacingReason : Type 0 where
  within_target near_target over_target p95_near p95_over budget_stressed budget_gone : PacingReason

pub record CostSlo : Type 0 where
  pub per_day_target_usd : ℕ
  pub per_request_p95_usd : Option ℕ
  pub throttle_threshold : ℕ
  pub defer_threshold : ℕ

-- What `_validate` asks of an SLO.
pub record IsValid (slo : CostSlo) : Type 0 where
  pub target : 1 ≤ slo.per_day_target_usd
  pub request_target : (p : ℕ) → slo.per_request_p95_usd ≡ some p → 1 ≤ p
  pub thresholds : slo.throttle_threshold < slo.defer_threshold

pub record GovernorDecision : Type 0 where
  pub action : PacingAction
  pub reason : PacingReason
  pub velocity_ratio : ℕ
  pub request_p95_ratio : Option ℕ
  pub breaker_action : Option BreakerAction

-- `sorted_values[idx]`; none stands for IndexError.
abbrev pub value_at : ℕ → List ℕ → Option ℕ
value_at i [] = none
value_at zero (x ∷ xs) = some x
value_at (suc i) (x ∷ xs) = value_at i xs

-- The position that a rank stands for, kept inside the list.
abbrev pub index_of : ℕ → ℕ → ℕ
index_of zero n = 0
index_of (suc i) n = if leb n i then n - 1 else i

abbrev pub rank_of : ℕ → ℕ → ℕ
rank_of pct n = (pct * n + 99) / 100

abbrev pub percentile : List ℕ → ℕ → Option ℕ
percentile [] pct = some 0
percentile (x ∷ []) pct = some x
percentile (x ∷ y ∷ ys) pct =
    let n = length (x ∷ y ∷ ys) in value_at (index_of (rank_of pct n) n) (x ∷ y ∷ ys)

abbrev pub velocity_pace : CostSlo → ℕ → PacingAction × PacingReason
velocity_pace slo ratio =
    if leb slo.defer_threshold ratio
    then (defer, over_target)
    else if leb slo.throttle_threshold ratio
    then (throttle, near_target)
    else (allowed, within_target)

abbrev is_allowed : PacingAction → Bool
is_allowed allowed = true
is_allowed throttle = false
is_allowed defer = false

abbrev pub request_pace :
    CostSlo → Option ℕ → PacingAction × PacingReason → PacingAction × PacingReason
request_pace slo none pace = pace
request_pace slo (some ratio) pace =
    if leb slo.defer_threshold ratio
    then (defer, p95_over)
    else if leb slo.throttle_threshold ratio && is_allowed pace.0
    then (throttle, p95_near)
    else pace

abbrev pub breaker_pace :
    Option BreakerAction → PacingAction × PacingReason → PacingAction × PacingReason
breaker_pace none pace = pace
breaker_pace (some allow) pace = pace
breaker_pace (some block) pace = (defer, budget_gone)
breaker_pace (some downgrade) pace = if is_allowed pace.0 then (throttle, budget_stressed) else pace

abbrev pub decide_pace : CostSlo → ℕ → Option ℕ → Option BreakerAction → PacingAction × PacingReason
decide_pace slo velocity_ratio request_p95_ratio breaker_action =
    breaker_pace breaker_action
      (request_pace slo request_p95_ratio (velocity_pace slo velocity_ratio))

abbrev pub action_of : Option CircuitBreakerDecision → Option BreakerAction
action_of none = none
action_of (some d) = some d.action

module _ (quotient : ℕ → ℕ → ℕ) where
  abbrev pub ratio : ℕ → ℕ → ℕ
  ratio numerator zero = 0
  ratio numerator (suc d) = quotient numerator (suc d)

  abbrev pub against : Option ℕ → Option ℕ → Option (Option ℕ)
  against none p95 = some none
  against (some target) none = none
  against (some target) (some p95) = some (some (ratio p95 target))

  -- The p95 of the recent costs against its target, where both are known.
  abbrev pub p95_ratio : CostSlo → List ℕ → Option (Option ℕ)
  p95_ratio slo [] = some none
  p95_ratio slo (c ∷ cs) = against slo.per_request_p95_usd (percentile (sort leb (c ∷ cs)) 95)

  abbrev pub decision_of : CostSlo → ℕ → Option CircuitBreakerDecision → Option ℕ → GovernorDecision
  decision_of slo velocity breaker_decision request =
      let breaker_action = action_of breaker_decision in
      let pace = decide_pace slo velocity request breaker_action in
      record {
        action = pace.0;
        reason = pace.1;
        velocity_ratio = velocity;
        request_p95_ratio = request;
        breaker_action = breaker_action;
      }

  -- `evaluate`, given the recent costs, empty where there are none.
  unfoldable pub evaluate_pace :
      CostSlo → ℕ → Option CircuitBreakerDecision → List ℕ → Option GovernorDecision
  evaluate_pace slo burn_rate_usd_per_day breaker_decision recent = elim (p95_ratio slo recent) [
    | none ↦ none
    | some request ↦ some (
        decision_of slo (ratio burn_rate_usd_per_day slo.per_day_target_usd) breaker_decision
          request)
  ]
