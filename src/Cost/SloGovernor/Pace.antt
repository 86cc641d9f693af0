-- ===== src/Cost/SloGovernor/Pace.antt =====
-- How severe the pace of src/pitwall/cost/slo_governor.py is.
use pitwall_gpu_broker.Cost.SloGovernor.Percentile.{pick}
use pitwall_gpu_broker.Cost.CircuitBreaker.{
  BreakerAction, allow, downgrade, block, CircuitBreakerDecision,
}
use pitwall_gpu_broker.Cost.SloGovernor.{
  PacingReason, PacingAction, allowed, throttle, defer, CostSlo, IsValid, GovernorDecision,
  percentile, velocity_pace, request_pace, breaker_pace, decide_pace, action_of, against, ratio,
  p95_ratio, decision_of, evaluate_pace,
}
use pitwall_gpu_broker.Prelude.Sort.{sort, insert}
use pitwall_gpu_broker.Prelude.{
  ℕ, zero, suc, ◌+◌, ◌≤◌, ◌<◌, max, ◌≡◌, refl, ap, ◌∙◌, inl, inr, Option, none, some, List, [], ◌∷◌,
  arith, leb, if◌then◌else◌, Bool-cases, length,
}

abbrev pub severity : PacingAction → ℕ
severity allowed = 0
severity throttle = 1
severity defer = 2

-- How many of the two thresholds a ratio has reached.
abbrev pub reached : CostSlo → ℕ → ℕ
reached slo r =
    (if leb slo.throttle_threshold r then 1 else 0) + (if leb slo.defer_threshold r then 1 else 0)

abbrev pub reached? : CostSlo → Option ℕ → ℕ
reached? slo none = 0
reached? slo (some r) = reached slo r

abbrev pub demanded : Option BreakerAction → ℕ
demanded none = 0
demanded (some allow) = 0
demanded (some downgrade) = 1
demanded (some block) = 2

velocity-reached :
    (slo : CostSlo) (r : ℕ)
    → slo.throttle_threshold < slo.defer_threshold
    → severity (velocity_pace slo r).0 ≡ reached slo r
velocity-reached slo r h = ground arith

request-severity :
    (slo : CostSlo) (request : Option ℕ) (pace : PacingAction × PacingReason)
    → slo.throttle_threshold < slo.defer_threshold
    → severity (request_pace slo request pace).0 ≡ max (severity pace.0) (reached? slo request)
request-severity slo none (allowed, r) h = refl
request-severity slo none (throttle, r) h = refl
request-severity slo none (defer, r) h = refl
request-severity slo (some p) (allowed, r) h = ground arith
request-severity slo (some p) (throttle, r) h = ground arith
request-severity slo (some p) (defer, r) h = ground arith

breaker-severity :
    (breaker : Option BreakerAction) (pace : PacingAction × PacingReason)
    → severity (breaker_pace breaker pace).0 ≡ max (severity pace.0) (demanded breaker)
breaker-severity none (allowed, r) = refl
breaker-severity none (throttle, r) = refl
breaker-severity none (defer, r) = refl
breaker-severity (some allow) (allowed, r) = refl
breaker-severity (some allow) (throttle, r) = refl
breaker-severity (some allow) (defer, r) = refl
breaker-severity (some downgrade) (allowed, r) = refl
breaker-severity (some downgrade) (throttle, r) = refl
breaker-severity (some downgrade) (defer, r) = refl
breaker-severity (some block) (allowed, r) = refl
breaker-severity (some block) (throttle, r) = refl
breaker-severity (some block) (defer, r) = refl

decide_pace-severity :
    (slo : CostSlo) (velocity : ℕ) (request : Option ℕ) (breaker : Option BreakerAction)
    → slo.throttle_threshold < slo.defer_threshold
    → severity (decide_pace slo velocity request breaker).0
      ≡ max (max (reached slo velocity) (reached? slo request)) (demanded breaker)
decide_pace-severity slo velocity request breaker h =
    let first = velocity-reached slo velocity h in
    let second = request-severity slo request (velocity_pace slo velocity) h in
    let third = breaker-severity breaker (request_pace slo request (velocity_pace slo velocity)) in
    rw (third, second, first) refl

length-insert : (x : ℕ) (ys : List ℕ) → 1 ≤ length (insert leb x ys)
unfolding insert
length-insert x [] = omega arith
length-insert x (y ∷ ys) = elim (Bool-cases (leb x y)) [
  | inl e ↦ rw e (omega arith)
  | inr e ↦ rw e (omega arith)
]

length-sort : (x : ℕ) (xs : List ℕ) → 1 ≤ length (sort leb (x ∷ xs))
unfolding sort
length-sort x xs = length-insert x (sort leb xs)

ratio_divides : (quotient : ℕ → ℕ → ℕ) (a b : ℕ) → 1 ≤ b → ratio quotient a b ≡ quotient a b
ratio_divides quotient a zero h = absurd (omega arith)
ratio_divides quotient a (suc b) h = refl

against_total :
    (quotient : ℕ → ℕ → ℕ) (target p95 : Option ℕ) (v : ℕ)
    → p95 ≡ some v
    → (request : Option ℕ) × (against quotient target p95 ≡ some request)
against_total quotient none p95 v e = (none, refl)
against_total quotient (some target) none v e = cc e
against_total quotient (some target) (some p) v e = (some (ratio quotient p target), refl)

p95_total :
    (quotient : ℕ → ℕ → ℕ) (slo : CostSlo) (recent : List ℕ)
    → (request : Option ℕ) × (p95_ratio quotient slo recent ≡ some request)
p95_total quotient slo [] = (none, refl)
p95_total quotient slo (c ∷ cs) =
    let (i, v, at_i, picked, rank) =
      pick (sort leb (c ∷ cs)) 95 (length-sort c cs) (omega arith) (omega arith) in
    against_total quotient slo.per_request_p95_usd (percentile (sort leb (c ∷ cs)) 95) v picked

-- Under a valid SLO, `evaluate` returns a decision, and its action is as severe as the most severe of
-- three signals: how many of the two thresholds the ratio of the burn rate to the daily target has
-- reached, how many the ratio of the p95 of the recent costs has reached, where there is one, and
-- what the breaker demands (nothing, to throttle at a downgrade, to defer at a block).
pub evaluate_is_worst :
    (quotient : ℕ → ℕ → ℕ) (slo : CostSlo) (burn_rate : ℕ) (breaker : Option CircuitBreakerDecision)
    (recent : List ℕ)
    → IsValid slo
    → (d : GovernorDecision) × (evaluate_pace quotient slo burn_rate breaker recent ≡ some d)
      × (p95_ratio quotient slo recent ≡ some d.request_p95_ratio)
      × (severity d.action
          ≡ max
              (max
                (reached slo (quotient burn_rate slo.per_day_target_usd))
                (reached? slo d.request_p95_ratio))
              (demanded (action_of breaker)))
unfolding evaluate_pace
evaluate_is_worst quotient slo burn_rate breaker recent valid =
    let (request, e) = p95_total quotient slo recent in
    let velocity = ratio quotient burn_rate slo.per_day_target_usd in
    let divides = ratio_divides quotient burn_rate slo.per_day_target_usd valid.target in
    let worst = decide_pace-severity slo velocity request (action_of breaker) valid.thresholds in
    let returned : evaluate_pace quotient slo burn_rate breaker recent
        ≡ some (decision_of quotient slo velocity breaker request) =
      rw (evaluate_pace, e) refl in
    (
      decision_of quotient slo velocity breaker request,
      returned,
      e,
      worst
          ∙ ap
              (λ r. max (max (reached slo r) (reached? slo request)) (demanded (action_of breaker)))
              divides,
    )
