-- ===== src/Tests/Pacing.antt =====
-- Tests of the pacing of spending (src/pitwall/cost/slo_governor.py).
use pitwall_gpu_broker.Cost.SloGovernor.{
  CostSlo, IsValid, GovernorDecision, throttle, p95_near, p95_ratio, evaluate_pace,
}
use pitwall_gpu_broker.Cost.SloGovernor.Pace.{severity, reached, reached?, evaluate_is_worst}
use pitwall_gpu_broker.Prelude.Sort.{sort, insert}
use pitwall_gpu_broker.Prelude.{ℕ, ◌*◌, ◌/◌, max, ◌≡◌, refl, none, some, List, [], ◌∷◌, arith}

abbrev slo : CostSlo
slo = record {
  per_day_target_usd = 100;
  per_request_p95_usd = some 10;
  throttle_threshold = 80;
  defer_threshold = 100;
}

abbrev hundredths : ℕ → ℕ → ℕ
hundredths a b = a * 100 / b

slo-IsValid : IsValid slo
slo-IsValid = record {
  target = omega arith;
  request_target = λ p e. let same : 10 ≡ p = cc e in omega arith;
  thresholds = omega arith;
}

abbrev costs : List ℕ
costs = 9 ∷ 2 ∷ 5 ∷ []

-- A burn rate of half the target is within it, and a p95 of 9 out of 10 is near its target.
throttled :
    evaluate_pace hundredths slo 50 none costs
    ≡ some (record {
      action = throttle;
      reason = p95_near;
      velocity_ratio = 50;
      request_p95_ratio = some 90;
      breaker_action = none;
    })
unfolding evaluate_pace sort insert
throttled = refl

evaluate_is_worst_example :
    (d : GovernorDecision) × (evaluate_pace hundredths slo 50 none costs ≡ some d)
    × (p95_ratio hundredths slo costs ≡ some d.request_p95_ratio)
    × (severity d.action ≡ max (max (reached slo 50) (reached? slo d.request_p95_ratio)) 0)
evaluate_is_worst_example = evaluate_is_worst hundredths slo 50 none costs slo-IsValid
