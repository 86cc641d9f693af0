-- ===== src/Autopilot/Gates.antt =====
-- The gates of src/pitwall/autopilot/controller.py that need nothing of the controller but its limits.
use pitwall_gpu_broker.Autopilot.Schema.{
  AutopilotHardLimits, GateReason, AutopilotGateResult, WhatIfBatchProjection, SimulationEvaluation,
  circuit_breaker, simulation_failed, exceeds_budget, simulation_passed, max_actions_reached,
  action_cost_exceeds, run_cost_exceeds, projected_exceeds, limits_passed, no_breaker,
  breaker_reason,
}
use pitwall_gpu_broker.Cost.CircuitBreaker.{CircuitBreakerDecision, BreakerAction, allow}
use pitwall_gpu_broker.Prelude.{
  ℕ, ◌+◌, Bool, true, false, Option, none, some, ltb, leb, if◌then◌else◌,
}

abbrev exceeds : ℕ → Option ℕ → Bool
exceeds spend none = false
exceeds spend (some limit) = ltb limit spend

unfoldable pub evaluate_hard_limits :
    AutopilotHardLimits → WhatIfBatchProjection → ℕ → ℕ → Bool × GateReason
evaluate_hard_limits limits p applied_count accepted =
    if leb limits.max_actions_per_run applied_count
    then (false, max_actions_reached)
    else if exceeds p.total_reserved_usd limits.max_reserved_usd_per_action
    then (false, action_cost_exceeds)
    else if exceeds (accepted + p.total_reserved_usd) limits.max_reserved_usd_per_run
    then (false, run_cost_exceeds)
    else if exceeds p.projected_spend_usd limits.max_projected_spend_usd
    then (false, projected_exceeds)
    else (true, limits_passed)

abbrev is_allow : BreakerAction → Bool
is_allow allow = true
is_allow _ = false

unfoldable pub breaker_gate : Option CircuitBreakerDecision → AutopilotGateResult
breaker_gate none = record { name = circuit_breaker; passed = true; reason = no_breaker }
breaker_gate (some d) = record {
  name = circuit_breaker;
  passed = is_allow d.action;
  reason = breaker_reason d.action d.reason;
}

abbrev is_true : Option Bool → Bool
is_true (some true) = true
is_true _ = false

-- `_simulate` behind the test for workloads.
abbrev pub judge : Option WhatIfBatchProjection → SimulationEvaluation
judge none = record { passed = false; reason = simulation_failed; projection = none }
judge (some p) =
    if is_true p.would_exceed_budget
    then record { passed = false; reason = exceeds_budget; projection = some p }
    else record { passed = true; reason = simulation_passed; projection = some p }
