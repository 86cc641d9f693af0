-- ===== src/Tests/Autopilots.antt =====
-- Tests of the autopilot (src/pitwall/autopilot/controller.py).
use mathlib.Core.List.{Perm}
use pitwall_gpu_broker.Prelude.Sort.{sort, insert, IsSorted}
use pitwall_gpu_broker.Autopilot.Schema.{
  denied, GateName, GateReason, AutopilotGateResult, policy, simulation, hard_limits,
  circuit_breaker, executor, policy_allowed, simulation_passed, limits_passed, no_breaker,
  executor_message, run_cost_exceeds, AutopilotController, AutopilotDecision, AutopilotSignal,
  WhatIfBatchProjection, reserve_capacity, apply, applied,
}
use pitwall_gpu_broker.Autopilot.Controller.{
  run, run_actions, collect_signals, signal_leb, decide, decide_limits, apply_stage, simulate,
  from_signal, from_sources,
}
use pitwall_gpu_broker.Autopilot.Gates.{breaker_gate, evaluate_hard_limits}
use pitwall_gpu_broker.Autopilot.Controller.Limits.{
  IsCleared, Within, count_applied, sum_reserved, run-Within_limits,
}
use pitwall_gpu_broker.Autopilot.Controller.Order.{run_decides_all}
use pitwall_gpu_broker.Prelude.{
  ℕ, ◌+◌, ◌≤◌, String, ◌≡◌, refl, true, false, none, some, List, [], ◌∷◌, ◌++◌, map, All, ok,
}

-- The world is the number of actions that the executor has seen.
abbrev controller : AutopilotController (Unit {0}) ℕ ℕ String
controller = record {
  policy_allows = λ a. true;
  simulate_workloads = λ ws. some (record {
    total_reserved_usd = 40;
    projected_spend_usd = 90;
    would_exceed_budget = some false;
  });
  executor = some (λ a s. (ok (record { applied = true; message = "done" }), s + 1));
  mode = apply;
  limits = record {
    max_actions_per_run = 5;
    max_reserved_usd_per_action = none;
    max_reserved_usd_per_run = some 60;
    max_projected_spend_usd = none;
  };
}

abbrev signal : AutopilotSignal (Unit {0}) ℕ
signal = record {
  signal_id = "s1";
  source = "drift";
  action_kind = reserve_capacity;
  target_kind = "provider";
  target_id = "p1";
  reason = "drift";
  priority = 3;
  payload = tt;
  simulation_workloads = 1 ∷ [];
}

abbrev signals : List (AutopilotSignal (Unit {0}) ℕ)
signals = signal ∷ record signal { signal_id = "s2"; priority = 1 } ∷ []

abbrev forecast : WhatIfBatchProjection
forecast = record {
  total_reserved_usd = 40;
  projected_spend_usd = 90;
  would_exceed_budget = some false;
}

abbrev passes : GateName → GateReason → AutopilotGateResult
passes name reason = record { name = name; passed = true; reason = reason }

-- The second signal comes first; what it reserves leaves too little of the run's limit.
abbrev decided : List (AutopilotDecision (Unit {0}) ℕ)
decided =
    record {
      action = record { signal = record signal { signal_id = "s2"; priority = 1 } };
      outcome = applied;
      gates =
          passes policy policy_allowed
          ∷ passes simulation simulation_passed
          ∷ passes hard_limits limits_passed
          ∷ passes circuit_breaker no_breaker
          ∷ passes executor (executor_message "done")
          ∷ [];
      projection = some forecast;
      apply_result = some (record { applied = true; message = "done" });
    }
    ∷ record {
      action = record { signal = signal };
      outcome = denied;
      gates =
          passes policy policy_allowed
          ∷ passes simulation simulation_passed
          ∷ record { name = hard_limits; passed = false; reason = run_cost_exceeds }
          ∷ [];
      projection = some forecast;
      apply_result = none;
    }
    ∷ []

autopilot-runs : (run controller 0 signals [] none 0).0 ≡ ok decided
unfolding run run_actions collect_signals signal_leb decide decide_limits apply_stage simulate
    breaker_gate evaluate_hard_limits sort insert
autopilot-runs = refl

run-Within_limits_example :
    (count_applied controller none decided ≤ 5)
    × Within (sum_reserved controller none decided) (some 60)
    × All (λ d. d.outcome ≡ applied → IsCleared controller none d) decided
run-Within_limits_example = run-Within_limits controller none 0 signals [] 0 decided autopilot-runs

run_decides_all_example :
    (ordered : List (AutopilotSignal (Unit {0}) ℕ)) × (map (λ d. d.action) decided
      ≡ map (from_signal controller) ordered)
    × IsSorted (signal_leb controller) ordered
    × Perm ordered (signals ++ from_sources controller [] 0)
run_decides_all_example = run_decides_all controller none 0 signals [] 0 decided autopilot-runs
