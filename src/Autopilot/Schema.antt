-- ===== src/Autopilot/Schema.antt =====
-- The records of src/pitwall/autopilot/schema.py. A priority is an integer that is only compared:
-- it stands for its place in the order. The payload of a signal (its parameters, confidence and
-- policy snapshot) is only handed on. Amounts are counted in units of one fixed scale.
use pitwall_gpu_broker.Cost.CircuitBreaker.{BreakerAction, Reason}
use pitwall_gpu_broker.Prelude.{ℕ, String, Bool, Option, List, Result}

pub data AutopilotMode : Type 0 where
  shadow apply : AutopilotMode

pub data AutopilotActionKind : Type 0 where
  set_warm_capacity mark_provider_unhealthy reserve_capacity adjust_provider_priority :
      AutopilotActionKind

pub record AutopilotHardLimits : Type 0 where
  pub max_actions_per_run : ℕ
  pub max_reserved_usd_per_action : Option ℕ
  pub max_reserved_usd_per_run : Option ℕ
  pub max_projected_spend_usd : Option ℕ

pub record AutopilotSignal (P : Type 0) (W : Type 0) : Type 0 where
  pub signal_id : String
  pub source : String
  pub action_kind : AutopilotActionKind
  pub target_kind : String
  pub target_id : String
  pub reason : String
  pub priority : ℕ
  pub payload : P
  pub simulation_workloads : List W

-- An action holds what its signal holds, and `ap-` with the signal's id as its own id.
pub record AutopilotAction (P : Type 0) (W : Type 0) : Type 0 where
  pub signal : AutopilotSignal P W

-- The texts of a gate's reason.
pub data GateReason : Type 0 where
  policy_allowed policy_denied : GateReason
  no_workload simulation_failed exceeds_budget simulation_passed : GateReason
  max_actions_reached action_cost_exceeds run_cost_exceeds projected_exceeds limits_passed :
      GateReason
  no_breaker : GateReason
  breaker_reason : BreakerAction → Reason → GateReason
  shadow_mode no_executor : GateReason
  executor_message : String → GateReason

pub data GateName : Type 0 where
  policy simulation hard_limits circuit_breaker mode executor : GateName

pub record AutopilotGateResult : Type 0 where
  pub name : GateName
  pub passed : Bool
  pub reason : GateReason

pub record ActionApplyResult : Type 0 where
  pub applied : Bool
  pub message : String

-- The fields of `WhatIfBatchProjection` that the controller reads.
pub record WhatIfBatchProjection : Type 0 where
  pub total_reserved_usd : ℕ
  pub projected_spend_usd : ℕ
  pub would_exceed_budget : Option Bool

pub data AutopilotOutcome : Type 0 where
  applied shadowed denied : AutopilotOutcome

pub record AutopilotDecision (P : Type 0) (W : Type 0) : Type 0 where
  pub action : AutopilotAction P W
  pub outcome : AutopilotOutcome
  pub gates : List AutopilotGateResult
  pub projection : Option WhatIfBatchProjection
  pub apply_result : Option ActionApplyResult

pub record SimulationEvaluation : Type 0 where
  pub passed : Bool
  pub reason : GateReason
  pub projection : Option WhatIfBatchProjection

-- The controller's own fields, and what it calls: the evaluation of the policies, the simulator,
-- which may raise a `ValueError`, and the executor, which changes the world `S` and may raise.
pub record AutopilotController (P : Type 0) (W : Type 0) (S : Type 0) (X : Type 0) : Type 0 where
  pub policy_allows : AutopilotAction P W → Bool
  pub simulate_workloads : List W → Option WhatIfBatchProjection
  pub executor : Option (AutopilotAction P W → S → Result X ActionApplyResult × S)
  pub mode : AutopilotMode
  pub limits : AutopilotHardLimits
