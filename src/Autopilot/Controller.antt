-- ===== src/Autopilot/Controller.antt =====
-- src/pitwall/autopilot/controller.py: signals become actions, which pass the policy, the
-- simulation, the hard limits and the breaker before an executor applies them.
pub mod Limits
pub mod Order
use pitwall_gpu_broker.Autopilot.Schema.{
  AutopilotSignal, AutopilotAction, AutopilotGateResult, WhatIfBatchProjection, AutopilotDecision,
  SimulationEvaluation, AutopilotController, shadow, apply, applied, shadowed, denied, policy,
  simulation, hard_limits, mode, executor, policy_allowed, policy_denied, no_workload, shadow_mode,
  no_executor, executor_message,
}
use pitwall_gpu_broker.Autopilot.Gates.{evaluate_hard_limits, breaker_gate, judge}
use pitwall_gpu_broker.Prelude.Sort.{sort}
use pitwall_gpu_broker.Prelude.Lex.{lex, by_number, by_text}
use pitwall_gpu_broker.Cost.CircuitBreaker.{CircuitBreakerDecision}
use pitwall_gpu_broker.Prelude.{
  ℕ, ◌+◌, Bool, true, false, not, Option, none, some, List, [], ◌∷◌, ◌++◌, map, if◌then◌else◌,
  Result, ok, err,
}

module _ {P W S X : Type 0} (controller : AutopilotController P W S X) where
  unfoldable pub simulate : List W → SimulationEvaluation
  simulate [] = record { passed = false; reason = no_workload; projection = none }
  simulate (w ∷ ws) = judge (controller.simulate_workloads (w ∷ ws))

  abbrev policy_gate : AutopilotAction P W → AutopilotGateResult
  policy_gate action =
      if controller.policy_allows action
      then record { name = policy; passed = true; reason = policy_allowed }
      else record { name = policy; passed = false; reason = policy_denied }

  -- The end of `_decide`, behind the breaker. The enum has two members, so that the branch for an
  -- unsupported mode is never taken.
  unfoldable pub apply_stage :
      AutopilotAction P W
      → List AutopilotGateResult
      → WhatIfBatchProjection
      → S
      → Result X (AutopilotDecision P W) × S
  apply_stage action gates p s = elim controller.mode [
    | shadow ↦ (
      ok (record {
        action = action;
        outcome = shadowed;
        gates = gates ++ record { name = mode; passed = false; reason = shadow_mode } ∷ [];
        projection = some p;
        apply_result = none;
      }),
      s,
    )
    | apply ↦ elim controller.executor [
      | none ↦ (
        ok (record {
          action = action;
          outcome = denied;
          gates = gates ++ record { name = executor; passed = false; reason = no_executor } ∷ [];
          projection = some p;
          apply_result = none;
        }),
        s,
      )
      | some run ↦
          let (r, s') = run action s in
          elim r [
            | err x ↦ (err x, s')
            | ok result ↦ (
              ok (record {
                action = action;
                outcome = if result.applied then applied else denied;
                gates =
                    gates
                    ++ record {
                      name = executor;
                      passed = result.applied;
                      reason = executor_message result.message;
                    }
                      ∷ [];
                projection = some p;
                apply_result = some result;
              }),
              s',
            )
          ]
    ]
  ]

  -- A denial, with what the simulation gave.
  abbrev deny :
      AutopilotAction P W
      → List AutopilotGateResult
      → Option WhatIfBatchProjection
      → S
      → Result X (AutopilotDecision P W) × S
  deny action gates p s = (
    ok (record {
      action = action;
      outcome = denied;
      gates = gates;
      projection = p;
      apply_result = none;
    }),
    s,
  )

  -- `_decide` behind the simulation.
  unfoldable pub decide_limits :
      Option CircuitBreakerDecision
      → AutopilotAction P W
      → ℕ
      → ℕ
      → List AutopilotGateResult
      → WhatIfBatchProjection
      → S
      → Result X (AutopilotDecision P W) × S
  unfolding evaluate_hard_limits breaker_gate apply_stage
  decide_limits breaker action applied_count accepted gates p s =
      let (within, why) = evaluate_hard_limits controller.limits p applied_count accepted in
      let gates3 = gates ++ record { name = hard_limits; passed = within; reason = why } ∷ [] in
      let gates4 = gates3 ++ breaker_gate breaker ∷ [] in
      if not within
      then deny action gates3 (some p) s
      else if not (breaker_gate breaker).passed
      then deny action gates4 (some p) s
      else apply_stage action gates4 p s

  unfoldable pub decide :
      Option CircuitBreakerDecision
      → AutopilotAction P W
      → ℕ
      → ℕ
      → S
      → Result X (AutopilotDecision P W) × S
  unfolding simulate decide_limits
  decide breaker action applied_count accepted s =
      let gate1 = policy_gate action in
      let evaluation = simulate action.signal.simulation_workloads in
      let gates2 =
        gate1
        ∷ record { name = simulation; passed = evaluation.passed; reason = evaluation.reason }
        ∷ [] in
      if not gate1.passed
      then deny action (gate1 ∷ []) none s
      else if not evaluation.passed
      then deny action gates2 none s
      else elim evaluation.projection [
        | none ↦ deny action gates2 none s
        | some p ↦ decide_limits breaker action applied_count accepted gates2 p s
      ]

  abbrev pub counts : AutopilotDecision P W → ℕ
  counts d = elim d.outcome [ applied ↦ elim d.projection [ none ↦ 0 | some p ↦ 1 ] | _ ↦ 0 ]

  abbrev pub reserves : AutopilotDecision P W → ℕ
  reserves d = elim d.outcome [
    | applied ↦ elim d.projection [ none ↦ 0 | some p ↦ p.total_reserved_usd ]
    | _ ↦ 0
  ]

  -- The loop of `run`.
  unfoldable pub run_actions :
      Option CircuitBreakerDecision
      → List (AutopilotAction P W)
      → ℕ
      → ℕ
      → S
      → Result X (List (AutopilotDecision P W)) × S
  unfolding decide
  run_actions breaker [] applied_count accepted s = (ok [], s)
  run_actions breaker (a ∷ actions) applied_count accepted s =
      let (r, s') = decide breaker a applied_count accepted s in
      elim r [
        | err x ↦ (err x, s')
        | ok d ↦
            let (rest, s'') =
              run_actions breaker actions (applied_count + counts d) (accepted + reserves d) s' in
            elim rest [ err x ↦ (err x, s'') | ok ds ↦ (ok (d ∷ ds), s'') ]
      ]

  -- The order of the key of `_collect_signals`.
  unfoldable pub signal_leb : AutopilotSignal P W → AutopilotSignal P W → Bool
  signal_leb = lex (by_number (λ s. s.priority)) (
      lex (by_text (λ s. s.source)) (
        lex (by_text (λ s. s.signal_id))
          (lex (by_text (λ s. s.target_kind)) (by_text (λ s. s.target_id)))))

  abbrev pub from_sources : List (ℕ → List (AutopilotSignal P W)) → ℕ → List (AutopilotSignal P W)
  from_sources [] now = []
  from_sources (source ∷ sources) now = source now ++ from_sources sources now

  unfoldable pub collect_signals :
      ℕ
      → List (AutopilotSignal P W)
      → List (ℕ → List (AutopilotSignal P W))
      → List (AutopilotSignal P W)
  unfolding signal_leb
  collect_signals now signals sources = sort signal_leb (signals ++ from_sources sources now)

  abbrev pub from_signal : AutopilotSignal P W → AutopilotAction P W
  from_signal signal = record { signal = signal }

  unfoldable pub run :
      ℕ
      → List (AutopilotSignal P W)
      → List (ℕ → List (AutopilotSignal P W))
      → Option CircuitBreakerDecision
      → S
      → Result X (List (AutopilotDecision P W)) × S
  unfolding collect_signals run_actions
  run now signals sources breaker s =
      run_actions breaker (map from_signal (collect_signals now signals sources)) 0 0 s
