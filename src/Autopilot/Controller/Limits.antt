-- ===== src/Autopilot/Controller/Limits.antt =====
-- What bounds the actions that src/pitwall/autopilot/controller.py applies.
use pitwall_gpu_broker.Autopilot.Schema.{
  AutopilotAction, AutopilotController, AutopilotDecision, AutopilotSignal, WhatIfBatchProjection,
  applied, apply,
}
use pitwall_gpu_broker.Autopilot.Controller.{
  decide, decide_limits, apply_stage, simulate, run_actions, run, counts, reserves, from_signal,
  collect_signals,
}
use pitwall_gpu_broker.Autopilot.Gates.{evaluate_hard_limits, breaker_gate}
use pitwall_gpu_broker.Cost.CircuitBreaker.{CircuitBreakerDecision, allow}
use pitwall_gpu_broker.Prelude.{
  ℕ, ◌+◌, ◌≤◌, ◌≡◌, subst, ◌≢◌, inl, inr, true, Option, none, some, List, [], ◌∷◌, map, arith,
  Option-cases, All, ok, Result-cases,
}

-- An amount is within an optional limit.
abbrev pub Within : ℕ → Option ℕ → Type 0
Within spend none = Unit
Within spend (some limit) = spend ≤ limit

nothing-Within : (limit : Option ℕ) → Within 0 limit
nothing-Within none = tt
nothing-Within (some limit) = omega arith

module _ {P W S X : Type 0} (controller : AutopilotController P W S X)
    (breaker : Option CircuitBreakerDecision) where
  -- What holds of a decision whose action was applied.
  pub record IsCleared (d : AutopilotDecision P W) : Type 0 where
    pub policy_allowed : controller.policy_allows d.action ≡ true
    pub mode_is_apply : controller.mode ≡ apply
    pub breaker_allows : (b : CircuitBreakerDecision) → breaker ≡ some b → b.action ≡ allow
    pub projection : WhatIfBatchProjection
    pub simulated :
        controller.simulate_workloads d.action.signal.simulation_workloads ≡ some projection
    pub reported : d.projection ≡ some projection
    pub within_budget : projection.would_exceed_budget ≢ some true
    pub within_action :
        Within projection.total_reserved_usd controller.limits.max_reserved_usd_per_action
    pub within_spend :
        Within projection.projected_spend_usd controller.limits.max_projected_spend_usd

  decide-IsCleared :
      (a : AutopilotAction P W) (n m : ℕ) (s : S) (d : AutopilotDecision P W)
      → (decide controller breaker a n m s).0 ≡ ok d
      → d.outcome ≡ applied
      → IsCleared d
  unfolding decide simulate decide_limits apply_stage evaluate_hard_limits breaker_gate
  decide-IsCleared a n m s d h o = elim (Option-cases d.projection) [
    | inl e ↦ absurd (ground arith)
    | inr (p, e) ↦ record {
      policy_allowed = ground arith;
      mode_is_apply = ground arith;
      breaker_allows = λ b given. ground arith;
      projection = p;
      simulated = ground arith;
      reported = e;
      within_budget = λ over. ground arith;
      within_action = ground arith;
      within_spend = ground arith;
    }
  ]

  -- The count and the reserved amount that the loop keeps stay within the limits.
  decide-limits :
      (a : AutopilotAction P W) (n m : ℕ) (s : S) (d : AutopilotDecision P W)
      → (decide controller breaker a n m s).0 ≡ ok d
      → n ≤ controller.limits.max_actions_per_run
      → Within m controller.limits.max_reserved_usd_per_run
      → (n + counts controller d ≤ controller.limits.max_actions_per_run)
        × Within (m + reserves controller d) controller.limits.max_reserved_usd_per_run
  unfolding decide simulate decide_limits apply_stage evaluate_hard_limits breaker_gate
  decide-limits a n m s d h c w = ground arith

  abbrev pub count_applied : List (AutopilotDecision P W) → ℕ
  count_applied [] = 0
  count_applied (d ∷ ds) = counts controller d + count_applied ds

  abbrev pub sum_reserved : List (AutopilotDecision P W) → ℕ
  sum_reserved [] = 0
  sum_reserved (d ∷ ds) = reserves controller d + sum_reserved ds

  -- The decisions on top of a count and a reserved amount.
  abbrev IsBounded : ℕ → ℕ → List (AutopilotDecision P W) → Type 0
  IsBounded n m ds =
      (n + count_applied ds ≤ controller.limits.max_actions_per_run)
      × Within (m + sum_reserved ds) controller.limits.max_reserved_usd_per_run
      × All (λ d. d.outcome ≡ applied → IsCleared d) ds

  IsBounded-nil :
      (n m : ℕ)
      → n ≤ controller.limits.max_actions_per_run
      → Within m controller.limits.max_reserved_usd_per_run
      → IsBounded n m []
  IsBounded-nil n m c w = (
    omega arith,
    subst (λ k. Within k controller.limits.max_reserved_usd_per_run) (omega arith) w,
    tt,
  )

  IsBounded-cons :
      (n m : ℕ) (d : AutopilotDecision P W) (ds : List (AutopilotDecision P W))
      → (d.outcome ≡ applied → IsCleared d)
      → IsBounded (n + counts controller d) (m + reserves controller d) ds
      → IsBounded n m (d ∷ ds)
  IsBounded-cons n m d ds cleared (c, w, rest) = (
    omega arith,
    subst (λ k. Within k controller.limits.max_reserved_usd_per_run) (omega arith) w,
    (cleared, rest),
  )

  loop-limits :
      (actions : List (AutopilotAction P W)) (n m : ℕ) (s : S)
      → n ≤ controller.limits.max_actions_per_run
      → Within m controller.limits.max_reserved_usd_per_run
      → (ds : List (AutopilotDecision P W))
      → (run_actions controller breaker actions n m s).0 ≡ ok ds
      → IsBounded n m ds
  unfolding run_actions
  loop-limits [] n m s c w ds h =
      let none_made : [] ≡ ds = cc in subst (IsBounded n m) none_made (IsBounded-nil n m c w)
  loop-limits (a ∷ actions) n m s c w ds h =
      elim (Result-cases (decide controller breaker a n m s).0) [
        | inr (x, e) ↦ absurd (ground arith)
        | inl (d, e) ↦
            let s' = (decide controller breaker a n m s).1 in
            let (c', w') = decide-limits a n m s d e c w in
            let n' = n + counts controller d in
            let m' = m + reserves controller d in
            elim (Result-cases (run_actions controller breaker actions n' m' s').0) [
              | inr (x, e') ↦ absurd (ground arith)
              | inl (rest, e') ↦
                  let all : d ∷ rest ≡ ds = ground arith in
                  subst (IsBounded n m) all (
                    IsBounded-cons n m d rest (decide-IsCleared a n m s d e)
                      (loop-limits actions n' m' s' c' w' rest e'))
            ]
      ]

  -- Whatever the signals, a run that returns has applied no more actions than the limit, has
  -- reserved no more than the run's limit for all of them together, and each action it applied
  -- passed the policy, the simulation, the limits for one action and the breaker, in apply mode.
  pub run-Within_limits :
      (now : ℕ) (signals : List (AutopilotSignal P W))
      (sources : List (ℕ → List (AutopilotSignal P W))) (s : S) (ds : List (AutopilotDecision P W))
      → (run controller now signals sources breaker s).0 ≡ ok ds
      → (count_applied ds ≤ controller.limits.max_actions_per_run)
        × Within (sum_reserved ds) controller.limits.max_reserved_usd_per_run
        × All (λ d. d.outcome ≡ applied → IsCleared d) ds
  unfolding run
  run-Within_limits now signals sources s ds h =
      let actions = map (from_signal controller) (collect_signals controller now signals sources) in
      let (c, w, cleared) =
        loop-limits actions 0 0 s (omega arith)
          (nothing-Within controller.limits.max_reserved_usd_per_run) ds h in
      (
        omega (arith, c),
        subst (λ k. Within k controller.limits.max_reserved_usd_per_run) (omega arith) w,
        cleared,
      )
