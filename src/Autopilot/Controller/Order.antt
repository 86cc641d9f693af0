-- ===== src/Autopilot/Controller/Order.antt =====
-- In which order src/pitwall/autopilot/controller.py decides, and when it applies nothing.
use mathlib.Core.List.{Perm}
use pitwall_gpu_broker.Prelude.Sort.{sort, sort-perm, IsSorted, sort-IsSorted, IsTotalOrder}
use pitwall_gpu_broker.Prelude.Lex.{lex-IsTotalOrder, by_number-IsTotalOrder, by_text-IsTotalOrder}
use pitwall_gpu_broker.Autopilot.Schema.{
  AutopilotAction, AutopilotController, AutopilotDecision, AutopilotSignal, applied, shadow,
}
use pitwall_gpu_broker.Autopilot.Controller.{
  decide, decide_limits, apply_stage, simulate, run_actions, run, counts, reserves, from_signal,
  from_sources, collect_signals, signal_leb,
}
use pitwall_gpu_broker.Cost.CircuitBreaker.{CircuitBreakerDecision}
use pitwall_gpu_broker.Prelude.{
  ℕ, ◌+◌, ◌≡◌, refl, sym, ap, subst, ◌≢◌, ◌⊎◌, inl, inr, Option, none, List, [], ◌∷◌, ◌++◌, map,
  arith, All, ok, Result-cases,
}

module _ {P W S X : Type 0} (controller : AutopilotController P W S X)
    (breaker : Option CircuitBreakerDecision) where
  decide-action :
      (a : AutopilotAction P W) (n m : ℕ) (s : S) (d : AutopilotDecision P W)
      → (decide controller breaker a n m s).0 ≡ ok d
      → d.action ≡ a
  unfolding decide simulate decide_limits apply_stage
  decide-action a n m s d h = ground arith

  loop-actions :
      (actions : List (AutopilotAction P W)) (n m : ℕ) (s : S) (ds : List (AutopilotDecision P W))
      → (run_actions controller breaker actions n m s).0 ≡ ok ds
      → map (λ d. d.action) ds ≡ actions
  unfolding run_actions
  loop-actions [] n m s ds h = let e : [] ≡ ds = cc in ap (map (λ d. d.action)) (sym e)
  loop-actions (a ∷ actions) n m s ds h =
      elim (Result-cases (decide controller breaker a n m s).0) [
        | inr (x, e) ↦ absurd (ground arith)
        | inl (d, e) ↦
            let s' = (decide controller breaker a n m s).1 in
            let n' = n + counts controller d in
            let m' = m + reserves controller d in
            elim (Result-cases (run_actions controller breaker actions n' m' s').0) [
              | inr (x, e') ↦ absurd (ground arith)
              | inl (rest, e') ↦
                  let all : d ∷ rest ≡ ds = ground arith in
                  let done = loop-actions actions n' m' s' rest e' in
                  let same = decide-action a n m s d e in
                  subst (λ xs. map (λ d. d.action) xs ≡ a ∷ actions) all (cc (same, done))
            ]
      ]

  signal_leb-IsTotalOrder : IsTotalOrder (signal_leb controller)
  unfolding signal_leb
  signal_leb-IsTotalOrder = lex-IsTotalOrder (by_number-IsTotalOrder (λ s. s.priority)) (
      lex-IsTotalOrder (by_text-IsTotalOrder (λ s. s.source)) (
        lex-IsTotalOrder (by_text-IsTotalOrder (λ s. s.signal_id)) (
          lex-IsTotalOrder (by_text-IsTotalOrder (λ s. s.target_kind))
            (by_text-IsTotalOrder (λ s. s.target_id)))))

  -- A run that returns decides each signal exactly once, the given ones and those of the sources,
  -- in the order of their keys.
  pub run_decides_all :
      (now : ℕ) (signals : List (AutopilotSignal P W))
      (sources : List (ℕ → List (AutopilotSignal P W))) (s : S) (ds : List (AutopilotDecision P W))
      → (run controller now signals sources breaker s).0 ≡ ok ds
      → (ordered : List (AutopilotSignal P W)) × (map (λ d. d.action) ds
          ≡ map (from_signal controller) ordered)
        × IsSorted (signal_leb controller) ordered
        × Perm ordered (signals ++ from_sources controller sources now)
  unfolding run collect_signals
  run_decides_all now signals sources s ds h =
      let given = signals ++ from_sources controller sources now in
      let ordered = sort (signal_leb controller) given in
      (
        ordered,
        loop-actions (map (from_signal controller) ordered) 0 0 s ds h,
        sort-IsSorted signal_leb-IsTotalOrder given,
        sort-perm (signal_leb controller) given,
      )

  decide-inert :
      (controller.mode ≡ shadow) ⊎ (controller.executor ≡ none)
      → (a : AutopilotAction P W) (n m : ℕ) (s : S)
      → (d : AutopilotDecision P W) × (decide controller breaker a n m s ≡ (ok d, s))
        × (d.outcome ≢ applied)
        × (d.apply_result ≡ none)
  unfolding decide simulate decide_limits apply_stage
  decide-inert idle a n m s = elim (Result-cases (decide controller breaker a n m s).0) [
    | inr (x, e) ↦ absurd (ground arith)
    | inl (d, e) ↦ (d, ground arith, λ o. ground arith, ground arith)
  ]

  loop-inert :
      (controller.mode ≡ shadow) ⊎ (controller.executor ≡ none)
      → (actions : List (AutopilotAction P W)) (n m : ℕ) (s : S)
      → (ds : List (AutopilotDecision P W)) × (run_actions controller breaker actions n m s
          ≡ (ok ds, s))
        × All (λ d. (d.outcome ≢ applied) × (d.apply_result ≡ none)) ds
  unfolding run_actions
  loop-inert idle [] n m s = ([], refl, tt)
  loop-inert idle (a ∷ actions) n m s =
      let (d, e, kept, unrun) = decide-inert idle a n m s in
      let (rest, e', all) =
        loop-inert idle actions (n + counts controller d) (m + reserves controller d) s in
      (d ∷ rest, ground arith, ((kept, unrun), all))

  -- In shadow mode, and without an executor, a run returns, leaves the world as it was, and
  -- applies no action.
  shadow_is_inert :
      (controller.mode ≡ shadow) ⊎ (controller.executor ≡ none)
      → (now : ℕ) (signals : List (AutopilotSignal P W))
        (sources : List (ℕ → List (AutopilotSignal P W))) (s : S)
      → (ds : List (AutopilotDecision P W)) × (run controller now signals sources breaker s
          ≡ (ok ds, s))
        × All (λ d. (d.outcome ≢ applied) × (d.apply_result ≡ none)) ds
  unfolding run
  shadow_is_inert idle now signals sources s =
      loop-inert idle
        (map (from_signal controller) (collect_signals controller now signals sources)) 0 0 s
