-- ===== src/Routing/Cascade/Outcomes.antt =====
-- Which runs of src/pitwall/routing/cascade.py return, and which exhaust the tiers.
use pitwall_gpu_broker.Routing.Cascade.{
  validate_provider_ids, ids, validate_tier_order, CascadeTier, CascadeAttempt,
  CascadeProviderRequest, CascadeProviderResult, exhausted, attempt_tier, attempt_cost, run_tiers,
  total_cost, validate_request, route_with_cascade, max_attempts_of,
}
use pitwall_gpu_broker.Prelude.{
  append_assoc, append_nil, ℕ, ◌+◌, String, ◌≡◌, refl, sym, ◌∙◌, subst, ◌≢◌, ◌↔◌, inl, inr, Option,
  none, some, List, [], ◌∷◌, ◌++◌, arith, Bool-cases, length, ok, err, Result-cases,
}
use pitwall_gpu_broker.Routing.Cascade.Run.{
  Escalates, Succeeds, run-Succeeds, run-of_Escalates, run-of_Succeeds,
}

module _ {A R X : Type 0} (request : CascadeProviderRequest A R X) where
  attempt-not_exhausted :
      (n : ℕ) (t : CascadeTier A) (failed : List (CascadeAttempt A R)) (cost : ℕ)
      → attempt_tier request n t ≢ err (exhausted failed cost)
  unfolding attempt_tier attempt_cost
  attempt-not_exhausted n t failed cost h = ground arith

  run-exhausted :
      (n : ℕ) (acc : List (CascadeAttempt A R)) (ts : List (CascadeTier A))
      {all : List (CascadeAttempt A R)} {cost : ℕ}
      → run_tiers request n acc ts ≡ err (exhausted all cost)
      → (failed : List (CascadeAttempt A R)) × Escalates request n ts failed []
        × (all ≡ acc ++ failed)
        × (cost ≡ total_cost all)
  unfolding run_tiers
  run-exhausted n acc [] {all} {cost} h =
      let same : acc ≡ all = cc in ([], Escalates.untried, rw (append_nil acc) (sym same), cc)
  run-exhausted n acc (t ∷ ts) {all} {cost} h = elim (Result-cases (attempt_tier request n t)) [
    | inr (x, e) ↦
        let bad : err x ≡ err (exhausted all cost) = rw e at h in
        absurd (attempt-not_exhausted n t all cost (cc (e, bad)))
    | inl (a, e) ↦ elim (Bool-cases a.gate.passed) [
      | inl p ↦ absurd (ground arith)
      | inr f ↦
          let h' : run_tiers request (n + 1) (acc ++ a ∷ []) ts ≡ err (exhausted all cost) =
            ground arith in
          let (failed, esc, whole, sum) = run-exhausted (n + 1) (acc ++ a ∷ []) ts h' in
          (a ∷ failed, Escalates.fails_at e f esc, whole ∙ append_assoc acc (a ∷ []) failed, sum)
    ]
  ]

  order-not_exhausted :
      (previous : Option ℕ) (ts : List (CascadeTier A)) (failed : List (CascadeAttempt A R))
      (cost : ℕ)
      → validate_tier_order {A = A} {R = R} {X = X} previous ts ≢ err (exhausted failed cost)
  unfolding validate_tier_order
  order-not_exhausted previous [] failed cost h = ground arith
  order-not_exhausted previous (t ∷ ts) failed cost h =
      ground (arith, order-not_exhausted (some t.estimated_cost_usd) ts failed cost)

  ids-not_exhausted :
      (seen is : List String) (failed : List (CascadeAttempt A R)) (cost : ℕ)
      → validate_provider_ids {A = A} {R = R} {X = X} seen is ≢ err (exhausted failed cost)
  unfolding validate_provider_ids
  ids-not_exhausted seen [] failed cost h = ground arith
  ids-not_exhausted seen (i ∷ is) failed cost h =
      ground (arith, ids-not_exhausted (i ∷ seen) is failed cost)

  validate-not_exhausted :
      (failed : List (CascadeAttempt A R)) (cost : ℕ)
      → validate_request request ≢ err (exhausted failed cost)
  unfolding validate_request max_attempts_of
  validate-not_exhausted failed cost h = ground (
    arith,
    order-not_exhausted none request.tiers failed cost,
    ids-not_exhausted [] (ids request request.tiers) failed cost,
  )

  route-Succeeds :
      (res : CascadeProviderResult A R)
      → route_with_cascade request ≡ ok res
      → (selected : List (CascadeTier A)) × (validate_request request ≡ ok selected)
        × Succeeds request 1 selected [] res
  unfolding route_with_cascade
  route-Succeeds res h = elim (Result-cases (validate_request request)) [
    | inr (x, e) ↦ let bad : err x ≡ ok res = rw e at h in cc bad
    | inl (selected, e) ↦
        let ran : run_tiers request 1 [] selected ≡ ok res = rw e at h in
        (selected, e, run-Succeeds request 1 [] selected ran)
  ]

  route-Escalates :
      (failed : List (CascadeAttempt A R)) (cost : ℕ)
      → route_with_cascade request ≡ err (exhausted failed cost)
      → (selected : List (CascadeTier A)) × (validate_request request ≡ ok selected)
        × Escalates request 1 selected failed []
        × (cost ≡ total_cost failed)
  unfolding route_with_cascade
  route-Escalates failed cost h = elim (Result-cases (validate_request request)) [
    | inr (x, e) ↦
        let bad : err x ≡ err (exhausted failed cost) = rw e at h in
        absurd (validate-not_exhausted failed cost (cc (e, bad)))
    | inl (selected, e) ↦
        let ran : run_tiers request 1 [] selected ≡ err (exhausted failed cost) = rw e at h in
        let (made, esc, whole, sum) = run-exhausted 1 [] selected ran in
        (selected, e, subst (λ xs. Escalates request 1 selected xs []) (sym whole) esc, sum)
  ]

  -- The cascade returns a result exactly when, among the tiers that the validated request selects,
  -- some fail the gate one after the other and the next passes; the result is that tier's, with
  -- all attempts in order and the sum of their costs. It reports exhaustion exactly when all the
  -- selected tiers fail, with all their attempts and costs.
  pub cascade_iff_run :
      (res : CascadeProviderResult A R) (failed : List (CascadeAttempt A R)) (cost : ℕ)
      → ((route_with_cascade request ≡ ok res) ↔ (
          (selected : List (CascadeTier A)) × (validate_request request ≡ ok selected)
          × Succeeds request 1 selected [] res))
        × ((route_with_cascade request ≡ err (exhausted failed cost)) ↔ (
            (selected : List (CascadeTier A)) × (validate_request request ≡ ok selected)
            × Escalates request 1 selected failed []
            × (cost ≡ total_cost failed)))
  unfolding route_with_cascade
  cascade_iff_run res failed cost = (
    (route-Succeeds res, λ (selected, e, s). rw e (run-of_Succeeds request selected s)),
    (
      route-Escalates failed cost,
      λ (selected, e, esc, sum).
          rw (e, sum)
            (run-of_Escalates request (1 + length failed) [] esc refl ∙ (unfold run_tiers in refl)),
    ),
  )
