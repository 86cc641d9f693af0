-- ===== src/Routing/Cascade/Run.antt =====
-- The runs of src/pitwall/routing/cascade.py: which tiers are tried, and in which order.
use pitwall_gpu_broker.Routing.Cascade.{
  CascadeTier, CascadeAttempt, CascadeProviderRequest, CascadeProviderResult, attempt_tier,
  run_tiers, result_of,
}
use pitwall_gpu_broker.Prelude.{
  append_assoc, append_nil, ℕ, ◌+◌, ◌≡◌, refl, ap, ◌∙◌, inl, inr, true, false, List, [], ◌∷◌, ◌++◌,
  arith, Bool-cases, length, ok, Result-cases,
}

-- From a tier number on, some tiers are tried and fail the gate, with these attempts, and leave
-- the other tiers.
pub data Escalates {A R X : Type 0} (request : CascadeProviderRequest A R X)
    : ℕ → List (CascadeTier A) → List (CascadeAttempt A R) → List (CascadeTier A) → Type 0 where
  untried : {n : ℕ} {ts : List (CascadeTier A)} → Escalates request n ts [] ts
  fails_at :
      {n : ℕ} {t : CascadeTier A} {ts left : List (CascadeTier A)} {a : CascadeAttempt A R}
      {failed : List (CascadeAttempt A R)}
      → attempt_tier request n t ≡ ok a
      → a.gate.passed ≡ false
      → Escalates request (n + 1) ts failed left
      → Escalates request n (t ∷ ts) (a ∷ failed) left

module _ {A R X : Type 0} (request : CascadeProviderRequest A R X) where
  -- A run that ends with a tier that passes.
  pub record Succeeds (n : ℕ) (ts : List (CascadeTier A)) (acc : List (CascadeAttempt A R))
      (res : CascadeProviderResult A R) : Type 0 where
    pub failed : List (CascadeAttempt A R)
    pub tier : CascadeTier A
    pub left : List (CascadeTier A)
    pub winner : CascadeAttempt A R
    pub escalation : Escalates request n ts failed (tier ∷ left)
    pub number : ℕ
    pub numbered : number ≡ n + length failed
    pub attempted : attempt_tier request number tier ≡ ok winner
    pub passed : winner.gate.passed ≡ true
    pub reported : res ≡ result_of request winner ((acc ++ failed) ++ winner ∷ [])

  pub run-Succeeds :
      (n : ℕ) (acc : List (CascadeAttempt A R)) (ts : List (CascadeTier A))
      {res : CascadeProviderResult A R}
      → run_tiers request n acc ts ≡ ok res
      → Succeeds n ts acc res
  unfolding run_tiers
  run-Succeeds n acc [] h = absurd (cc h)
  run-Succeeds n acc (t ∷ ts) {res} h = elim (Result-cases (attempt_tier request n t)) [
    | inr (x, e) ↦ absurd (ground arith)
    | inl (a, e) ↦ elim (Bool-cases a.gate.passed) [
      | inl p ↦
          let r : res ≡ result_of request a (acc ++ a ∷ []) = ground arith in
          record {
            failed = [];
            tier = t;
            left = ts;
            winner = a;
            escalation = Escalates.untried;
            number = n;
            numbered = omega arith;
            attempted = e;
            passed = p;
            reported = rw (append_nil acc) r;
          }
      | inr f ↦
          let h' : run_tiers request (n + 1) (acc ++ a ∷ []) ts ≡ ok res = ground arith in
          let rest = run-Succeeds (n + 1) (acc ++ a ∷ []) ts h' in
          record {
            failed = a ∷ rest.failed;
            tier = rest.tier;
            left = rest.left;
            winner = rest.winner;
            escalation = Escalates.fails_at e f rest.escalation;
            number = rest.number;
            numbered = omega (arith, rest.numbered);
            attempted = rest.attempted;
            passed = rest.passed;
            reported =
                rest.reported
                ∙ ap (λ xs. result_of request rest.winner (xs ++ rest.winner ∷ []))
                    (append_assoc acc (a ∷ []) rest.failed);
          }
    ]
  ]

  module _ (n : ℕ) (acc : List (CascadeAttempt A R)) (t : CascadeTier A) (ts : List (CascadeTier A))
      {a : CascadeAttempt A R} (e : attempt_tier request n t ≡ ok a) where
    run-next :
        a.gate.passed ≡ false
        → run_tiers request n acc (t ∷ ts) ≡ run_tiers request (n + 1) (acc ++ a ∷ []) ts
    unfolding run_tiers
    run-next f = ground arith

    run-last :
        a.gate.passed ≡ true
        → run_tiers request n acc (t ∷ ts) ≡ ok (result_of request a (acc ++ a ∷ []))
    unfolding run_tiers
    run-last p = ground arith

  -- The loop goes through the tiers that fail.
  pub run-of_Escalates :
      {n : ℕ} (m : ℕ) (acc : List (CascadeAttempt A R)) {ts left : List (CascadeTier A)}
      {failed : List (CascadeAttempt A R)}
      → Escalates request n ts failed left
      → m ≡ n + length failed
      → run_tiers request n acc ts ≡ run_tiers request m (acc ++ failed) left
  unfolding run_tiers
  run-of_Escalates {n} m acc {left = left} Escalates.untried h =
      let z : m ≡ n = omega arith in rw (append_nil acc, z) refl
  run-of_Escalates {n} m acc {left = left}
        (Escalates.fails_at {t = t} {ts = ts} {a = a} {failed = failed} e f rest) h =
      run-next n acc t ts e f
      ∙ (run-of_Escalates m (acc ++ a ∷ []) rest (omega arith)
          ∙ ap (λ xs. run_tiers request m xs left) (append_assoc acc (a ∷ []) failed))

  pub run-of_Succeeds :
      (ts : List (CascadeTier A)) {res : CascadeProviderResult A R}
      → Succeeds 1 ts [] res
      → run_tiers request 1 [] ts ≡ ok res
  unfolding run_tiers
  run-of_Succeeds ts s =
      run-of_Escalates s.number [] s.escalation s.numbered
      ∙ (run-last s.number s.failed s.tier s.left s.attempted s.passed ∙ (rw s.reported refl))
