-- ===== src/Routing/Cascade/Winner.antt =====
-- That the winner of src/pitwall/routing/cascade.py is the cheapest tier that passes the gate, and
-- how many calls it takes.
use pitwall_gpu_broker.Routing.Cascade.{
  CascadeGateDecision, CascadeTier, CascadeAttempt, CascadeProviderRequest, CascadeProviderResult,
  attempt_tier, attempt_cost, run_tiers, validate_request, route_with_cascade, max_attempts_of,
  validate_tier_order,
}
use mathlib.Core.Logic.Or
use mathlib.Core.List.{mem-cons}
use pitwall_gpu_broker.Prelude.{Mem, All-imp, length-take}
use pitwall_gpu_broker.Prelude.{
  ℕ, zero, suc, ◌+◌, ◌≤◌, min, ◌≡◌, refl, sym, inl, inr, true, false, Option, none, some, List, [],
  ◌∷◌, ◌++◌, arith, Bool-cases, length, take, length-append, All, ok, err, Result-cases,
}

-- The estimates do not fall, from an amount on.
abbrev Ascending : {A : Type 0} → ℕ → List (CascadeTier A) → Type 0
Ascending c [] = Unit
Ascending c (t ∷ ts) = (c ≤ t.estimated_cost_usd) × Ascending t.estimated_cost_usd ts

Ascending-take :
    {A : Type 0} (n c : ℕ) (ts : List (CascadeTier A)) → Ascending c ts → Ascending c (take n ts)
Ascending-take zero c ts h = tt
Ascending-take (suc n) c [] h = tt
Ascending-take (suc n) c (t ∷ ts) h = (h.0, Ascending-take n t.estimated_cost_usd ts h.1)

Ascending-All :
    {A : Type 0} (c d : ℕ) (ts : List (CascadeTier A))
    → d ≤ c
    → Ascending c ts
    → All (λ t. d ≤ t.estimated_cost_usd) ts
Ascending-All c d [] le h = tt
Ascending-All c d (t ∷ ts) le h =
    (omega (arith, h.0), Ascending-All t.estimated_cost_usd d ts (omega (arith, h.0)) h.1)

module _ {A R X : Type 0} (request : CascadeProviderRequest A R X) where
  -- The gate passes what the tier's provider gives.
  abbrev pub WouldPass : CascadeTier A → Type 0
  WouldPass t =
      (v : R) × (g : CascadeGateDecision) × (request.call_provider t.provider ≡ ok v)
      × (request.quality_gate t.provider v ≡ ok g)
      × (g.passed ≡ true)

  order-Ascending :
      (c : ℕ) (ts : List (CascadeTier A))
      → validate_tier_order {A = A} {R = R} {X = X} (some c) ts ≡ ok tt
      → Ascending c ts
  unfolding validate_tier_order
  order-Ascending c [] h = tt
  order-Ascending c (t ∷ ts) h =
      (ground arith, order-Ascending t.estimated_cost_usd ts (ground arith))

  from_none :
      (ts : List (CascadeTier A))
      → validate_tier_order {A = A} {R = R} {X = X} none ts ≡ ok tt
      → Ascending 0 ts
  unfolding validate_tier_order
  from_none [] h = tt
  from_none (t ∷ ts) h = (omega arith, order-Ascending t.estimated_cost_usd ts (ground arith))

  failed-no_pass :
      (n : ℕ) (t : CascadeTier A) (a : CascadeAttempt A R)
      → attempt_tier request n t ≡ ok a
      → a.gate.passed ≡ false
      → ¬ WouldPass t
  unfolding attempt_tier attempt_cost
  failed-no_pass n t a e f (v, g, called, gated, p) = ground arith

  run-cheapest :
      (n c : ℕ) (acc : List (CascadeAttempt A R)) (ts : List (CascadeTier A))
      (res : CascadeProviderResult A R)
      → run_tiers request n acc ts ≡ ok res
      → Ascending c ts
      → (w : CascadeTier A) × Mem w ts
        × (w.provider ≡ res.provider)
        × All (λ t. WouldPass t → w.estimated_cost_usd ≤ t.estimated_cost_usd) ts
  unfolding run_tiers
  run-cheapest n c acc [] res h asc = absurd (cc h)
  run-cheapest n c acc (t ∷ ts) res h asc = elim (Result-cases (attempt_tier request n t)) [
    | inr (x, e) ↦ absurd (ground arith)
    | inl (a, e) ↦ elim (Bool-cases a.gate.passed) [
      | inl p ↦ (
        t,
        mem-cons.1 (Or.inl refl),
        ground arith,
        (
          λ _. omega arith,
          All-imp (λ s le _. le) ts
              (Ascending-All t.estimated_cost_usd t.estimated_cost_usd ts (omega arith) asc.1),
        ),
      )
      | inr f ↦
          let h' : run_tiers request (n + 1) (acc ++ a ∷ []) ts ≡ ok res = ground arith in
          let (w, m, same, least) =
            run-cheapest (n + 1) t.estimated_cost_usd (acc ++ a ∷ []) ts res h' asc.1 in
          (w, mem-cons.1 (Or.inr m), same, (λ wp. absurd (failed-no_pass n t a e f wp), least))
    ]
  ]

  run-length :
      (n : ℕ) (acc : List (CascadeAttempt A R)) (ts : List (CascadeTier A))
      (res : CascadeProviderResult A R)
      → run_tiers request n acc ts ≡ ok res
      → length res.attempts ≤ length acc + length ts
  unfolding run_tiers
  run-length n acc [] res h = absurd (cc h)
  run-length n acc (t ∷ ts) res h = elim (Result-cases (attempt_tier request n t)) [
    | inr (x, e) ↦ absurd (ground arith)
    | inl (a, e) ↦ elim (Bool-cases a.gate.passed) [
      | inl p ↦
          let whole : acc ++ a ∷ [] ≡ res.attempts = ground arith in
          let long = length-append acc (a ∷ []) in rw (sym whole, long) (omega arith)
      | inr f ↦
          let h' : run_tiers request (n + 1) (acc ++ a ∷ []) ts ≡ ok res = ground arith in
          omega (arith, run-length (n + 1) (acc ++ a ∷ []) ts res h', length-append acc (a ∷ []))
    ]
  ]

  order-ok :
      {selected : List (CascadeTier A)}
      → validate_request request ≡ ok selected
      → validate_tier_order {A = A} {R = R} {X = X} none request.tiers ≡ ok tt
  unfolding validate_request
  order-ok h = ground arith

  count-ok :
      (selected : List (CascadeTier A))
      → validate_request request ≡ ok selected
      → (n : ℕ) × (max_attempts_of {A = A} {R = R} {X = X} request.max_attempts
            (length request.tiers)
          ≡ ok n)
        × (selected ≡ take n request.tiers)
  unfolding validate_request
  count-ok selected h =
      elim (Result-cases
        (max_attempts_of {A = A} {R = R} {X = X} request.max_attempts (length request.tiers))) [
          | inr (x, e) ↦ absurd (ground arith)
          | inl (n, e) ↦ (n, e, ground arith)
        ]

  count-bound :
      (given : Option ℕ) (count n : ℕ)
      → max_attempts_of {A = A} {R = R} {X = X} given count ≡ ok n
      → (n ≤ count) × ((m : ℕ) → given ≡ some m → n ≤ m)
  unfolding max_attempts_of
  count-bound none count n h = (ground arith, λ m e. cc e)
  count-bound (some value) count n h = (ground arith, λ m e. ground arith)

  -- Where the cascade returns, the winner is one of the tiers that may be tried, and none of these
  -- would pass the gate at a lower estimate. There are at most as many attempts as tiers, and as
  -- asked for.
  pub winner_is_cheapest :
      (res : CascadeProviderResult A R)
      → route_with_cascade request ≡ ok res
      → (selected : List (CascadeTier A)) × (w : CascadeTier A) × (validate_request request
          ≡ ok selected)
        × Mem w selected
        × (w.provider ≡ res.provider)
        × All (λ t. WouldPass t → w.estimated_cost_usd ≤ t.estimated_cost_usd) selected
        × (length res.attempts ≤ length request.tiers)
        × ((m : ℕ) → request.max_attempts ≡ some m → length res.attempts ≤ m)
  unfolding route_with_cascade
  winner_is_cheapest res h = elim (Result-cases (validate_request request)) [
    | inr (x, e) ↦ let bad : err x ≡ ok res = rw e at h in cc bad
    | inl (selected, e) ↦
        let ran : run_tiers request 1 [] selected ≡ ok res = rw e at h in
        let (n, counted, cut) = count-ok selected e in
        let (w, m, same, least) =
          run-cheapest 1 0 [] selected res ran
            (rw cut (Ascending-take n 0 request.tiers (from_none request.tiers (order-ok e)))) in
        let bound = count-bound request.max_attempts (length request.tiers) n counted in
        let short : length selected ≡ min n (length request.tiers) =
          rw cut (length-take n request.tiers) in
        let made : length res.attempts ≤ n =
          omega (arith, run-length 1 [] selected res ran, short) in
        (
          selected,
          w,
          e,
          m,
          same,
          least,
          omega (arith, made, bound.0),
          λ k given. omega (arith, made, bound.1 k given),
        )
  ]
