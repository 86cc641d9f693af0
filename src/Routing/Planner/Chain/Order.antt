-- ===== src/Routing/Planner/Chain/Order.antt =====
-- That a plan of src/pitwall/routing/planner.py does not depend on the order in which the providers
-- are given.
use mathlib.Core.List.{Permᴰ}
use mathlib.Core.List.Permᴰ
use pitwall_gpu_broker.Routing.Planner.Chain.Stages.{eliminated-cons, passed-cons}
use pitwall_gpu_broker.Routing.Planner.Chain.Distinct.{provider_id, eliminate-Distinct}
use pitwall_gpu_broker.Routing.Planner.{
  candidate_leb, stage2_elimination_reasons, apply_stage4, rank_candidates, eliminate, number_from,
  Eliminated, CapacityKey, Provider, RouteCandidate,
}
use pitwall_gpu_broker.Routing.Planner.Chain.{plan_route, route_attempts}
use pitwall_gpu_broker.Prelude.Sort.{IsTotalOrder}
use pitwall_gpu_broker.Prelude.Lex.{
  lex-IsTotalOrder, by_number-IsTotalOrder, by_number_down-IsTotalOrder, by_text-IsTotalOrder,
}
use pitwall_gpu_broker.Prelude.Permute.{IsApart, AllApart, sort-of_perm, text_leb_antisymm}
use pitwall_gpu_broker.Prelude.{All-imp, Returns, Distinct}
use pitwall_gpu_broker.Prelude.{
  ℕ, ◌≤◌, ◌≡◌, refl, ap, subst, ◌≢◌, inl, inr, Bool, false, ◌&&◌, Option, List, [], ◌∷◌, arith, ltb,
  Bool-cases, List-cases,
}

candidate_leb-IsTotalOrder : IsTotalOrder candidate_leb
unfolding candidate_leb
candidate_leb-IsTotalOrder = lex-IsTotalOrder (by_number_down-IsTotalOrder (λ p. p.score)) (
    lex-IsTotalOrder (by_number-IsTotalOrder (λ p. p.priority))
      (lex-IsTotalOrder (by_text-IsTotalOrder (λ p. p.name)) (by_text-IsTotalOrder (λ p. p.id))))

ids-IsApart : (p q : Provider) → provider_id q ≢ provider_id p → IsApart candidate_leb p q
unfolding candidate_leb
ids-IsApart p q h = elim (Bool-cases (candidate_leb p q && candidate_leb q p)) [
  | inr e ↦ e
  | inl e ↦ absurd (h (text_leb_antisymm q.id p.id (ground arith) (ground arith)))
]

Distinct-AllApart : (ps : List Provider) → Distinct provider_id ps → AllApart candidate_leb ps
Distinct-AllApart [] d = tt
Distinct-AllApart (p ∷ ps) d = (All-imp (λ q h. ids-IsApart p q h) ps d.0, Distinct-AllApart ps d.1)

module _ (reasons : Provider → List Eliminated) (stage : ℕ) where
  abbrev passed : List Provider → List Provider
  passed ps = (eliminate reasons stage ps).0

  passed-swap :
      (a b : Provider) (l : List Provider) → Permᴰ (passed (a ∷ b ∷ l)) (passed (b ∷ a ∷ l))
  passed-swap a b l = elim (List-cases (reasons a)) [
    | inl ka ↦ elim (List-cases (reasons b)) [
      | inl kb ↦
          rw
            (
              passed-cons reasons stage a (b ∷ l) ka,
              passed-cons reasons stage b l kb,
              passed-cons reasons stage b (a ∷ l) kb,
              passed-cons reasons stage a l ka,
            )
            (Permᴰ.swap refl refl)
      | inr (r, rs, db) ↦
          rw
            (
              passed-cons reasons stage a (b ∷ l) ka,
              eliminated-cons reasons stage b l r rs db,
              eliminated-cons reasons stage b (a ∷ l) r rs db,
              passed-cons reasons stage a l ka,
            )
            (Permᴰ.refl (a ∷ passed l))
    ]
    | inr (r, rs, da) ↦ elim (List-cases (reasons b)) [
      | inl kb ↦
          rw
            (
              eliminated-cons reasons stage a (b ∷ l) r rs da,
              passed-cons reasons stage b l kb,
              passed-cons reasons stage b (a ∷ l) kb,
              eliminated-cons reasons stage a l r rs da,
            )
            (Permᴰ.refl (b ∷ passed l))
      | inr (r', rs', db) ↦
          rw
            (
              eliminated-cons reasons stage a (b ∷ l) r rs da,
              eliminated-cons reasons stage b l r' rs' db,
              eliminated-cons reasons stage b (a ∷ l) r' rs' db,
              eliminated-cons reasons stage a l r rs da,
            )
            (Permᴰ.refl (passed l))
    ]
  ]

  passed-cons_perm :
      (a : Provider) (xs ys : List Provider)
      → Permᴰ (passed xs) (passed ys)
      → Permᴰ (passed (a ∷ xs)) (passed (a ∷ ys))
  passed-cons_perm a xs ys p = elim (List-cases (reasons a)) [
    | inl k ↦
        rw (passed-cons reasons stage a xs k, passed-cons reasons stage a ys k) (Permᴰ.cons refl p)
    | inr (r, rs, d) ↦
        rw (eliminated-cons reasons stage a xs r rs d, eliminated-cons reasons stage a ys r rs d) p
  ]

  passed-perm : {xs ys : List Provider} → Permᴰ xs ys → Permᴰ (passed xs) (passed ys)
  passed-perm Permᴰ.nil = Permᴰ.refl (passed [])
  passed-perm (Permᴰ.cons {a = a} {b = b} {l₁ = xs} {l₂ = ys} e p) =
      subst (λ z. Permᴰ (passed (a ∷ xs)) (passed (z ∷ ys))) e
        (passed-cons_perm a xs ys (passed-perm p))
  passed-perm (Permᴰ.swap {a = a} {b = b} {a' = a'} {b' = b'} {l = l} e e') =
      subst (λ z. Permᴰ (passed (a ∷ b ∷ l)) (passed (a' ∷ z ∷ l))) e
        (subst (λ z. Permᴰ (passed (a ∷ b ∷ l)) (passed (z ∷ a ∷ l))) e' (passed-swap a b l))
  passed-perm (Permᴰ.trans p q) = Permᴰ.trans (passed-perm p) (passed-perm q)

-- Where at least one attempt is asked for and the ids of the providers differ, a plan for the same
-- providers in another order has the same attempts, ranking and capacity decisions.
pub plan_order_free :
    (constraints : Provider → List Eliminated) (cache : CapacityKey → Option Bool)
    (now max_attempts base : ℕ) (ps qs : List Provider)
    → Permᴰ ps qs
    → Distinct provider_id ps
    → 1 ≤ max_attempts
    → Returns (plan_route constraints cache now max_attempts base ps) (λ plan.
      Returns (plan_route constraints cache now max_attempts base qs) (λ plan'.
        (plan.attempts ≡ plan'.attempts)
        × (plan.ranked_candidates ≡ plan'.ranked_candidates)
        × (plan.capacity_decisions ≡ plan'.capacity_decisions)))
unfolding plan_route rank_candidates
plan_order_free constraints cache now max_attempts base ps qs perm d h =
    let stage2 = λ (p : Provider). stage2_elimination_reasons p now in
    let passed1 = (eliminate constraints 1 ps).0 in
    let perm2 = passed-perm stage2 2 (passed-perm constraints 1 perm) in
    let d2 = eliminate-Distinct stage2 2 passed1 (eliminate-Distinct constraints 1 ps d) in
    let same =
      sort-of_perm candidate_leb-IsTotalOrder perm2
        (Distinct-AllApart (eliminate stage2 2 passed1).0 d2) in
    let ranked = ap (number_from 1) same in
    let test : ltb max_attempts 1 ≡ false = ground arith in
    rw test (
      ap
          (λ (cs : List RouteCandidate).
            route_attempts (apply_stage4 cache cs).candidates max_attempts base)
          ranked,
      ranked,
      ap (λ (cs : List RouteCandidate). (apply_stage4 cache cs).decisions) ranked,
    )
