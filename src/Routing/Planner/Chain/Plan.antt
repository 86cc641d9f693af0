-- ===== src/Routing/Planner/Chain/Plan.antt =====
-- What `plan_route` of src/pitwall/routing/planner.py promises of its attempts.
use pitwall_gpu_broker.Routing.Planner.Chain.Members.{chain-All}
use pitwall_gpu_broker.Routing.Planner.Chain.Stages.{
  eliminate-of_All, number_from-of_All, stage4-All, Launchable, stage2-IsServing, number_from-All,
  eliminate-All, stage4-none, IsRoutable,
}
use pitwall_gpu_broker.Routing.Planner.Chain.{chain_of, attempts_from, plan_route}
use pitwall_gpu_broker.Routing.Planner.{
  candidate_leb, number_from, apply_stage4, stage2_elimination_reasons, eliminate, rank_candidates,
  CapacityKey, Eliminated, RouteCandidate, Provider,
}
use pitwall_gpu_broker.Prelude.Sort.{sort, All-sort, All-of_sort}
use pitwall_gpu_broker.Prelude.{All-imp, All-take, All-Mem, Mem, Returns}
use pitwall_gpu_broker.Prelude.{
  ℕ, zero, suc, ◌+◌, ◌≤◌, ◌≡◌, refl, ap, ◌↔◌, Bool, false, Option, List, [], ◌∷◌, arith, ltb,
  length, take, All,
}

module _ (constraints : Provider → List Eliminated) (cache : CapacityKey → Option Bool)
    (now : ℕ) where
  -- The candidates of stage 4.
  pub finalists : List Provider → List RouteCandidate
  unfolding rank_candidates
  finalists providers =
      let (passed, _) = eliminate constraints 1 providers in
      let (eligible, _) = eliminate (λ p. stage2_elimination_reasons p now) 2 passed in
      (apply_stage4 cache (rank_candidates eligible)).candidates

  finalists-All :
      (P : Provider → Type 0) (providers : List Provider)
      → All P providers
      → All (λ c. P c.provider × IsRoutable constraints cache now c.provider) (finalists providers)
  unfolding finalists
  finalists-All P providers known =
      let stage2 = λ (p : Provider). stage2_elimination_reasons p now in
      let P1 : Provider → Type 0 = λ p. P p × (constraints p ≡ []) in
      let P2 : Provider → Type 0 = λ p. P1 p × (stage2_elimination_reasons p now ≡ []) in
      let passed = (eliminate constraints 1 providers).0 in
      let eligible = (eliminate stage2 2 passed).0 in
      let constrained : All P1 passed = eliminate-All constraints 1 P providers known in
      let served : All P2 eligible = eliminate-All stage2 2 P1 passed constrained in
      let sorted = All-sort candidate_leb P2 eligible served in
      let ranked = number_from-All P2 1 (sort candidate_leb eligible) sorted in
      All-imp
        (λ c h. (
          h.0.0.0,
          record {
            constrained = h.0.0.1;
            serving = (stage2-IsServing now c.provider).0 h.0.1;
            capacity = h.1;
          },
        ))
        (finalists providers)
        (stage4-All cache P2 (number_from 1 (sort candidate_leb eligible)) ranked)

  finalists-none :
      (providers : List Provider)
      → finalists providers ≡ []
      → All (λ p. ¬ IsRoutable constraints cache now p) providers
  unfolding finalists
  finalists-none providers h =
      let passed = (eliminate constraints 1 providers).0 in
      let eligible = (eliminate (λ p. stage2_elimination_reasons p now) 2 passed).0 in
      let dropped = stage4-none cache (number_from 1 (sort candidate_leb eligible)) h in
      let N : Provider → Type 0 = λ p. ¬ Launchable cache p in
      let unranked =
        All-of_sort candidate_leb N eligible
          (number_from-of_All N 1 (sort candidate_leb eligible) dropped) in
      let unserved = eliminate-of_All (λ p. stage2_elimination_reasons p now) 2 N passed unranked in
      let outside =
        eliminate-of_All constraints 1 (λ p. stage2_elimination_reasons p now ≡ [] → N p) providers
          unserved in
      All-imp (λ p f r. f r.constrained ((stage2-IsServing now p).1 r.serving) r.capacity) providers
        outside

pub attempts_from-All :
    (P : Provider → Type 0) (n base : ℕ) (cs : List RouteCandidate)
    → All (λ c. P c.provider) cs
    → All (λ a. P a.provider) (attempts_from n base cs)
attempts_from-All P n base [] h = tt
attempts_from-All P n base (c ∷ cs) h = (h.0, attempts_from-All P (n + 1) base cs h.1)

length-attempts :
    (n base m : ℕ) (cs : List RouteCandidate) → length (attempts_from n base (take m cs)) ≤ m
length-attempts n base zero cs = omega arith
length-attempts n base (suc m) [] = omega arith
length-attempts n base (suc m) (c ∷ cs) = omega (arith, length-attempts (n + 1) base m cs)

-- Where at least one attempt is asked for, every attempt of a plan is at a provider that was
-- given, that no hard constraint rules out, that is enabled, not unhealthy and not cooling down,
-- and that, where it is a pod lease, has a key with known capacity. There are at most as many
-- attempts as asked for.
pub plan_sound :
    (constraints : Provider → List Eliminated) (cache : CapacityKey → Option Bool)
    (now max_attempts base : ℕ) (providers : List Provider)
    → 1 ≤ max_attempts
    → Returns (plan_route constraints cache now max_attempts base providers) (λ plan.
      All
        (λ a. Mem a.provider providers × IsRoutable constraints cache now a.provider)
        plan.attempts
      × (length plan.attempts ≤ max_attempts))
unfolding plan_route finalists
plan_sound constraints cache now max_attempts base providers h =
    let found = finalists constraints cache now providers in
    let R : Provider → Type 0 = λ p. Mem p providers × IsRoutable constraints cache now p in
    let chain =
      chain-All (λ c. R c.provider) found
        (finalists-All constraints cache now (λ p. Mem p providers) providers
          (All-Mem providers)) in
    let test : ltb max_attempts 1 ≡ false = ground arith in
    rw test (
      attempts_from-All R 1 base (take max_attempts (chain_of found))
          (All-take (λ c. R c.provider) max_attempts (chain_of found) chain),
      length-attempts 1 base max_attempts (chain_of found),
    )

attempts-none :
    (n base m : ℕ) (cs : List RouteCandidate)
    → attempts_from n base (take (suc m) cs) ≡ []
    → cs ≡ []
attempts-none n base m [] h = refl
attempts-none n base m (c ∷ cs) h = cc

chain-none : (cs : List RouteCandidate) → chain_of cs ≡ [] → cs ≡ []
unfolding chain_of
chain-none [] h = refl
chain-none (c ∷ cs) h = cc

none-routable :
    (constraints : Provider → List Eliminated) (cache : CapacityKey → Option Bool) (now : ℕ)
    (cs : List RouteCandidate)
    → All
        (λ c.
          (¬ IsRoutable constraints cache now c.provider)
          × IsRoutable constraints cache now c.provider)
        cs
    → cs ≡ []
none-routable constraints cache now [] h = refl
none-routable constraints cache now (c ∷ cs) h = absurd (h.0.0 h.0.1)

-- Where at least one attempt is asked for, a plan is without attempts exactly where none of the
-- given providers may be routed to.
pub plan_complete :
    (constraints : Provider → List Eliminated) (cache : CapacityKey → Option Bool)
    (now max_attempts base : ℕ) (providers : List Provider)
    → 1 ≤ max_attempts
    → Returns
        (plan_route constraints cache now max_attempts base providers)
        (λ plan. (plan.attempts ≡ []) ↔ All (λ p. ¬ IsRoutable constraints cache now p) providers)
unfolding plan_route finalists
plan_complete constraints cache now zero base providers h = absurd (omega arith)
plan_complete constraints cache now (suc m) base providers h =
    let found = finalists constraints cache now providers in
    let N : Provider → Type 0 = λ p. ¬ IsRoutable constraints cache now p in
    let test : ltb (suc m) 1 ≡ false = ground arith in
    rw test (
      (λ e.
          finalists-none constraints cache now providers
            (chain-none found (attempts-none 1 base m (chain_of found) e))),
      (λ none_may.
          let empty =
            none-routable constraints cache now found
              (finalists-All constraints cache now N providers none_may) in
          ap (λ (cs : List RouteCandidate). attempts_from 1 base (take (suc m) (chain_of cs)))
            empty),
    )
