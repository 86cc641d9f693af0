-- ===== src/Routing/Planner/Chain/Distinct.antt =====
-- No plan of src/pitwall/routing/planner.py tries a provider twice.
use pitwall_gpu_broker.Routing.Planner.Chain.Stages.{
  dropped-cons, stage4-All, eliminated-cons, eliminate-All, kept-cons, passed-cons, Launchable-or,
  number_from-All,
}
use pitwall_gpu_broker.Routing.Planner.Chain.Plan.{attempts_from-All}
use pitwall_gpu_broker.Routing.Planner.Chain.Members.{
  related_to-All, explicit-new, explicit-seen, explicit-missing,
}
use pitwall_gpu_broker.Routing.Planner.{
  candidate_leb, stage2_elimination_reasons, apply_stage4, rank_candidates, eliminate, number_from,
  Eliminated, CapacityKey, fallback_leb, RouteAttempt, Provider, RouteCandidate,
}
use pitwall_gpu_broker.Routing.Planner.Chain.{
  attempts_from, plan_route, select_primary_candidate, by_provider, fallback_candidates, chain_of,
  fallbacks_by_chain, related_to, by_id, explicit_fallbacks,
}
use pitwall_gpu_broker.Prelude.Sort.{sort, All-sort, sort-Distinct}
use pitwall_gpu_broker.Prelude.{contains, All-imp, Returns, Distinct, Distinct-take}
use pitwall_gpu_broker.Prelude.{
  ℕ, ◌+◌, ◌≤◌, String, ◌≡◌, ◌≢◌, inl, inr, Bool, false, not, ◌&&◌, Option, List, [], ◌∷◌, arith,
  eq_iff, ltb, str_eq, Bool-cases, Option-cases, List-cases, take, All,
}

abbrev pub candidate_id : RouteCandidate → String
candidate_id c = c.provider.id

abbrev pub attempt_id : RouteAttempt → String
attempt_id a = a.provider.id

abbrev pub provider_id : Provider → String
provider_id p = p.id

-- The ids of an explicit chain are new to it.
contains-cons :
    (i j : String) (seen : List String)
    → contains i (j ∷ seen) ≡ false
    → (i ≢ j) × (contains i seen ≡ false)
unfolding contains
contains-cons i j seen h = ground (arith, eq_iff i j)

explicit-unseen :
    (ranked : List RouteCandidate) (seen is : List String)
    → All (λ c. contains (candidate_id c) seen ≡ false) (explicit_fallbacks ranked seen is)
unfolding explicit_fallbacks
explicit-unseen ranked seen [] = tt
explicit-unseen ranked seen (i ∷ is) = elim (Option-cases (by_id i ranked)) [
  | inl missing ↦ rw (explicit-missing ranked seen i is missing) (explicit-unseen ranked seen is)
  | inr (c, found) ↦ elim (Bool-cases (contains c.provider.id seen)) [
    | inl old ↦ rw (explicit-seen ranked seen i is c found old) (explicit-unseen ranked seen is)
    | inr new ↦ rw (explicit-new ranked seen i is c found new) (
      new,
      All-imp (λ d h. (contains-cons d.provider.id c.provider.id seen h).1)
          (explicit_fallbacks ranked (c.provider.id ∷ seen) is)
          (explicit-unseen ranked (c.provider.id ∷ seen) is),
    )
  ]
]

explicit-Distinct :
    (ranked : List RouteCandidate) (seen is : List String)
    → Distinct candidate_id (explicit_fallbacks ranked seen is)
unfolding explicit_fallbacks
explicit-Distinct ranked seen [] = tt
explicit-Distinct ranked seen (i ∷ is) = elim (Option-cases (by_id i ranked)) [
  | inl missing ↦ rw (explicit-missing ranked seen i is missing) (explicit-Distinct ranked seen is)
  | inr (c, found) ↦ elim (Bool-cases (contains c.provider.id seen)) [
    | inl old ↦ rw (explicit-seen ranked seen i is c found old) (explicit-Distinct ranked seen is)
    | inr new ↦ rw (explicit-new ranked seen i is c found new) (
      All-imp (λ d h. (contains-cons d.provider.id c.provider.id seen h).0)
          (explicit_fallbacks ranked (c.provider.id ∷ seen) is)
          (explicit-unseen ranked (c.provider.id ∷ seen) is),
      explicit-Distinct ranked (c.provider.id ∷ seen) is,
    )
  ]
]

-- The related candidates are not the selected one, and differ where all candidates do.
related-others :
    (selected : RouteCandidate) (cs : List RouteCandidate)
    → All (λ c. candidate_id c ≢ candidate_id selected) (related_to selected cs)
unfolding related_to
related-others selected [] = tt
related-others selected (c ∷ cs) =
    elim (Bool-cases (
      contains selected.provider.id c.provider.fallback_for
      && not (str_eq c.provider.id selected.provider.id))) [
        | inl y ↦ rw y (
          (λ same. ground (arith, (eq_iff c.provider.id selected.provider.id).1 same)),
          related-others selected cs,
        )
        | inr n ↦ rw n (related-others selected cs)
      ]

related-Distinct :
    (selected : RouteCandidate) (cs : List RouteCandidate)
    → Distinct candidate_id cs
    → Distinct candidate_id (related_to selected cs)
unfolding related_to
related-Distinct selected [] d = tt
related-Distinct selected (c ∷ cs) d =
    elim (Bool-cases (
      contains selected.provider.id c.provider.fallback_for
      && not (str_eq c.provider.id selected.provider.id))) [
        | inl y ↦ rw y (
          related_to-All (λ e. candidate_id e ≢ candidate_id c) selected cs d.0,
          related-Distinct selected cs d.1,
        )
        | inr n ↦ rw n (related-Distinct selected cs d.1)
      ]

fallbacks-Distinct :
    (selected : RouteCandidate) (ranked : List RouteCandidate) (chain : List String)
    → Distinct candidate_id ranked
    → Distinct candidate_id (selected ∷ fallbacks_by_chain selected ranked chain)
unfolding fallbacks_by_chain
fallbacks-Distinct selected ranked [] d = (
  All-sort (by_provider fallback_leb) (λ c. candidate_id c ≢ candidate_id selected)
      (related_to selected ranked) (related-others selected ranked),
  sort-Distinct (by_provider fallback_leb) candidate_id (related_to selected ranked)
      (related-Distinct selected ranked d),
)
fallbacks-Distinct selected ranked (i ∷ is) d = (
  All-imp (λ c h. (contains-cons c.provider.id selected.provider.id [] h).0)
      (explicit_fallbacks ranked (selected.provider.id ∷ []) (i ∷ is))
      (explicit-unseen ranked (selected.provider.id ∷ []) (i ∷ is)),
  explicit-Distinct ranked (selected.provider.id ∷ []) (i ∷ is),
)

chain-Distinct :
    (ranked : List RouteCandidate)
    → Distinct candidate_id ranked
    → Distinct candidate_id (chain_of ranked)
unfolding chain_of fallback_candidates
chain-Distinct [] d = tt
chain-Distinct (first ∷ rest) d =
    let selected = select_primary_candidate first (first ∷ rest) in
    fallbacks-Distinct selected (first ∷ rest) selected.provider.explicit_fallback_chain d

pub eliminate-Distinct :
    (reasons : Provider → List Eliminated) (stage : ℕ) (ps : List Provider)
    → Distinct provider_id ps
    → Distinct provider_id (eliminate reasons stage ps).0
eliminate-Distinct reasons stage [] d = unfold eliminate in tt
eliminate-Distinct reasons stage (p ∷ ps) d = elim (List-cases (reasons p)) [
  | inl e ↦ rw (passed-cons reasons stage p ps e) (
    All-imp (λ q h. h.0) (eliminate reasons stage ps).0
        (eliminate-All reasons stage (λ q. provider_id q ≢ provider_id p) ps d.0),
    eliminate-Distinct reasons stage ps d.1,
  )
  | inr (r, rs, e) ↦
      rw (eliminated-cons reasons stage p ps r rs e) (eliminate-Distinct reasons stage ps d.1)
]

stage4-Distinct :
    (cache : CapacityKey → Option Bool) (cs : List RouteCandidate)
    → Distinct candidate_id cs
    → Distinct candidate_id (apply_stage4 cache cs).candidates
stage4-Distinct cache [] d = unfold apply_stage4 in tt
stage4-Distinct cache (c ∷ cs) d = elim (Launchable-or cache c.provider) [
  | inl l ↦ rw (kept-cons cache c cs l) (
    All-imp (λ e h. h.0) (apply_stage4 cache cs).candidates
        (stage4-All cache (λ q. provider_id q ≢ candidate_id c) cs d.0),
    stage4-Distinct cache cs d.1,
  )
  | inr n ↦ rw (dropped-cons cache c cs n) (stage4-Distinct cache cs d.1)
]

number_from-Distinct :
    (n : ℕ) (ps : List Provider)
    → Distinct provider_id ps
    → Distinct candidate_id (number_from n ps)
number_from-Distinct n [] d = tt
number_from-Distinct n (p ∷ ps) d = (
  number_from-All (λ q. provider_id q ≢ provider_id p) (n + 1) ps d.0,
  number_from-Distinct (n + 1) ps d.1,
)

attempts_from-Distinct :
    (n base : ℕ) (cs : List RouteCandidate)
    → Distinct candidate_id cs
    → Distinct attempt_id (attempts_from n base cs)
attempts_from-Distinct n base [] d = tt
attempts_from-Distinct n base (c ∷ cs) d = (
  attempts_from-All (λ q. provider_id q ≢ candidate_id c) (n + 1) base cs d.0,
  attempts_from-Distinct (n + 1) base cs d.1,
)

-- Where at least one attempt is asked for and the ids of the given providers differ, no provider
-- is tried twice, whatever the fallback chains name, repetitions and cycles included.
pub plan-Distinct :
    (constraints : Provider → List Eliminated) (cache : CapacityKey → Option Bool)
    (now max_attempts base : ℕ) (providers : List Provider)
    → 1 ≤ max_attempts
    → Distinct provider_id providers
    → Returns
        (plan_route constraints cache now max_attempts base providers)
        (λ plan. Distinct attempt_id plan.attempts)
unfolding plan_route rank_candidates
plan-Distinct constraints cache now max_attempts base providers h d =
    let stage2 = λ (p : Provider). stage2_elimination_reasons p now in
    let passed = (eliminate constraints 1 providers).0 in
    let eligible = (eliminate stage2 2 passed).0 in
    let ranked = number_from 1 (sort candidate_leb eligible) in
    let found = (apply_stage4 cache ranked).candidates in
    let d2 = eliminate-Distinct stage2 2 passed (eliminate-Distinct constraints 1 providers d) in
    let d3 =
      number_from-Distinct 1 (sort candidate_leb eligible)
        (sort-Distinct candidate_leb provider_id eligible d2) in
    let d4 = chain-Distinct found (stage4-Distinct cache ranked d3) in
    let test : ltb max_attempts 1 ≡ false = ground arith in
    rw test (
      attempts_from-Distinct 1 base (take max_attempts (chain_of found))
        (Distinct-take candidate_id max_attempts (chain_of found) d4))
