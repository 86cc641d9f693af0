-- ===== src/Routing/Planner/Chain/Stages.antt =====
-- What the filtering stages of src/pitwall/routing/planner.py pass.
use pitwall_gpu_broker.Routing.Cooldown.{is_in_cooldown}
use pitwall_gpu_broker.Routing.Planner.{
  number_from, eliminate, RouteCandidate, apply_stage4, decide_keys, capacity_decision_for,
  check_keys, is_true, state_from_provider, Eliminated, CapacityKey, stage2_elimination_reasons,
  Provider,
}
use pitwall_gpu_broker.Prelude.{
  ℕ, ◌+◌, String, ◌≡◌, sym, ◌∙◌, ◌≢◌, ◌↔◌, ◌⊎◌, inl, inr, Bool, true, false, Option, some, List, [],
  ◌∷◌, arith, eq_iff, Bool-cases, List-cases, All,
}

-- A provider that passes stage 2.
pub record IsServing (now : ℕ) (p : Provider) : Type 0 where
  pub not_disabled : p.enabled ≢ some false
  pub not_unhealthy : p.health_status ≢ "unhealthy"
  pub not_cooling : is_in_cooldown (state_from_provider p) now ≡ false

-- Some key of the provider is known to have capacity.
abbrev pub HasCapacity : (CapacityKey → Option Bool) → List CapacityKey → Type 0
HasCapacity cache [] = ⊥
HasCapacity cache (k ∷ ks) = (cache k ≡ some true) ⊎ HasCapacity cache ks

-- A provider to which the plan may route.
pub record IsRoutable (constraints : Provider → List Eliminated) (cache : CapacityKey → Option Bool)
    (now : ℕ) (p : Provider) : Type 0 where
  pub constrained : constraints p ≡ []
  pub serving : IsServing now p
  pub capacity : p.is_pod_lease ≡ true → HasCapacity cache p.capacity_keys

pub stage2-IsServing :
    (now : ℕ) (p : Provider) → (stage2_elimination_reasons p now ≡ []) ↔ IsServing now p
unfolding stage2_elimination_reasons
stage2-IsServing now p = (
  λ h. ground (arith, eq_iff p.health_status "unhealthy"),
  λ h. ground (arith, eq_iff p.health_status "unhealthy"),
)

check_keys-HasCapacity :
    (cache : CapacityKey → Option Bool) (i : String) (ks : List CapacityKey) (u : Bool)
    → ((check_keys cache i ks u).available ≡ some true) ↔ HasCapacity cache ks
unfolding check_keys
check_keys-HasCapacity cache i [] true = (λ h. cc, λ h. elim h [ ])
check_keys-HasCapacity cache i [] false = (λ h. cc, λ h. elim h [ ])
check_keys-HasCapacity cache i (k ∷ ks) u =
    ground (arith, check_keys-HasCapacity cache i ks u, check_keys-HasCapacity cache i ks true)

decide_keys-HasCapacity :
    (cache : CapacityKey → Option Bool) (i : String) (ks : List CapacityKey)
    → ((decide_keys cache i ks).available ≡ some true) ↔ HasCapacity cache ks
unfolding decide_keys
decide_keys-HasCapacity cache i [] = (λ h. cc, λ h. elim h [ ])
decide_keys-HasCapacity cache i (k ∷ ks) = check_keys-HasCapacity cache i (k ∷ ks) false

decision-HasCapacity :
    (cache : CapacityKey → Option Bool) (p : Provider)
    → (is_true (capacity_decision_for cache p).available ≡ true) ↔ HasCapacity cache p.capacity_keys
unfolding capacity_decision_for
decision-HasCapacity cache p =
    let (there, back) = decide_keys-HasCapacity cache p.id p.capacity_keys in
    (λ h. there (ground arith), λ h. rw (back h))

-- A candidate that passes stage 4.
abbrev pub Launchable : (CapacityKey → Option Bool) → Provider → Type 0
Launchable cache p = p.is_pod_lease ≡ true → HasCapacity cache p.capacity_keys

-- What the filtering stages pass, and what they do not.
module _ (reasons : Provider → List Eliminated) (stage : ℕ) where
  pub passed-cons :
      (p : Provider) (ps : List Provider)
      → reasons p ≡ []
      → (eliminate reasons stage (p ∷ ps)).0 ≡ p ∷ (eliminate reasons stage ps).0
  unfolding eliminate
  passed-cons p ps e = ground arith

  pub eliminated-cons :
      (p : Provider) (ps : List Provider) (r : Eliminated) (rs : List Eliminated)
      → reasons p ≡ r ∷ rs
      → (eliminate reasons stage (p ∷ ps)).0 ≡ (eliminate reasons stage ps).0
  unfolding eliminate
  eliminated-cons p ps r rs e = ground arith

  pub eliminate-All :
      (P : Provider → Type 0) (ps : List Provider)
      → All P ps
      → All (λ p. P p × (reasons p ≡ [])) (eliminate reasons stage ps).0
  eliminate-All P [] h = unfold eliminate in tt
  eliminate-All P (p ∷ ps) h = elim (List-cases (reasons p)) [
    | inl e ↦ rw (passed-cons p ps e) ((h.0, e), eliminate-All P ps h.1)
    | inr (r, rs, e) ↦ rw (eliminated-cons p ps r rs e) (eliminate-All P ps h.1)
  ]

  pub eliminate-of_All :
      (P : Provider → Type 0) (ps : List Provider)
      → All P (eliminate reasons stage ps).0
      → All (λ p. reasons p ≡ [] → P p) ps
  eliminate-of_All P [] h = tt
  eliminate-of_All P (p ∷ ps) h = elim (List-cases (reasons p)) [
    | inl e ↦
        let h' : P p × All P (eliminate reasons stage ps).0 = rw (passed-cons p ps e) at h in
        ((λ _. h'.0), eliminate-of_All P ps h'.1)
    | inr (r, rs, e) ↦
        let h' : All P (eliminate reasons stage ps).0 = rw (eliminated-cons p ps r rs e) at h in
        ((λ e'. cc), eliminate-of_All P ps h')
  ]

module _ (cache : CapacityKey → Option Bool) where
  pub kept-cons :
      (c : RouteCandidate) (cs : List RouteCandidate)
      → Launchable cache c.provider
      → (apply_stage4 cache (c ∷ cs)).candidates ≡ c ∷ (apply_stage4 cache cs).candidates
  unfolding apply_stage4
  kept-cons c cs h = ground (arith, decision-HasCapacity cache c.provider)

  pub dropped-cons :
      (c : RouteCandidate) (cs : List RouteCandidate)
      → ¬ Launchable cache c.provider
      → (apply_stage4 cache (c ∷ cs)).candidates ≡ (apply_stage4 cache cs).candidates
  unfolding apply_stage4
  dropped-cons c cs h = ground (arith, decision-HasCapacity cache c.provider)

  pub Launchable-or : (p : Provider) → Launchable cache p ⊎ ¬ Launchable cache p
  Launchable-or p = elim (Bool-cases (is_true (capacity_decision_for cache p).available)) [
    | inl e ↦ inl (λ _. (decision-HasCapacity cache p).0 e)
    | inr e ↦ elim (Bool-cases p.is_pod_lease) [
      | inl pod ↦ inr (λ h. cc (e, (decision-HasCapacity cache p).1 (h pod)))
      | inr other ↦ inl (λ pod. cc)
    ]
  ]

  pub stage4-All :
      (P : Provider → Type 0) (cs : List RouteCandidate)
      → All (λ c. P c.provider) cs
      → All (λ c. P c.provider × Launchable cache c.provider) (apply_stage4 cache cs).candidates
  stage4-All P [] h = unfold apply_stage4 in tt
  stage4-All P (c ∷ cs) h = elim (Launchable-or c.provider) [
    | inl l ↦ rw (kept-cons c cs l) ((h.0, l), stage4-All P cs h.1)
    | inr n ↦ rw (dropped-cons c cs n) (stage4-All P cs h.1)
  ]

  pub stage4-none :
      (cs : List RouteCandidate)
      → (apply_stage4 cache cs).candidates ≡ []
      → All (λ c. ¬ Launchable cache c.provider) cs
  stage4-none [] h = tt
  stage4-none (c ∷ cs) h = elim (Launchable-or c.provider) [
    | inl l ↦ absurd (cc (kept-cons c cs l))
    | inr n ↦ (n, stage4-none cs (sym (dropped-cons c cs n) ∙ h))
  ]

pub number_from-All :
    (P : Provider → Type 0) (n : ℕ) (ps : List Provider)
    → All P ps
    → All (λ c. P c.provider) (number_from n ps)
number_from-All P n [] h = tt
number_from-All P n (p ∷ ps) h = (h.0, number_from-All P (n + 1) ps h.1)

pub number_from-of_All :
    (P : Provider → Type 0) (n : ℕ) (ps : List Provider)
    → All (λ c. P c.provider) (number_from n ps)
    → All P ps
number_from-of_All P n [] h = tt
number_from-of_All P n (p ∷ ps) h = (h.0, number_from-of_All P (n + 1) ps h.1)
