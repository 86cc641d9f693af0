-- ===== src/Routing/Planner/Chain/Members.antt =====
-- The candidates that the chain of attempts of src/pitwall/routing/planner.py is made of.
use pitwall_gpu_broker.Routing.Planner.Chain.{
  fallback_candidates, is_primary, by_provider, by_id, chain_of, first_primary, related_to,
  select_primary_candidate, explicit_fallbacks, fallbacks_by_chain,
}
use pitwall_gpu_broker.Routing.Planner.{fallback_leb, RouteCandidate}
use pitwall_gpu_broker.Prelude.Sort.{All-sort}
use pitwall_gpu_broker.Prelude.{
  contains, String, ◌≡◌, subst, inl, inr, true, false, not, ◌&&◌, none, some, List, [], ◌∷◌, arith,
  str_eq, Bool-cases, Option-cases, All,
}

-- One step of the loop over an explicit chain.
module _ (ranked : List RouteCandidate) (seen : List String) (i : String) (is : List String) where
  pub explicit-missing :
      by_id i ranked ≡ none
      → explicit_fallbacks ranked seen (i ∷ is) ≡ explicit_fallbacks ranked seen is
  unfolding explicit_fallbacks
  explicit-missing e = ground arith

  pub explicit-seen :
      (c : RouteCandidate)
      → by_id i ranked ≡ some c
      → contains c.provider.id seen ≡ true
      → explicit_fallbacks ranked seen (i ∷ is) ≡ explicit_fallbacks ranked seen is
  unfolding explicit_fallbacks
  explicit-seen c e old = ground arith

  pub explicit-new :
      (c : RouteCandidate)
      → by_id i ranked ≡ some c
      → contains c.provider.id seen ≡ false
      → explicit_fallbacks ranked seen (i ∷ is)
        ≡ c ∷ explicit_fallbacks ranked (c.provider.id ∷ seen) is
  unfolding explicit_fallbacks
  explicit-new c e new = ground arith

-- Whatever holds of all candidates holds of those that the chain takes.
module _ (Q : RouteCandidate → Type 0) where
  first_primary-All :
      (ranked cs : List RouteCandidate)
      → All Q cs
      → (c : RouteCandidate) → first_primary ranked cs ≡ some c
      → Q c
  unfolding first_primary
  first_primary-All ranked [] h c e = cc
  first_primary-All ranked (d ∷ cs) h c e = elim (Bool-cases (is_primary ranked d)) [
    | inl y ↦ let same : d ≡ c = ground arith in subst Q same h.0
    | inr n ↦ first_primary-All ranked cs h.1 c (ground arith)
  ]

  by_id-All :
      (i : String) (cs : List RouteCandidate)
      → All Q cs
      → (c : RouteCandidate) → by_id i cs ≡ some c
      → Q c
  unfolding by_id
  by_id-All i [] h c e = cc
  by_id-All i (d ∷ cs) h c e = elim (Option-cases (by_id i cs)) [
    | inr (x, found) ↦ by_id-All i cs h.1 c (ground arith)
    | inl missing ↦ let same : d ≡ c = ground arith in subst Q same h.0
  ]

  explicit_fallbacks-All :
      (ranked : List RouteCandidate) (seen is : List String)
      → All Q ranked
      → All Q (explicit_fallbacks ranked seen is)
  unfolding explicit_fallbacks
  explicit_fallbacks-All ranked seen [] h = tt
  explicit_fallbacks-All ranked seen (i ∷ is) h = elim (Option-cases (by_id i ranked)) [
    | inl missing ↦
        rw (explicit-missing ranked seen i is missing) (explicit_fallbacks-All ranked seen is h)
    | inr (c, found) ↦ elim (Bool-cases (contains c.provider.id seen)) [
      | inl old ↦
          rw (explicit-seen ranked seen i is c found old) (explicit_fallbacks-All ranked seen is h)
      | inr new ↦
          rw (explicit-new ranked seen i is c found new) (
            by_id-All i ranked h c found,
            explicit_fallbacks-All ranked (c.provider.id ∷ seen) is h,
          )
    ]
  ]

  pub related_to-All :
      (selected : RouteCandidate) (cs : List RouteCandidate)
      → All Q cs
      → All Q (related_to selected cs)
  unfolding related_to
  related_to-All selected [] h = tt
  related_to-All selected (c ∷ cs) h =
      elim (Bool-cases (
        contains selected.provider.id c.provider.fallback_for
        && not (str_eq c.provider.id selected.provider.id))) [
          | inl y ↦ rw y (h.0, related_to-All selected cs h.1)
          | inr n ↦ rw n (related_to-All selected cs h.1)
        ]

  select-All :
      (first : RouteCandidate) (ranked : List RouteCandidate)
      → Q first
      → All Q ranked
      → Q (select_primary_candidate first ranked)
  unfolding select_primary_candidate
  select-All first ranked h hs = elim (Option-cases (first_primary ranked ranked)) [
    | inl e ↦ rw e h
    | inr (c, e) ↦ rw e (first_primary-All ranked ranked hs c e)
  ]

  fallbacks-All :
      (selected : RouteCandidate) (ranked : List RouteCandidate) (chain : List String)
      → All Q ranked
      → All Q (fallbacks_by_chain selected ranked chain)
  unfolding fallbacks_by_chain
  fallbacks-All selected ranked [] h =
      All-sort (by_provider fallback_leb) Q (related_to selected ranked)
        (related_to-All selected ranked h)
  fallbacks-All selected ranked (i ∷ is) h =
      explicit_fallbacks-All ranked (selected.provider.id ∷ []) (i ∷ is) h

  pub chain-All : (ranked : List RouteCandidate) → All Q ranked → All Q (chain_of ranked)
  unfolding chain_of fallback_candidates
  chain-All [] h = tt
  chain-All (first ∷ rest) h =
      let selected = select_primary_candidate first (first ∷ rest) in
      (
        select-All first (first ∷ rest) h.0 h,
        fallbacks-All selected (first ∷ rest) selected.provider.explicit_fallback_chain h,
      )
