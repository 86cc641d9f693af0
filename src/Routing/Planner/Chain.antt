-- ===== src/Routing/Planner/Chain.antt =====
-- The attempts of a plan, and `plan_route` of src/pitwall/routing/planner.py.
pub mod Stages
pub mod Members
pub mod Plan
pub mod Distinct
pub mod Order
use pitwall_gpu_broker.Routing.Planner.{
  stage2_elimination_reasons, eliminate, CapacityKey, CapacityDecision, apply_stage4, fallback_leb,
  rank_candidates, Eliminated, RouteElimination, Provider, RouteCandidate, RouteAttempt,
}
use pitwall_gpu_broker.Prelude.Sort.{sort}
use Prim.Native.Nat.{◌^◌}
use pitwall_gpu_broker.Prelude.{
  ℕ, ◌+◌, ◌-◌, ◌*◌, String, Bool, true, false, not, ◌&&◌, ◌||◌, Option, none, some, List, [], ◌∷◌,
  ◌++◌, ltb, ◌==◌, str_eq, contains, if◌then◌else◌, take, Result, ok, err,
}

-- The ids that some candidate names as an explicit fallback.
pub is_explicit_fallback : String → List RouteCandidate → Bool
unfolding contains
is_explicit_fallback i [] = false
is_explicit_fallback i (c ∷ cs) =
    contains i c.provider.explicit_fallback_chain || is_explicit_fallback i cs

abbrev is_empty {ℓ} : {A : Type ℓ} → List A → Bool
is_empty [] = true
is_empty (_ ∷ _) = false

abbrev pub is_primary : List RouteCandidate → RouteCandidate → Bool
is_primary ranked c =
    is_empty c.provider.fallback_for && not (is_explicit_fallback c.provider.id ranked)

-- The first of the candidates that is nobody's fallback.
pub first_primary : List RouteCandidate → List RouteCandidate → Option RouteCandidate
unfolding is_explicit_fallback
first_primary ranked [] = none
first_primary ranked (c ∷ cs) = if is_primary ranked c then some c else first_primary ranked cs

abbrev or_first : Option RouteCandidate → RouteCandidate → RouteCandidate
or_first none first = first
or_first (some c) first = c

-- `ranked_candidates[0]` where there is none; the first argument is that candidate.
pub select_primary_candidate : RouteCandidate → List RouteCandidate → RouteCandidate
unfolding first_primary
select_primary_candidate first ranked = or_first (first_primary ranked ranked) first

-- `by_id.get(provider_id)`: of several candidates with one id the dictionary holds the last.
pub by_id : String → List RouteCandidate → Option RouteCandidate
by_id i [] = none
by_id i (c ∷ cs) = elim (by_id i cs) [
  | some d ↦ some d
  | none ↦ if str_eq c.provider.id i then some c else none
]

-- The loop over an explicit chain, with the ids seen so far.
pub explicit_fallbacks : List RouteCandidate → List String → List String → List RouteCandidate
unfolding by_id contains
explicit_fallbacks ranked seen [] = []
explicit_fallbacks ranked seen (i ∷ is) = elim (by_id i ranked) [
  | none ↦ explicit_fallbacks ranked seen is
  | some c ↦
      if contains c.provider.id seen
      then explicit_fallbacks ranked seen is
      else c ∷ explicit_fallbacks ranked (c.provider.id ∷ seen) is
]

pub related_to : RouteCandidate → List RouteCandidate → List RouteCandidate
unfolding contains
related_to selected [] = []
related_to selected (c ∷ cs) =
    if contains selected.provider.id c.provider.fallback_for
      && not (str_eq c.provider.id selected.provider.id)
    then c ∷ related_to selected cs
    else related_to selected cs

abbrev pub by_provider : (Provider → Provider → Bool) → RouteCandidate → RouteCandidate → Bool
by_provider le c d = le c.provider d.provider

-- By the selected candidate's explicit chain.
pub fallbacks_by_chain : RouteCandidate → List RouteCandidate → List String → List RouteCandidate
unfolding explicit_fallbacks related_to
fallbacks_by_chain selected ranked [] = sort (by_provider fallback_leb) (related_to selected ranked)
fallbacks_by_chain selected ranked (i ∷ is) =
    explicit_fallbacks ranked (selected.provider.id ∷ []) (i ∷ is)

pub fallback_candidates : RouteCandidate → List RouteCandidate → List RouteCandidate
unfolding fallbacks_by_chain
fallback_candidates selected ranked =
    fallbacks_by_chain selected ranked selected.provider.explicit_fallback_chain

-- `base * 2 ** (attempt - 2)` from the second attempt on.
pub backoff_before_attempt : ℕ → ℕ → ℕ
backoff_before_attempt attempt base = if attempt == 1 then 0 else base * 2 ^ (attempt - 2)

abbrev pub attempts_from : ℕ → ℕ → List RouteCandidate → List RouteAttempt
attempts_from n base [] = []
attempts_from n base (c ∷ cs) =
    record {
      provider = c.provider;
      attempt = n;
      backoff_before_attempt_s = backoff_before_attempt n base;
    }
    ∷ attempts_from (n + 1) base cs

pub chain_of : List RouteCandidate → List RouteCandidate
unfolding select_primary_candidate fallback_candidates
chain_of [] = []
chain_of (first ∷ rest) =
    let selected = select_primary_candidate first (first ∷ rest) in
    selected ∷ fallback_candidates selected (first ∷ rest)

pub route_attempts : List RouteCandidate → ℕ → ℕ → List RouteAttempt
unfolding chain_of backoff_before_attempt
route_attempts ranked max_attempts base = attempts_from 1 base (take max_attempts (chain_of ranked))

pub record RoutePlan : Type 0 where
  pub attempts : List RouteAttempt
  pub ranked_candidates : List RouteCandidate
  pub eliminated : List RouteElimination
  pub capacity_decisions : List CapacityDecision

pub data PlanError : Type 0 where
  bad_max_attempts : PlanError

pub plan_route :
    (Provider → List Eliminated)
    → (CapacityKey → Option Bool)
    → ℕ
    → ℕ
    → ℕ
    → List Provider
    → Result PlanError RoutePlan
unfolding rank_candidates apply_stage4 route_attempts
plan_route constraints cache now max_attempts base providers =
    if ltb max_attempts 1
    then err bad_max_attempts
    else let (passed, eliminated1) = eliminate constraints 1 providers in
      let (eligible, eliminated2) = eliminate (λ p. stage2_elimination_reasons p now) 2 passed in
      let ranked = rank_candidates eligible in
      let stage4 = apply_stage4 cache ranked in
      ok (record {
        attempts = route_attempts stage4.candidates max_attempts base;
        ranked_candidates = ranked;
        eliminated = (eliminated1 ++ eliminated2) ++ stage4.eliminated;
        capacity_decisions = stage4.decisions;
      })
