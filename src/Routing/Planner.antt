-- ===== src/Routing/Planner.antt =====
-- src/pitwall/routing/planner.py: stages 2 to 4 of planning a route, and the attempts. A provider
-- is what the planner's accessors read from it: `_priority`, `_name`, `_fallback_for`,
-- `_explicit_fallback_chain`, `_is_pod_lease_provider`, `_capacity_keys_for_provider`, and the
-- final score of `explain_score`. A score is a finite float, which the planner only compares: it
-- stands for its place in the order of the floats. Stage 1 is a function that the plan is given.
pub mod Chain
use pitwall_gpu_broker.Prelude.Sort.{sort}
use pitwall_gpu_broker.Prelude.Lex.{lex, by_number, by_number_down, by_text}
use pitwall_gpu_broker.Routing.Cooldown.{ProviderCooldownState, is_in_cooldown}
use pitwall_gpu_broker.Prelude.{
  ℕ, ◌+◌, String, Bool, true, false, not, Option, none, some, List, [], ◌∷◌, ltb, ◌==◌, str_eq,
  if◌then◌else◌,
}

pub record CapacityKey : Type 0 where
  pub datacenter : String
  pub gpu_name : String
  pub cloud_type : String
  pub gpu_count : Option ℕ

pub record Provider : Type 0 where
  pub id : String
  pub name : String
  pub enabled : Option Bool
  pub consecutive_failures : ℕ
  pub cooldown_trips : ℕ
  pub cooldown_until : Option ℕ
  pub health_status : String
  pub is_pod_lease : Bool
  pub priority : ℕ
  pub score : ℕ
  pub fallback_for : List String
  pub explicit_fallback_chain : List String
  pub capacity_keys : List CapacityKey

-- `ProviderEliminated`
pub data Eliminated : Type 0 where
  capability_mismatch region_mismatch cuda_mismatch gpu_class_mismatch payload_too_large :
      Eliminated
  is_disabled health_unhealthy health_cooldown capacity_unavailable : Eliminated

pub record RouteElimination : Type 0 where
  pub provider_id : String
  pub stage : ℕ
  pub reasons : List Eliminated

pub record RouteCandidate : Type 0 where
  pub provider : Provider
  pub rank : ℕ

pub data CapacityReason : Type 0 where
  missing_capacity_key available_now capacity_unknown no_capacity : CapacityReason

pub record CapacityDecision : Type 0 where
  pub provider_id : String
  pub available : Option Bool
  pub reason : CapacityReason
  pub selected_key : Option CapacityKey

pub record RouteAttempt : Type 0 where
  pub provider : Provider
  pub attempt : ℕ
  pub backoff_before_attempt_s : ℕ

abbrev pub keep_if {ℓ} : {A : Type ℓ} → Bool → A → List A → List A
keep_if b x xs = if b then x ∷ xs else xs

-- `enabled is False`
abbrev is_false : Option Bool → Bool
is_false (some false) = true
is_false _ = false

-- `state_from_provider`
abbrev pub state_from_provider : Provider → ProviderCooldownState
state_from_provider p = record {
  consecutive_failures = p.consecutive_failures;
  cooldown_trips = p.cooldown_trips;
  cooldown_until = p.cooldown_until;
  health_status = p.health_status;
}

pub stage2_elimination_reasons : Provider → ℕ → List Eliminated
stage2_elimination_reasons p now = keep_if (is_false p.enabled) is_disabled (
    keep_if (str_eq p.health_status "unhealthy") health_unhealthy
      (keep_if (is_in_cooldown (state_from_provider p) now) health_cooldown []))

-- The loop of stages 1 and 2: a provider with a reason is eliminated, any other passes.
pub eliminate :
    (Provider → List Eliminated) → ℕ → List Provider → List Provider × List RouteElimination
eliminate reasons stage [] = ([], [])
eliminate reasons stage (p ∷ ps) =
    let (passed, eliminated) = eliminate reasons stage ps in
    elim (reasons p) [
      | [] ↦ (p ∷ passed, eliminated)
      | r ∷ rs ↦
          (passed, record { provider_id = p.id; stage = stage; reasons = r ∷ rs } ∷ eliminated)
    ]

-- The order of `_candidate_sort_key` and `_fallback_sort_key`: a higher score is a lower key.
pub candidate_leb : Provider → Provider → Bool
candidate_leb =
    lex (by_number_down (λ p. p.score))
      (lex (by_number (λ p. p.priority)) (lex (by_text (λ p. p.name)) (by_text (λ p. p.id))))

pub fallback_leb : Provider → Provider → Bool
fallback_leb =
    lex (by_number (λ p. p.priority))
      (lex (by_number_down (λ p. p.score)) (lex (by_text (λ p. p.name)) (by_text (λ p. p.id))))

abbrev pub number_from : ℕ → List Provider → List RouteCandidate
number_from n [] = []
number_from n (p ∷ ps) = record { provider = p; rank = n } ∷ number_from (n + 1) ps

pub rank_candidates : List Provider → List RouteCandidate
rank_candidates ps = number_from 1 (sort candidate_leb ps)

-- The loop over the keys of one candidate, with `saw_unknown` so far.
pub check_keys : (CapacityKey → Option Bool) → String → List CapacityKey → Bool → CapacityDecision
check_keys cache i [] saw_unknown = record {
  provider_id = i;
  available = if saw_unknown then none else some false;
  reason = if saw_unknown then capacity_unknown else no_capacity;
  selected_key = none;
}
check_keys cache i (k ∷ ks) saw_unknown = elim (cache k) [
  | some true ↦ record {
    provider_id = i;
    available = some true;
    reason = available_now;
    selected_key = some k;
  }
  | some false ↦ check_keys cache i ks saw_unknown
  | none ↦ check_keys cache i ks true
]

pub decide_keys : (CapacityKey → Option Bool) → String → List CapacityKey → CapacityDecision
unfolding check_keys
decide_keys cache i [] = record {
  provider_id = i;
  available = none;
  reason = missing_capacity_key;
  selected_key = none;
}
decide_keys cache i (k ∷ ks) = check_keys cache i (k ∷ ks) false

pub capacity_decision_for : (CapacityKey → Option Bool) → Provider → CapacityDecision
unfolding decide_keys
capacity_decision_for cache p = decide_keys cache p.id p.capacity_keys

abbrev pub is_true : Option Bool → Bool
is_true (some true) = true
is_true _ = false

pub record Stage4 : Type 0 where
  pub candidates : List RouteCandidate
  pub decisions : List CapacityDecision
  pub eliminated : List RouteElimination

pub apply_stage4 : (CapacityKey → Option Bool) → List RouteCandidate → Stage4
apply_stage4 cache [] = record { candidates = []; decisions = []; eliminated = [] }
apply_stage4 cache (c ∷ cs) =
    let rest = apply_stage4 cache cs in
    let decision = capacity_decision_for cache c.provider in
    if not c.provider.is_pod_lease
    then record rest { candidates = c ∷ rest.candidates }
    else if is_true decision.available
    then record rest { candidates = c ∷ rest.candidates; decisions = decision ∷ rest.decisions }
    else record rest {
      decisions = decision ∷ rest.decisions;
      eliminated =
          record { provider_id = c.provider.id; stage = 4; reasons = capacity_unavailable ∷ [] }
          ∷ rest.eliminated;
    }
