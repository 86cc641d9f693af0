-- ===== src/Routing/Cascade.antt =====
-- src/pitwall/routing/cascade.py: a chain of providers from cheap to expensive, tried one after
-- the other until a quality gate passes. Amounts are counted in units of one fixed scale, and
-- confidences in a fixed fraction. A call of a provider or of the gate, and a cost function, may
-- raise. Since the ids of the providers differ, a provider is called once at most.
pub mod Run
pub mod Outcomes
pub mod Winner
use pitwall_gpu_broker.Prelude.{
  contains, ℕ, ◌+◌, min, String, Bool, false, Option, none, some, List, [], ◌∷◌, ◌++◌, map, ltb,
  str_eq, if◌then◌else◌, length, take, Result, ok, err, ◌>>=◌, ◌>>◌,
}

pub record CascadeGateDecision : Type 0 where
  pub passed : Bool
  pub confidence : Option ℕ
  pub reason : Option String

pub record CascadeTier (A : Type 0) : Type 0 where
  pub provider : A
  pub estimated_cost_usd : ℕ

pub record CascadeAttempt (A : Type 0) (R : Type 0) : Type 0 where
  pub provider_id : String
  pub provider : A
  pub attempt : ℕ
  pub value : R
  pub gate : CascadeGateDecision
  pub cost_usd : ℕ

pub record CascadeProviderResult (A : Type 0) (R : Type 0) : Type 0 where
  pub value : R
  pub provider : A
  pub provider_id : String
  pub attempts : List (CascadeAttempt A R)
  pub total_cost_usd : ℕ

-- `raised` is an exception of a call; `exhausted` is `CascadeRoutingError` with its attempts and
-- its total cost; the others are the `ValueError`s.
pub data CascadeError (A : Type 0) (R : Type 0) (X : Type 0) : Type 0 where
  no_tiers not_ordered bad_max_attempts empty_id bad_cost : CascadeError A R X
  duplicate_id : String → CascadeError A R X
  raised : X → CascadeError A R X
  exhausted : List (CascadeAttempt A R) → ℕ → CascadeError A R X

-- `CascadeProviderRequest`. A cost function may give what is not an amount.
pub record CascadeProviderRequest (A : Type 0) (R : Type 0) (X : Type 0) : Type 0 where
  pub tiers : List (CascadeTier A)
  pub call_provider : A → Result X R
  pub quality_gate : A → R → Result X CascadeGateDecision
  pub max_attempts : Option ℕ
  pub provider_id : A → String
  pub cost_of_result : Option (A → R → Option ℕ)

unfoldable pub total_cost : {A R : Type 0} → List (CascadeAttempt A R) → ℕ
total_cost [] = 0
total_cost (a ∷ rest) = a.cost_usd + total_cost rest

abbrev below : ℕ → Option ℕ → Bool
below cost none = false
below cost (some previous) = ltb cost previous

unfoldable pub validate_tier_order :
    {A R X : Type 0} → Option ℕ → List (CascadeTier A) → Result (CascadeError A R X) (Unit {0})
validate_tier_order previous [] = ok tt
validate_tier_order previous (t ∷ ts) =
    if below t.estimated_cost_usd previous
    then err not_ordered
    else validate_tier_order (some t.estimated_cost_usd) ts

unfoldable pub max_attempts_of : {A R X : Type 0} → Option ℕ → ℕ → Result (CascadeError A R X) ℕ
max_attempts_of none tier_count = ok tier_count
max_attempts_of (some value) tier_count =
    if ltb value 1 then err bad_max_attempts else ok (min value tier_count)

unfoldable pub validate_provider_ids :
    {A R X : Type 0} → List String → List String → Result (CascadeError A R X) (Unit {0})
unfolding contains
validate_provider_ids seen [] = ok tt
validate_provider_ids seen (i ∷ is) =
    if str_eq i ""
    then err empty_id
    else if contains i seen
    then err (duplicate_id i)
    else validate_provider_ids (i ∷ seen) is

abbrev lift : {A R X B : Type 0} → Result X B → Result (CascadeError A R X) B
lift (ok b) = ok b
lift (err x) = err (raised x)

abbrev amount : {A R X : Type 0} → Option ℕ → Result (CascadeError A R X) ℕ
amount none = err bad_cost
amount (some cost) = ok cost

module _ {A R X : Type 0} (request : CascadeProviderRequest A R X) where
  unfoldable pub attempt_cost : A → R → CascadeTier A → Result (CascadeError A R X) ℕ
  attempt_cost provider value tier = elim request.cost_of_result [
    | none ↦ ok tier.estimated_cost_usd
    | some cost ↦ amount (cost provider value)
  ]

  -- The body of the loop up to the append.
  unfoldable pub attempt_tier : ℕ → CascadeTier A → Result (CascadeError A R X) (CascadeAttempt A R)
  unfolding attempt_cost
  attempt_tier index tier = do
    value ← lift (request.call_provider tier.provider)
    gate ← lift (request.quality_gate tier.provider value)
    cost ← attempt_cost tier.provider value tier
    ok (record {
      provider_id = request.provider_id tier.provider;
      provider = tier.provider;
      attempt = index;
      value = value;
      gate = gate;
      cost_usd = cost;
    })

  abbrev result_of : CascadeAttempt A R → List (CascadeAttempt A R) → CascadeProviderResult A R
  result_of a attempts = record {
    value = a.value;
    provider = a.provider;
    provider_id = a.provider_id;
    attempts = attempts;
    total_cost_usd = total_cost attempts;
  }

  -- The loop, with the attempts made so far.
  unfoldable pub run_tiers :
      ℕ
      → List (CascadeAttempt A R)
      → List (CascadeTier A)
      → Result (CascadeError A R X) (CascadeProviderResult A R)
  unfolding attempt_tier total_cost
  run_tiers index attempts [] = err (exhausted attempts (total_cost attempts))
  run_tiers index attempts (tier ∷ tiers) = do
    a ← attempt_tier index tier
    if a.gate.passed
        then ok (result_of a (attempts ++ a ∷ []))
        else run_tiers (index + 1) (attempts ++ a ∷ []) tiers

  abbrev ids : List (CascadeTier A) → List String
  ids ts = map (λ t. request.provider_id t.provider) ts

  abbrev some_tiers : List (CascadeTier A) → Result (CascadeError A R X) (Unit {0})
  some_tiers [] = err no_tiers
  some_tiers (_ ∷ _) = ok tt

  -- `_validate_request`
  unfoldable pub validate_request : Result (CascadeError A R X) (List (CascadeTier A))
  unfolding validate_tier_order max_attempts_of validate_provider_ids
  validate_request = do
    some_tiers request.tiers
    validate_tier_order none request.tiers
    n ← max_attempts_of request.max_attempts (length request.tiers)
    validate_provider_ids [] (ids request.tiers)
    ok (take n request.tiers)

  unfoldable pub route_with_cascade : Result (CascadeError A R X) (CascadeProviderResult A R)
  unfolding validate_request run_tiers
  route_with_cascade = do selected ← validate_request; run_tiers 1 [] selected
