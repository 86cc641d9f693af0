-- ===== src/Routing/Constraints.antt =====
-- src/pitwall/routing/constraints.py: the hard constraints of stage 1. A provider is what the
-- accessors read from it. Two tests on texts are functions that the filter is given: the numbers of
-- a version (`_version_tuple`), and whether the normalized names of two GPUs match
-- (`_normalize_gpu_token`, `_gpu_tokens_overlap`). A payload limit is counted in millionths of a MB.
pub mod Clauses
pub mod Met
use pitwall_gpu_broker.Prelude.Sort.{codes_leb}
use pitwall_gpu_broker.Routing.Planner.{
  Eliminated, capability_mismatch, region_mismatch, cuda_mismatch, gpu_class_mismatch,
  payload_too_large, keep_if,
}
use pitwall_gpu_broker.Prelude.{
  ℕ, ◌*◌, String, Bool, true, false, not, ◌||◌, Option, none, some, List, [], ◌∷◌, ltb, str_eq,
  if◌then◌else◌, is_some,
}

pub record Capability : Type 0 where
  pub id : String
  pub name : String

pub record RoutingRequest : Type 0 where
  pub capability_name : String
  pub payload_bytes : Option ℕ
  pub required_gpu_class : Option String
  pub required_region : Option String
  pub required_volume_id : Option String
  pub capability_id : Option String
  pub required_cuda_min : Option String
  pub required_cuda_version : Option String

pub record ProviderFacts : Type 0 where
  pub capability_id : Option String
  pub capability_name : Option String
  pub region : Option String
  pub volume_id : Option String
  pub cuda_versions : List String
  pub gpu_classes : List String
  pub max_payload_mb : Option ℕ
  pub is_serverless_lb : Bool

abbrev pub is_text : Option String → String → Bool
is_text none t = false
is_text (some s) t = str_eq s t

-- `provider_value != required`, where something is required.
abbrev pub misses : Option String → Option String → Bool
misses required none = is_some required
misses none (some s) = false
misses (some required) (some s) = not (str_eq s required)

-- `_capability_id`
abbrev pub expected_capability_id :
    RoutingRequest → Option Capability → Option String → Option String
expected_capability_id request capability (some i) = some i
expected_capability_id request (some c) none = some c.id
expected_capability_id request none none = request.capability_id

abbrev other_name : RoutingRequest → Option Capability → Bool
other_name request none = false
other_name request (some c) = not (str_eq request.capability_name c.name)

abbrev pub names_other : RoutingRequest → ProviderFacts → Bool
names_other request p = elim p.capability_name [
  | some n ↦ not (str_eq n request.capability_name)
  | none ↦ not (is_text p.capability_id request.capability_name)
]

pub has_capability_mismatch :
    RoutingRequest → ProviderFacts → Option Capability → Option String → Bool
has_capability_mismatch request p capability capability_id =
    if other_name request capability
    then true
    else elim (expected_capability_id request capability capability_id) [
      | some expected ↦ not (is_text p.capability_id expected)
      | none ↦ names_other request p
    ]

pub has_region_mismatch : RoutingRequest → ProviderFacts → Bool
has_region_mismatch request p =
    misses request.required_region p.region || misses request.required_volume_id p.volume_id

-- `a or b` on two optional texts.
abbrev pub or_text : Option String → Option String → Option String
or_text none b = b
or_text (some a) b = if str_eq a "" then b else some a

pub any_of : (String → Bool) → List String → Bool
any_of test [] = false
any_of test (s ∷ ss) = test s || any_of test ss

-- The limit in force: 30 MB for a load balancer without one of its own.
abbrev pub payload_limit : ProviderFacts → Option ℕ
payload_limit p = elim p.max_payload_mb [
  | some limit ↦ some limit
  | none ↦ if p.is_serverless_lb then some 30000000 else none
]

abbrev pub over : Option ℕ → Option ℕ → Bool
over none limit = false
over (some bytes) none = false
over (some bytes) (some limit) = ltb (limit * 1048576) (bytes * 1000000)

pub is_payload_too_large : RoutingRequest → ProviderFacts → Bool
is_payload_too_large request p = over request.payload_bytes (payload_limit p)

module _ (version_tuple : String → Option (List ℕ)) (gpu_names_match : String → String → Bool) where
  -- Python compares two tuples from the left; a text that holds no number is compared as a text.
  pub version_at_least : String → String → Bool
  version_at_least candidate required = elim (version_tuple candidate) [
    | none ↦ str_eq candidate required
    | some c ↦ elim (version_tuple required) [
      | none ↦ str_eq candidate required
      | some r ↦ codes_leb r c
    ]
  ]

  abbrev pub gpu_matches : String → String → Bool
  gpu_matches required candidate = str_eq candidate required || gpu_names_match candidate required

  pub has_cuda_mismatch : RoutingRequest → ProviderFacts → Bool
  unfolding version_at_least any_of
  has_cuda_mismatch request p =
      elim (or_text request.required_cuda_min request.required_cuda_version) [
        | none ↦ false
        | some required ↦ not (any_of (λ c. version_at_least c required) p.cuda_versions)
      ]

  pub has_gpu_class_mismatch : RoutingRequest → ProviderFacts → Bool
  unfolding any_of
  has_gpu_class_mismatch request p = elim request.required_gpu_class [
    | none ↦ false
    | some required ↦ not (any_of (gpu_matches required) p.gpu_classes)
  ]

  unfoldable pub hard_constraint_reasons :
      RoutingRequest → Option Capability → Option String → ProviderFacts → List Eliminated
  unfolding has_capability_mismatch has_region_mismatch has_cuda_mismatch has_gpu_class_mismatch
      is_payload_too_large
  hard_constraint_reasons request capability capability_id p =
      keep_if (has_capability_mismatch request p capability capability_id) capability_mismatch (
        keep_if (has_region_mismatch request p) region_mismatch (
          keep_if (has_cuda_mismatch request p) cuda_mismatch (
            keep_if (has_gpu_class_mismatch request p) gpu_class_mismatch
              (keep_if (is_payload_too_large request p) payload_too_large []))))
