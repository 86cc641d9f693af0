-- ===== src/Gitops/Desired.antt =====
-- src/pitwall/gitops/differ.py: from declared specifications to the snapshots they ask for, and the
-- whole plan.
pub mod Distinct
use pitwall_gpu_broker.Gitops.Schema.{
  yaml, Capability, Provider, DesiredCapabilitySpec, DesiredProviderSpec, DesiredState, GitOpsError,
  exists_as, duplicate_id, duplicate_name, empty_name_id, unknown_capability, capability_ref,
}
use pitwall_gpu_broker.Gitops.Differ.{
  PlanOperation, delete, index_by, upsert_operations, delete_operations,
}
use pitwall_gpu_broker.Gitops.Snapshots.{
  CapabilitySnapshot, ProviderSnapshot, capability_kind, provider_kind,
}
use pitwall_gpu_broker.Prelude.Dict.{Dict, lookup, insert}
use pitwall_gpu_broker.Prelude.{
  String, Bool, true, false, ◌||◌, Option, none, some, List, [], ◌∷◌, ◌++◌, map, str_eq,
  if◌then◌else◌, is_some, Result, ok, err, ◌>>=◌, ◌>>◌,
}

-- The snapshots and the names so far.
pub record Seen (S : Type 0) : Type 0 where
  pub snapshots : Dict S
  pub names : Dict String

-- `_add_snapshot`
abbrev pub add_snapshot : {S : Type 0} → String → String → S → Seen S → Result GitOpsError (Seen S)
add_snapshot entity_id name snapshot seen =
    if is_some (lookup entity_id seen.snapshots)
    then err duplicate_id
    else if is_some (lookup name seen.names)
    then err duplicate_name
    else ok (record {
      snapshots = insert entity_id snapshot seen.snapshots;
      names = insert name entity_id seen.names;
    })

pub data RegistryOperation : Type 0 where
  on_capability : PlanOperation CapabilitySnapshot → RegistryOperation
  on_provider : PlanOperation ProviderSnapshot → RegistryOperation

pub record ReconcilePlan : Type 0 where
  pub capability_upserts : List (PlanOperation CapabilitySnapshot)
  pub provider_upserts : List (PlanOperation ProviderSnapshot)
  pub provider_deletes : List (PlanOperation ProviderSnapshot)
  pub capability_deletes : List (PlanOperation CapabilitySnapshot)

-- The plan's operations, in their order.
abbrev pub operations : ReconcilePlan → List RegistryOperation
operations plan =
    map on_capability plan.capability_upserts
    ++ (map on_provider plan.provider_upserts
        ++ (map on_provider plan.provider_deletes ++ map on_capability plan.capability_deletes))

abbrev pub is_destructive : {S : Type 0} → PlanOperation S → Bool
is_destructive o = elim o.action [ delete ↦ true | _ ↦ o.destructive ]

abbrev pub operation_is_destructive : RegistryOperation → Bool
operation_is_destructive (on_capability o) = is_destructive o
operation_is_destructive (on_provider o) = is_destructive o

abbrev pub any_destructive : List RegistryOperation → Bool
any_destructive [] = false
any_destructive (o ∷ os) = operation_is_destructive o || any_destructive os

abbrev pub has_destructive_changes : ReconcilePlan → Bool
has_destructive_changes plan = any_destructive (operations plan)

-- The second half of `build_reconcile_plan`, once the desired snapshots are known.
unfoldable pub plan_of :
    Dict CapabilitySnapshot
    → Dict ProviderSnapshot
    → List Capability
    → List Provider
    → ReconcilePlan
plan_of capabilities providers current_capabilities current_providers = record {
  capability_upserts = upsert_operations capability_kind capabilities current_capabilities;
  provider_upserts = upsert_operations provider_kind providers current_providers;
  provider_deletes = delete_operations provider_kind providers current_providers;
  capability_deletes = delete_operations capability_kind capabilities current_capabilities;
}

abbrev pub capability_named : Dict Capability → String → Option String
capability_named by_name name = elim (lookup name by_name) [ none ↦ none | some c ↦ some c.id ]

abbrev pub provider_named : Dict Provider → String → Option String
provider_named by_name name = elim (lookup name by_name) [ none ↦ none | some p ↦ some p.id ]

abbrev pub desired_capability : DesiredCapabilitySpec → String → CapabilitySnapshot
desired_capability c i = record {
  id = i;
  name = c.name;
  version = c.version;
  class = c.class;
  description = c.description;
  input_schema = c.input_schema;
  output_schema = c.output_schema;
  defaults = c.defaults;
  cost_mode = c.cost_mode;
  hints_supported = c.hints_supported;
  enabled = c.enabled;
  source = yaml;
  last_applied_yaml_hash = some c.yaml_hash;
}

abbrev pub desired_provider : DesiredProviderSpec → String → String → ProviderSnapshot
desired_provider p i capability_id = record {
  id = i;
  capability_id = capability_id;
  name = p.name;
  provider_type = p.provider_type;
  runpod_endpoint_id = p.runpod_endpoint_id;
  runpod_template_id = p.runpod_template_id;
  region = p.region;
  cloud_type = p.cloud_type;
  config = p.config;
  priority = p.priority;
  enabled = p.enabled;
  source = yaml;
  last_applied_yaml_hash = some p.yaml_hash;
}

-- Where a reference is looked for.
pub record References : Type 0 where
  pub desired_by_id : Dict CapabilitySnapshot
  pub current_by_id : Dict Capability
  pub desired_by_name : Dict CapabilitySnapshot
  pub current_by_name : Dict Capability

-- `_resolve_capability_id`
abbrev pub resolve_capability_id : String → References → Result GitOpsError String
resolve_capability_id ref r = elim (lookup ref r.desired_by_id) [
  | some s ↦ ok s.id
  | none ↦ elim (lookup ref r.current_by_id) [
    | some c ↦ ok c.id
    | none ↦ elim (lookup ref r.desired_by_name) [
      | some s ↦ ok s.id
      | none ↦ elim (lookup ref r.current_by_name) [
        | some c ↦ ok c.id
        | none ↦ err unknown_capability
      ]
    ]
  ]
]

abbrev pub references : Dict CapabilitySnapshot → List Capability → References
references desired current = record {
  desired_by_id = desired;
  current_by_id = index_by (λ (c : Capability). c.id) current;
  desired_by_name = index_by (λ (s : CapabilitySnapshot). s.name) (map (λ e. e.1) desired);
  current_by_name = index_by (λ (c : Capability). c.name) current;
}

module _ (id_from_name : String → String → Option String) where
  abbrev pub existing_or_made : Option String → String → String → Result GitOpsError String
  existing_or_made (some i) prefix name = ok i
  existing_or_made none prefix name = elim (id_from_name prefix name) [
    | some i ↦ ok i
    | none ↦ err empty_name_id
  ]

  -- `declared or (the id that has the name, or one made of the name)`
  abbrev pub choose_id : Option String → Option String → String → String → Result GitOpsError String
  choose_id none existing prefix name = existing_or_made existing prefix name
  choose_id (some i) existing prefix name =
      if str_eq i "" then existing_or_made existing prefix name else ok i

  abbrev pub resolve_id :
      Option String → Option String → String → String → Result GitOpsError String
  resolve_id (some i) (some j) prefix name =
      if str_eq j i then choose_id (some i) (some j) prefix name else err exists_as
  resolve_id none (some j) prefix name = choose_id none (some j) prefix name
  resolve_id given none prefix name = choose_id given none prefix name

  unfoldable pub desired_capability_snapshots :
      Dict Capability
      → List DesiredCapabilitySpec
      → Seen CapabilitySnapshot
      → Result GitOpsError (Dict CapabilitySnapshot)
  desired_capability_snapshots by_name [] seen = ok seen.snapshots
  desired_capability_snapshots by_name (c ∷ cs) seen = do
    i ← resolve_id c.id (capability_named by_name c.name) "cap" c.name
    seen' ← add_snapshot i c.name (desired_capability c i) seen
    desired_capability_snapshots by_name cs seen'

  unfoldable pub desired_provider_snapshots :
      References
      → Dict Provider
      → List DesiredProviderSpec
      → Seen ProviderSnapshot
      → Result GitOpsError (Dict ProviderSnapshot)
  desired_provider_snapshots refs by_name [] seen = ok seen.snapshots
  desired_provider_snapshots refs by_name (p ∷ ps) seen = do
    i ← resolve_id p.id (provider_named by_name p.name) "prov" p.name
    ref ← capability_ref p
    capability_id ← resolve_capability_id ref refs
    seen' ← add_snapshot i p.name (desired_provider p i capability_id) seen
    desired_provider_snapshots refs by_name ps seen'

  unfoldable pub build_reconcile_plan :
      DesiredState → List Capability → List Provider → Result GitOpsError ReconcilePlan
  unfolding desired_capability_snapshots desired_provider_snapshots plan_of
  build_reconcile_plan desired current_capabilities current_providers = do
    capabilities ←
        desired_capability_snapshots (index_by (λ (c : Capability). c.name) current_capabilities)
          desired.capabilities (record { snapshots = []; names = [] })
    providers ←
        desired_provider_snapshots (references capabilities current_capabilities)
          (index_by (λ (p : Provider). p.name) current_providers) desired.providers
          (record { snapshots = []; names = [] })
    ok (plan_of capabilities providers current_capabilities current_providers)
