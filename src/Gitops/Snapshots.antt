-- ===== src/Gitops/Snapshots.antt =====
-- Snapshots of src/pitwall/gitops/differ.py and the fields in which two of them differ. The parts
-- that the code writes for capabilities and again for providers are written once, over an
-- `EntityKind`.
use pitwall_gpu_broker.Gitops.Schema.{CapabilitySource, api, mcp, yaml, Capability, Provider}
use pitwall_gpu_broker.Prelude.{
  ℕ, String, Bool, true, false, not, Option, none, some, List, [], ◌∷◌, ◌==◌, str_eq,
}

pub record CapabilitySnapshot : Type 0 where
  pub id : String
  pub name : String
  pub version : String
  pub class : String
  pub description : Option String
  pub input_schema : String
  pub output_schema : String
  pub defaults : String
  pub cost_mode : String
  pub hints_supported : String
  pub enabled : Bool
  pub source : CapabilitySource
  pub last_applied_yaml_hash : Option String

pub record ProviderSnapshot : Type 0 where
  pub id : String
  pub capability_id : String
  pub name : String
  pub provider_type : String
  pub runpod_endpoint_id : Option String
  pub runpod_template_id : Option String
  pub region : Option String
  pub cloud_type : Option String
  pub config : String
  pub priority : ℕ
  pub enabled : Bool
  pub source : CapabilitySource
  pub last_applied_yaml_hash : Option String

abbrev pub capability_snapshot : Capability → CapabilitySnapshot
capability_snapshot c = record {
  id = c.id;
  name = c.name;
  version = c.version;
  class = c.class;
  description = c.description;
  input_schema = c.input_schema;
  output_schema = c.output_schema;
  defaults = c.defaults;
  cost_mode = c.cost_mode;
  hints_supported = c.hints_supported;
  enabled = c.enabled;
  source = c.source;
  last_applied_yaml_hash = c.last_applied_yaml_hash;
}

abbrev pub provider_snapshot : Provider → ProviderSnapshot
provider_snapshot p = record {
  id = p.id;
  capability_id = p.capability_id;
  name = p.name;
  provider_type = p.provider_type;
  runpod_endpoint_id = p.runpod_endpoint_id;
  runpod_template_id = p.runpod_template_id;
  region = p.region;
  cloud_type = p.cloud_type;
  config = p.config;
  priority = p.priority;
  enabled = p.enabled;
  source = p.source;
  last_applied_yaml_hash = p.last_applied_yaml_hash;
}

abbrev pub same_option : Option String → Option String → Bool
same_option none none = true
same_option none (some b) = false
same_option (some a) none = false
same_option (some a) (some b) = str_eq a b

abbrev pub same_flag : Bool → Bool → Bool
same_flag true b = b
same_flag false b = not b

abbrev pub same_source : CapabilitySource → CapabilitySource → Bool
same_source api api = true
same_source mcp mcp = true
same_source yaml yaml = true
same_source api mcp = false
same_source api yaml = false
same_source mcp api = false
same_source mcp yaml = false
same_source yaml api = false
same_source yaml mcp = false

-- A field whose values differ is added to the changes.
abbrev pub unless_same : Bool → String → List String → List String
unless_same true field rest = rest
unless_same false field rest = field ∷ rest

unfoldable pub capability_changes : CapabilitySnapshot → CapabilitySnapshot → List String
capability_changes c d = unless_same (str_eq c.id d.id) "id" (
    unless_same (str_eq c.name d.name) "name" (
      unless_same (str_eq c.version d.version) "version" (
        unless_same (str_eq c.class d.class) "class" (
          unless_same (same_option c.description d.description) "description" (
            unless_same (str_eq c.input_schema d.input_schema) "input_schema" (
              unless_same (str_eq c.output_schema d.output_schema) "output_schema" (
                unless_same (str_eq c.defaults d.defaults) "defaults" (
                  unless_same (str_eq c.cost_mode d.cost_mode) "cost_mode" (
                    unless_same (str_eq c.hints_supported d.hints_supported) "hints_supported" (
                      unless_same (same_flag c.enabled d.enabled) "enabled" (
                        unless_same (same_source c.source d.source) "source" (
                          unless_same
                            (same_option c.last_applied_yaml_hash d.last_applied_yaml_hash)
                            "last_applied_yaml_hash" []))))))))))))

unfoldable pub provider_changes : ProviderSnapshot → ProviderSnapshot → List String
provider_changes c d = unless_same (str_eq c.id d.id) "id" (
    unless_same (str_eq c.capability_id d.capability_id) "capability_id" (
      unless_same (str_eq c.name d.name) "name" (
        unless_same (str_eq c.provider_type d.provider_type) "provider_type" (
          unless_same (same_option c.runpod_endpoint_id d.runpod_endpoint_id) "runpod_endpoint_id" (
            unless_same (same_option c.runpod_template_id d.runpod_template_id) "runpod_template_id"
              (unless_same (same_option c.region d.region) "region" (
                unless_same (same_option c.cloud_type d.cloud_type) "cloud_type" (
                  unless_same (str_eq c.config d.config) "config" (
                    unless_same (c.priority == d.priority) "priority" (
                      unless_same (same_flag c.enabled d.enabled) "enabled" (
                        unless_same (same_source c.source d.source) "source" (
                          unless_same
                            (same_option c.last_applied_yaml_hash d.last_applied_yaml_hash)
                            "last_applied_yaml_hash" []))))))))))))

abbrev pub is_yaml : CapabilitySource → Bool
is_yaml yaml = true
is_yaml api = false
is_yaml mcp = false

-- What the plan reads of a kind of entity: R is a row of the registry, S a snapshot.
pub record EntityKind (R S : Type 0) : Type 0 where
  pub row_id : R → String
  pub row_name : R → String
  pub source : R → CapabilitySource
  pub yaml_hash : R → Option String
  pub snapshot : R → S
  pub id : S → String
  pub name : S → String
  pub changes : S → S → List String

unfoldable pub capability_kind : EntityKind Capability CapabilitySnapshot
unfolding capability_changes
capability_kind = record {
  row_id = λ c. c.id;
  row_name = λ c. c.name;
  source = λ c. c.source;
  yaml_hash = λ c. c.last_applied_yaml_hash;
  snapshot = capability_snapshot;
  id = λ s. s.id;
  name = λ s. s.name;
  changes = capability_changes;
}

unfoldable pub provider_kind : EntityKind Provider ProviderSnapshot
unfolding provider_changes
provider_kind = record {
  row_id = λ p. p.id;
  row_name = λ p. p.name;
  source = λ p. p.source;
  yaml_hash = λ p. p.last_applied_yaml_hash;
  snapshot = provider_snapshot;
  id = λ s. s.id;
  name = λ s. s.name;
  changes = provider_changes;
}
