-- ===== src/Gitops/Schema.antt =====
-- src/pitwall/gitops/schema.py: declared capabilities and providers, with the records of
-- src/pitwall/core/models.py that they are compared to. A JSON value, a list of hints and the value
-- of an enumeration stand as their text; an instant is a number.
use pitwall_gpu_broker.Routing.Constraints.{or_text}
use pitwall_gpu_broker.Prelude.{ℕ, String, Bool, Option, none, some, List, Result, ok, err}

pub data CapabilitySource : Type 0 where
  api mcp yaml : CapabilitySource

pub data GitOpsError : Type 0 where
  exists_as duplicate_id duplicate_name empty_name_id unknown_capability : GitOpsError
  no_reference no_desired missing_update missing_enable missing_disable : GitOpsError
  destructive_change no_pool : GitOpsError

pub record DesiredCapabilitySpec : Type 0 where
  pub id : Option String
  pub name : String
  pub version : String
  pub class : String
  pub description : Option String
  pub input_schema : String
  pub output_schema : String
  pub defaults : String
  pub cost_mode : String
  pub hints_supported : String
  pub enabled : Bool
  pub yaml_hash : String

pub record DesiredProviderSpec : Type 0 where
  pub id : Option String
  pub capability : Option String
  pub capability_id : Option String
  pub capability_name : Option String
  pub name : String
  pub provider_type : String
  pub runpod_endpoint_id : Option String
  pub runpod_template_id : Option String
  pub region : Option String
  pub cloud_type : Option String
  pub config : String
  pub priority : ℕ
  pub enabled : Bool
  pub yaml_hash : String

-- The reference that is given; the model validator lets exactly one through.
abbrev pub capability_ref : DesiredProviderSpec → Result GitOpsError String
capability_ref p = elim (or_text (or_text p.capability p.capability_id) p.capability_name) [
  | some ref ↦ ok ref
  | none ↦ err no_reference
]

pub record DesiredState : Type 0 where
  pub capabilities : List DesiredCapabilitySpec
  pub providers : List DesiredProviderSpec

pub record Capability : Type 0 where
  pub id : String
  pub name : String
  pub version : String
  pub class : String
  pub description : Option String
  pub input_schema : String
  pub output_schema : String
  pub defaults : String
  pub cost_mode : String
  pub hints_supported : String
  pub source : CapabilitySource
  pub last_applied_yaml_hash : Option String
  pub enabled : Bool
  pub created_at : ℕ
  pub updated_at : ℕ

pub record Provider : Type 0 where
  pub id : String
  pub capability_id : String
  pub name : String
  pub provider_type : String
  pub runpod_endpoint_id : Option String
  pub runpod_template_id : Option String
  pub region : Option String
  pub cloud_type : Option String
  pub config : String
  pub priority : ℕ
  pub enabled : Bool
  pub health_status : String
  pub consecutive_failures : ℕ
  pub cooldown_trips : ℕ
  pub cold_start_p50_ms : Option ℕ
  pub cold_start_p95_ms : Option ℕ
  pub recent_error_rate : ℕ
  pub cooldown_until : Option ℕ
  pub source : CapabilitySource
  pub last_applied_yaml_hash : Option String
  pub updated_at : ℕ
