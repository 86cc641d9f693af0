-- ===== src/Gitops/Repository.antt =====
-- One kind of entity of src/pitwall/gitops/reconcile.py: a repository of src/pitwall/db/repository.py,
-- whose table is a list of rows, and one operation on it; the clock of the database and that of the
-- caller are one. What the code writes for capabilities and again for providers is written once, over
-- a `Repository`.
use pitwall_gpu_broker.Gitops.Schema.{
  Capability, Provider, GitOpsError, no_desired, missing_update, missing_enable, missing_disable,
}
use pitwall_gpu_broker.Gitops.Differ.{PlanOperation, PlanAction, create, update, delete}
use pitwall_gpu_broker.Gitops.Snapshots.{
  CapabilitySnapshot, ProviderSnapshot, EntityKind, capability_kind, provider_kind,
}
use pitwall_gpu_broker.Prelude.{
  ℕ, String, Bool, true, false, not, ◌||◌, Option, none, some, List, [], ◌∷◌, str_eq, if◌then◌else◌,
  Result, ok, err,
}

-- `_optional_string` of a text without white space around it, as the models keep texts.
abbrev pub optional_string : Option String → Option String
optional_string none = none
optional_string (some s) = if str_eq s "" then none else some s

abbrev pub capability_created_at : ℕ → Option Capability → ℕ
capability_created_at now none = now
capability_created_at now (some c) = c.created_at

abbrev pub capability_from_snapshot : CapabilitySnapshot → ℕ → Option Capability → Capability
capability_from_snapshot s now existing = record {
  id = s.id;
  name = s.name;
  version = s.version;
  class = s.class;
  description = optional_string s.description;
  input_schema = s.input_schema;
  output_schema = s.output_schema;
  defaults = s.defaults;
  cost_mode = s.cost_mode;
  hints_supported = s.hints_supported;
  source = s.source;
  last_applied_yaml_hash = optional_string s.last_applied_yaml_hash;
  enabled = s.enabled;
  created_at = capability_created_at now existing;
  updated_at = now;
}

-- A provider without a history of its own.
abbrev pub fresh_provider : ProviderSnapshot → ℕ → Provider
fresh_provider s now = record {
  id = s.id;
  capability_id = s.capability_id;
  name = s.name;
  provider_type = s.provider_type;
  runpod_endpoint_id = optional_string s.runpod_endpoint_id;
  runpod_template_id = optional_string s.runpod_template_id;
  region = optional_string s.region;
  cloud_type = optional_string s.cloud_type;
  config = s.config;
  priority = s.priority;
  enabled = s.enabled;
  health_status = "unknown";
  consecutive_failures = 0;
  cooldown_trips = 0;
  cold_start_p50_ms = none;
  cold_start_p95_ms = none;
  recent_error_rate = 0;
  cooldown_until = none;
  source = s.source;
  last_applied_yaml_hash = optional_string s.last_applied_yaml_hash;
  updated_at = now;
}

abbrev pub provider_from_snapshot : ProviderSnapshot → ℕ → Option Provider → Provider
provider_from_snapshot s now none = fresh_provider s now
provider_from_snapshot s now (some p) = record (fresh_provider s now) {
  health_status = p.health_status;
  consecutive_failures = p.consecutive_failures;
  cooldown_trips = p.cooldown_trips;
  cold_start_p50_ms = p.cold_start_p50_ms;
  cold_start_p95_ms = p.cold_start_p95_ms;
  recent_error_rate = p.recent_error_rate;
  cooldown_until = p.cooldown_until;
}

-- What a repository stores, and what applying a plan reads of a row and of a snapshot.
pub record Repository (R S : Type 0) : Type 0 where
  pub kind : EntityKind R S
  pub row_enabled : R → Bool
  pub wants_enabled : S → Bool
  pub from_snapshot : S → ℕ → Option R → R
  -- The row that `INSERT` writes, and the one that `ON CONFLICT (id) DO UPDATE` leaves.
  pub inserted : R → R
  pub merged : R → R → R
  -- `UPDATE ... SET enabled = ..., updated_at = now()`
  pub toggled : Bool → ℕ → R → R

-- `CapabilityRepository`: a new row is enabled, and an old one keeps `enabled` and `created_at`.
unfoldable pub capability_repository : Repository Capability CapabilitySnapshot
unfolding capability_kind
capability_repository = record {
  kind = capability_kind;
  row_enabled = λ c. c.enabled;
  wants_enabled = λ s. s.enabled;
  from_snapshot = capability_from_snapshot;
  inserted = λ c. record c { enabled = true };
  merged = λ old c. record c { enabled = old.enabled; created_at = old.created_at };
  toggled = λ b now c. record c { enabled = b; updated_at = now };
}

-- `ProviderRepository`: an old row keeps `enabled` and `capability_id`.
unfoldable pub provider_repository : Repository Provider ProviderSnapshot
unfolding provider_kind
provider_repository = record {
  kind = provider_kind;
  row_enabled = λ p. p.enabled;
  wants_enabled = λ s. s.enabled;
  from_snapshot = provider_from_snapshot;
  inserted = λ p. p;
  merged = λ old p. record p { enabled = old.enabled; capability_id = old.capability_id };
  toggled = λ b now p. record p { enabled = b; updated_at = now };
}

abbrev pub has_non_enabled_change : List String → Bool
has_non_enabled_change [] = false
has_non_enabled_change (f ∷ fs) = not (str_eq f "enabled") || has_non_enabled_change fs

abbrev pub same_bool : Bool → Bool → Bool
same_bool true b = b
same_bool false b = not b

-- What a statement returns, and the rows after it.
abbrev pub Ran : Type 0 → Type 0
Ran R = Result GitOpsError (Unit {0}) × List R

module _ {R S : Type 0} (repo : Repository R S) where
  open repo.kind use {row_id}
  open repo use {row_enabled, wants_enabled, from_snapshot, inserted, merged, toggled}

  -- `get`
  abbrev pub find : String → List R → Option R
  find k [] = none
  find k (r ∷ rs) = if str_eq (row_id r) k then some r else find k rs

  -- Writes the row with its id, at the end where there is none.
  abbrev pub put : R → List R → List R
  put r [] = r ∷ []
  put r (q ∷ rs) = if str_eq (row_id q) (row_id r) then r ∷ rs else q ∷ put r rs

  abbrev pub create_row : R → Option R → List R → List R
  create_row r none rows = put (inserted r) rows
  create_row r (some old) rows = put (merged old r) rows

  -- `enable` and `disable`, with the error of a missing row.
  abbrev pub toggle : Bool → ℕ → Option R → List R → Ran R
  toggle b now none rows = (err (if b then missing_enable else missing_disable), rows)
  toggle b now (some r) rows = (ok tt, put (toggled b now r) rows)

  abbrev pub current_enabled : Option R → Bool
  current_enabled none = true
  current_enabled (some r) = row_enabled r

  -- `should_upsert`
  abbrev pub should_upsert : PlanAction → List String → Bool
  should_upsert create changes = true
  should_upsert update changes = has_non_enabled_change changes
  should_upsert delete changes = has_non_enabled_change changes

  abbrev pub toggle_if : String → ℕ → S → Option R → List R → Ran R
  toggle_if k now desired existing rows =
      if same_bool (wants_enabled desired) (current_enabled existing)
      then (ok tt, rows)
      else toggle (wants_enabled desired) now (find k rows) rows

  abbrev pub write : PlanOperation S → ℕ → S → Option R → List R → Ran R
  write o now desired existing rows =
      if should_upsert o.action o.changes
      then (let r = from_snapshot desired now existing in
          toggle_if o.entity_id now desired existing (create_row r (find (row_id r) rows) rows))
      else toggle_if o.entity_id now desired existing rows

  abbrev pub write_desired : PlanAction → PlanOperation S → ℕ → S → Option R → List R → Ran R
  write_desired update o now desired none rows = (err missing_update, rows)
  write_desired update o now desired (some r) rows = write o now desired (some r) rows
  write_desired create o now desired existing rows = write o now desired existing rows
  write_desired delete o now desired existing rows = write o now desired existing rows

  abbrev pub create_or_update : PlanAction → PlanOperation S → ℕ → Option S → List R → Ran R
  create_or_update action o now none rows = (err no_desired, rows)
  create_or_update action o now (some desired) rows =
      write_desired action o now desired (find o.entity_id rows) rows

  -- `_apply_capability_operation` and `_apply_provider_operation`
  abbrev pub apply_entity : PlanAction → PlanOperation S → ℕ → List R → Ran R
  apply_entity delete o now rows = toggle false now (find o.entity_id rows) rows
  apply_entity create o now rows = create_or_update create o now o.desired rows
  apply_entity update o now rows = create_or_update update o now o.desired rows
