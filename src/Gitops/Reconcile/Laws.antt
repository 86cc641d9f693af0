-- ===== src/Gitops/Reconcile/Laws.antt =====
-- What applying a plan (src/pitwall/gitops/reconcile.py) relies on of a repository, and that the two
-- repositories of src/pitwall/db/repository.py keep it.
use pitwall_gpu_broker.Gitops.Schema.{Capability, Provider}
use pitwall_gpu_broker.Gitops.Differ.{is_yaml_owned}
use pitwall_gpu_broker.Gitops.Snapshots.{
  CapabilitySnapshot, ProviderSnapshot, capability_kind, provider_kind, capability_snapshot,
  provider_snapshot,
}
use pitwall_gpu_broker.Gitops.Differ.Changes.{
  capability_quiet, provider_quiet, capability_unchanged, provider_unchanged, capability_same,
  provider_same,
}
use pitwall_gpu_broker.Gitops.Repository.{
  Repository, capability_repository, provider_repository, optional_string, has_non_enabled_change,
  capability_from_snapshot, provider_from_snapshot,
}
use pitwall_gpu_broker.Prelude.{
  ℕ, String, ◌≡◌, refl, sym, ◌∙◌, Bool, true, false, Option, none, some, [],
}

-- `Fits old d`: the stored form of the snapshot d, over the row old if there is one, is d.
pub record IsRepository {R S : Type 0} (repo : Repository R S) (Fits : Option R → S → Type 0)
    : Type 0 where
  pub snapshot_id : (r : R) → repo.kind.id (repo.kind.snapshot r) ≡ repo.kind.row_id r
  pub from_id :
      (d : S) (now : ℕ) (old : Option R)
      → repo.kind.row_id (repo.from_snapshot d now old) ≡ repo.kind.id d
  pub inserted_id : (r : R) → repo.kind.row_id (repo.inserted r) ≡ repo.kind.row_id r
  pub merged_id : (old r : R) → repo.kind.row_id (repo.merged old r) ≡ repo.kind.row_id r
  pub toggled_id :
      (b : Bool) (now : ℕ) (r : R) → repo.kind.row_id (repo.toggled b now r) ≡ repo.kind.row_id r
  pub toggled_owned :
      (b : Bool) (now : ℕ) (r : R)
      → is_yaml_owned repo.kind (repo.toggled b now r) ≡ is_yaml_owned repo.kind r
  pub unchanged :
      (r : R) (d : S) → repo.kind.changes (repo.kind.snapshot r) d ≡ [] → repo.kind.snapshot r ≡ d
  pub reflexive : (s : S) → repo.kind.changes s s ≡ []
  pub inserted_on :
      (d : S) (now : ℕ)
      → Fits none d
      → repo.wants_enabled d ≡ true
      → repo.kind.snapshot (repo.inserted (repo.from_snapshot d now none)) ≡ d
  pub inserted_off :
      (d : S) (now : ℕ)
      → Fits none d
      → repo.wants_enabled d ≡ false
      → repo.kind.snapshot (repo.toggled false now (repo.inserted (repo.from_snapshot d now none)))
        ≡ d
  pub merged_same :
      (old : R) (d : S) (now : ℕ)
      → Fits (some old) d
      → repo.wants_enabled d ≡ repo.row_enabled old
      → repo.kind.snapshot (repo.merged old (repo.from_snapshot d now (some old))) ≡ d
  pub merged_toggled :
      (old : R) (d : S) (now : ℕ)
      → Fits (some old) d
      → repo.kind.snapshot (
          repo.toggled
            (repo.wants_enabled d)
            now
            (repo.merged old (repo.from_snapshot d now (some old))))
        ≡ d
  pub quiet_same :
      (old : R) (d : S)
      → repo.wants_enabled d ≡ repo.row_enabled old
      → has_non_enabled_change (repo.kind.changes (repo.kind.snapshot old) d) ≡ false
      → repo.kind.snapshot old ≡ d
  pub quiet_toggled :
      (old : R) (d : S) (now : ℕ)
      → has_non_enabled_change (repo.kind.changes (repo.kind.snapshot old) d) ≡ false
      → repo.kind.snapshot (repo.toggled (repo.wants_enabled d) now old) ≡ d

-- The optional texts of a capability are not empty: the code stores an empty one as none.
pub record CapabilityFits (old : Option Capability) (d : CapabilitySnapshot) : Type 0 where
  pub description : optional_string d.description ≡ d.description
  pub hash : optional_string d.last_applied_yaml_hash ≡ d.last_applied_yaml_hash

-- Nor are those of a provider; and a stored provider is of the capability that is declared for it.
pub record ProviderFits (old : Option Provider) (d : ProviderSnapshot) : Type 0 where
  pub endpoint : optional_string d.runpod_endpoint_id ≡ d.runpod_endpoint_id
  pub template : optional_string d.runpod_template_id ≡ d.runpod_template_id
  pub region : optional_string d.region ≡ d.region
  pub cloud : optional_string d.cloud_type ≡ d.cloud_type
  pub hash : optional_string d.last_applied_yaml_hash ≡ d.last_applied_yaml_hash
  pub stays : (p : Provider) → old ≡ some p → p.capability_id ≡ d.capability_id

stored_capability :
    (old : Option Capability) (d : CapabilitySnapshot) (b : Bool) (now : ℕ) (e : Option Capability)
    → CapabilityFits old d
    → d.enabled ≡ b
    → capability_snapshot (record (capability_from_snapshot d now e) { enabled = b }) ≡ d
stored_capability old d b now e f same = λ i. record d {
  description = f.description i;
  enabled = sym same i;
  last_applied_yaml_hash = f.hash i;
}

stored_provider :
    (old : Option Provider) (d : ProviderSnapshot) (b : Bool) (c : String) (now : ℕ)
    (e : Option Provider)
    → ProviderFits old d
    → d.enabled ≡ b
    → c ≡ d.capability_id
    → provider_snapshot (record (provider_from_snapshot d now e) { enabled = b; capability_id = c })
      ≡ d
stored_provider old d b c now none f same of_capability = λ i. record d {
  capability_id = of_capability i;
  runpod_endpoint_id = f.endpoint i;
  runpod_template_id = f.template i;
  region = f.region i;
  cloud_type = f.cloud i;
  enabled = sym same i;
  last_applied_yaml_hash = f.hash i;
}
stored_provider old d b c now (some p) f same of_capability = λ i. record d {
  capability_id = of_capability i;
  runpod_endpoint_id = f.endpoint i;
  runpod_template_id = f.template i;
  region = f.region i;
  cloud_type = f.cloud i;
  enabled = sym same i;
  last_applied_yaml_hash = f.hash i;
}

pub capability-IsRepository : IsRepository capability_repository CapabilityFits
unfolding capability_repository capability_kind
capability-IsRepository = record {
  snapshot_id = λ r. refl;
  from_id = λ d now old. refl;
  inserted_id = λ r. refl;
  merged_id = λ old r. refl;
  toggled_id = λ b now r. refl;
  toggled_owned = λ b now r. refl;
  unchanged = λ r d h. capability_unchanged (capability_snapshot r) d h;
  reflexive = capability_same;
  inserted_on = λ d now f on. stored_capability none d true now none f on;
  inserted_off = λ d now f off. stored_capability none d false now none f off;
  merged_same =
      λ old d now f same. stored_capability (some old) d old.enabled now (some old) f same;
  merged_toggled = λ old d now f. stored_capability (some old) d d.enabled now (some old) f refl;
  quiet_same = λ old d same h.
      (λ i. record (capability_snapshot old) { enabled = sym same i })
      ∙ capability_quiet (capability_snapshot old) d h;
  quiet_toggled = λ old d now h. capability_quiet (capability_snapshot old) d h;
}

provider_id :
    (d : ProviderSnapshot) (now : ℕ) (old : Option Provider)
    → (provider_from_snapshot d now old).id ≡ d.id
provider_id d now none = refl
provider_id d now (some p) = refl

pub provider-IsRepository : IsRepository provider_repository ProviderFits
unfolding provider_repository provider_kind
provider-IsRepository = record {
  snapshot_id = λ r. refl;
  from_id = provider_id;
  inserted_id = λ r. refl;
  merged_id = λ old r. refl;
  toggled_id = λ b now r. refl;
  toggled_owned = λ b now r. refl;
  unchanged = λ r d h. provider_unchanged (provider_snapshot r) d h;
  reflexive = provider_same;
  inserted_on = λ d now f on. stored_provider none d d.enabled d.capability_id now none f refl refl;
  inserted_off = λ d now f off. stored_provider none d false d.capability_id now none f off refl;
  merged_same = λ old d now f same.
      stored_provider (some old) d old.enabled old.capability_id now (some old) f same
        (f.stays old refl);
  merged_toggled = λ old d now f.
      stored_provider (some old) d d.enabled old.capability_id now (some old) f refl
        (f.stays old refl);
  quiet_same = λ old d same h.
      (λ i. record (provider_snapshot old) { enabled = sym same i })
      ∙ provider_quiet (provider_snapshot old) d h;
  quiet_toggled = λ old d now h. provider_quiet (provider_snapshot old) d h;
}
