-- ===== src/Tests/Gitopses.antt =====
-- Tests of plans and their application (src/pitwall/gitops).
use pitwall_gpu_broker.Gitops.Schema.{
  Provider, DesiredCapabilitySpec, DesiredProviderSpec, DesiredState, yaml,
}
use pitwall_gpu_broker.Gitops.Differ.{is_yaml_owned}
use pitwall_gpu_broker.Gitops.Snapshots.{
  CapabilitySnapshot, ProviderSnapshot, capability_kind, provider_kind,
}
use pitwall_gpu_broker.Gitops.Desired.{ReconcilePlan, plan_of, desired_capability, desired_provider}
use pitwall_gpu_broker.Gitops.Reconcile.{Registry}
use pitwall_gpu_broker.Gitops.Repository.{capability_repository, provider_repository, find}
use pitwall_gpu_broker.Gitops.Reconcile.Laws.{CapabilityFits, ProviderFits}
use pitwall_gpu_broker.Gitops.Reconcile.Settle.{IsDesired}
use pitwall_gpu_broker.Gitops.Reconcile.Converge.{Reconciled, reconcile}
use pitwall_gpu_broker.Gitops.Reconcile.Again.{replan_writes_nothing, deletion_never_ends}
use pitwall_gpu_broker.Prelude.{Distinct}
use pitwall_gpu_broker.Prelude.Dict.{Dict, lookup}
use pitwall_gpu_broker.Prelude.{
  String, ◌≡◌, refl, subst, ◌≢◌, inl, inr, true, false, Option, none, some, [], ◌∷◌, arith, eq_iff,
  str_eq, if◌then◌else◌, Bool-cases,
}

abbrev id_of : String → String → Option String
id_of prefix name = if str_eq prefix "cap" then some "cap_llm" else some "prov_fast"

abbrev llm : DesiredCapabilitySpec
llm = record {
  id = none;
  name = "llm";
  version = "1";
  class = "inference";
  description = some "chat";
  input_schema = "{}";
  output_schema = "{}";
  defaults = "{}";
  cost_mode = "request";
  hints_supported = "";
  enabled = true;
  yaml_hash = "h1";
}

abbrev fast : DesiredProviderSpec
fast = record {
  id = none;
  capability = some "llm";
  capability_id = none;
  capability_name = none;
  name = "fast";
  provider_type = "serverless";
  runpod_endpoint_id = some "e1";
  runpod_template_id = none;
  region = some "eu";
  cloud_type = none;
  config = "{}";
  priority = 1;
  enabled = false;
  yaml_hash = "h2";
}

abbrev desired : DesiredState
desired = record { capabilities = llm ∷ []; providers = fast ∷ [] }

-- A provider that an earlier declaration created.
abbrev old : Provider
old = record {
  id = "prov_old";
  capability_id = "cap_llm";
  name = "old";
  provider_type = "serverless";
  runpod_endpoint_id = some "e0";
  runpod_template_id = none;
  region = none;
  cloud_type = none;
  config = "{}";
  priority = 2;
  enabled = true;
  health_status = "healthy";
  consecutive_failures = 0;
  cooldown_trips = 0;
  cold_start_p50_ms = none;
  cold_start_p95_ms = none;
  recent_error_rate = 0;
  cooldown_until = none;
  source = yaml;
  last_applied_yaml_hash = some "h0";
  updated_at = 3;
}

abbrev registry : Registry
registry = record { capabilities = []; providers = old ∷ []; audit = [] }

abbrev want_capabilities : Dict CapabilitySnapshot
want_capabilities = ("cap_llm", desired_capability llm "cap_llm") ∷ []

abbrev want_providers : Dict ProviderSnapshot
want_providers = ("prov_fast", desired_provider fast "prov_fast" "cap_llm") ∷ []

abbrev the_plan : ReconcilePlan
the_plan = plan_of want_capabilities want_providers [] (old ∷ [])

capabilities-IsDesired : IsDesired capability_repository want_capabilities
unfolding capability_repository capability_kind
capabilities-IsDesired = record { unique = (tt, tt); named = (refl, tt) }

providers-IsDesired : IsDesired provider_repository want_providers
unfolding provider_repository provider_kind
providers-IsDesired = record { unique = (tt, tt); named = (refl, tt) }

reconciled : Reconciled "ops" 10 want_capabilities want_providers the_plan registry
unfolding capability_repository provider_repository capability_kind provider_kind
reconciled =
    reconcile "ops" 10 want_capabilities want_providers registry capabilities-IsDesired
      providers-IsDesired tt (tt, tt)

only :
    {V : Type 0} (P : String → V → Type 0) (j : String) (w : V)
    → P j w
    → (k : String) (v : V) → lookup k ((j, w) ∷ []) ≡ some v
    → P k v
only P j w p k v h = elim (Bool-cases (str_eq j k)) [
  | inl same ↦
      let e = (eq_iff j k).0 same in
      let here : w ≡ v = ground arith in subst (P k) here (subst (λ x. P x w) e p)
  | inr differ ↦ absurd (ground arith)
]

capabilities_fit :
    (k : String) (d : CapabilitySnapshot)
    → lookup k want_capabilities ≡ some d
    → CapabilityFits (find capability_repository k registry.capabilities) d
capabilities_fit =
    only (λ k d. CapabilityFits (find capability_repository k registry.capabilities) d) "cap_llm"
      (desired_capability llm "cap_llm") (record { description = refl; hash = refl })

providers_fit :
    (k : String) (d : ProviderSnapshot)
    → lookup k want_providers ≡ some d
    → ProviderFits (find provider_repository k registry.providers) d
unfolding provider_repository provider_kind
providers_fit =
    only (λ k d. ProviderFits (find provider_repository k registry.providers) d) "prov_fast"
      (desired_provider fast "prov_fast" "cap_llm")
      (record {
        endpoint = refl;
        template = refl;
        region = refl;
        cloud = refl;
        hash = refl;
        stays = λ p e. cc e;
      })

replan_writes_nothing_example :
    ((plan_of want_capabilities want_providers reconciled.after.capabilities
        reconciled.after.providers).capability_upserts
      ≡ [])
    × ((plan_of want_capabilities want_providers reconciled.after.capabilities
          reconciled.after.providers).provider_upserts
        ≡ [])
replan_writes_nothing_example =
    replan_writes_nothing "ops" 10 want_capabilities want_providers the_plan registry
      capabilities-IsDesired providers-IsDesired reconciled capabilities_fit providers_fit

at_old : find provider_repository "prov_old" registry.providers ≡ some old
unfolding provider_repository provider_kind
at_old = refl

old_owned : is_yaml_owned provider_kind old ≡ true
unfolding provider_kind
old_owned = refl

deletion_never_ends_example :
    (plan_of want_capabilities want_providers reconciled.after.capabilities
      reconciled.after.providers).provider_deletes
    ≢ []
deletion_never_ends_example =
    deletion_never_ends "ops" 10 want_capabilities want_providers the_plan registry
      providers-IsDesired reconciled "prov_old" old refl at_old old_owned
