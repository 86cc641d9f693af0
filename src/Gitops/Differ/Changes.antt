-- ===== src/Gitops/Differ/Changes.antt =====
-- What no change, or no change but of `enabled`, says of two snapshots
-- (src/pitwall/gitops/differ.py).
use pitwall_gpu_broker.Gitops.Repository.{has_non_enabled_change}
use pitwall_gpu_broker.Gitops.Schema.{CapabilitySource, api, mcp, yaml}
use pitwall_gpu_broker.Gitops.Snapshots.{
  CapabilitySnapshot, ProviderSnapshot, same_option, same_flag, same_source, unless_same,
  capability_changes, provider_changes,
}
use pitwall_gpu_broker.Prelude.{
  ℕ, String, ◌≡◌, refl, sym, ap, ◌∙◌, Bool, true, false, Option, none, some, List, [], arith,
  eq_iff, ◌==◌, str_eq,
}

same_option_eq : (a b : Option String) → same_option a b ≡ true → a ≡ b
same_option_eq none none h = refl
same_option_eq none (some b) h = cc h
same_option_eq (some a) none h = cc h
same_option_eq (some a) (some b) h = ap some ((eq_iff a b).0 h)

same_flag_eq : (a b : Bool) → same_flag a b ≡ true → a ≡ b
same_flag_eq true b h = sym h
same_flag_eq false true h = cc h
same_flag_eq false false h = refl

same_source_eq : (a b : CapabilitySource) → same_source a b ≡ true → a ≡ b
same_source_eq api api h = refl
same_source_eq api mcp h = cc h
same_source_eq api yaml h = cc h
same_source_eq mcp api h = cc h
same_source_eq mcp mcp h = refl
same_source_eq mcp yaml h = cc h
same_source_eq yaml api h = cc h
same_source_eq yaml mcp h = cc h
same_source_eq yaml yaml h = refl

quiet :
    (b : Bool) (f : String) (rest : List String)
    → str_eq f "enabled" ≡ false
    → has_non_enabled_change (unless_same b f rest) ≡ false
    → (b ≡ true) × (has_non_enabled_change rest ≡ false)
quiet true f rest ne h = (refl, h)
quiet false f rest ne h = ground arith

quiet_enabled :
    (b : Bool) (rest : List String)
    → has_non_enabled_change (unless_same b "enabled" rest) ≡ false
    → has_non_enabled_change rest ≡ false
quiet_enabled true rest h = h
quiet_enabled false rest h = h

-- Where nothing but `enabled` changes, the other fields agree.
pub capability_quiet :
    (c d : CapabilitySnapshot)
    → has_non_enabled_change (capability_changes c d) ≡ false
    → record c { enabled = d.enabled } ≡ d
unfolding capability_changes
capability_quiet c d h0 =
    let (e1, h1) = quiet (str_eq c.id d.id) "id" _ refl h0 in
    let (e2, h2) = quiet (str_eq c.name d.name) "name" _ refl h1 in
    let (e3, h3) = quiet (str_eq c.version d.version) "version" _ refl h2 in
    let (e4, h4) = quiet (str_eq c.class d.class) "class" _ refl h3 in
    let (e5, h5) = quiet (same_option c.description d.description) "description" _ refl h4 in
    let (e6, h6) = quiet (str_eq c.input_schema d.input_schema) "input_schema" _ refl h5 in
    let (e7, h7) = quiet (str_eq c.output_schema d.output_schema) "output_schema" _ refl h6 in
    let (e8, h8) = quiet (str_eq c.defaults d.defaults) "defaults" _ refl h7 in
    let (e9, h9) = quiet (str_eq c.cost_mode d.cost_mode) "cost_mode" _ refl h8 in
    let (e10, h10) =
      quiet (str_eq c.hints_supported d.hints_supported) "hints_supported" _ refl h9 in
    let h11 = quiet_enabled (same_flag c.enabled d.enabled) _ h10 in
    let (e12, h12) = quiet (same_source c.source d.source) "source" _ refl h11 in
    let (e13, h13) =
      quiet (same_option c.last_applied_yaml_hash d.last_applied_yaml_hash) "last_applied_yaml_hash"
        _ refl h12 in
    λ i. record {
      id = (eq_iff c.id d.id).0 e1 i;
      name = (eq_iff c.name d.name).0 e2 i;
      version = (eq_iff c.version d.version).0 e3 i;
      class = (eq_iff c.class d.class).0 e4 i;
      description = same_option_eq c.description d.description e5 i;
      input_schema = (eq_iff c.input_schema d.input_schema).0 e6 i;
      output_schema = (eq_iff c.output_schema d.output_schema).0 e7 i;
      defaults = (eq_iff c.defaults d.defaults).0 e8 i;
      cost_mode = (eq_iff c.cost_mode d.cost_mode).0 e9 i;
      hints_supported = (eq_iff c.hints_supported d.hints_supported).0 e10 i;
      enabled = d.enabled;
      source = same_source_eq c.source d.source e12 i;
      last_applied_yaml_hash =
          same_option_eq c.last_applied_yaml_hash d.last_applied_yaml_hash e13 i;
    }

pub provider_quiet :
    (c d : ProviderSnapshot)
    → has_non_enabled_change (provider_changes c d) ≡ false
    → record c { enabled = d.enabled } ≡ d
unfolding provider_changes
provider_quiet c d h0 =
    let (e1, h1) = quiet (str_eq c.id d.id) "id" _ refl h0 in
    let (e2, h2) = quiet (str_eq c.capability_id d.capability_id) "capability_id" _ refl h1 in
    let (e3, h3) = quiet (str_eq c.name d.name) "name" _ refl h2 in
    let (e4, h4) = quiet (str_eq c.provider_type d.provider_type) "provider_type" _ refl h3 in
    let (e5, h5) =
      quiet (same_option c.runpod_endpoint_id d.runpod_endpoint_id) "runpod_endpoint_id" _ refl
        h4 in
    let (e6, h6) =
      quiet (same_option c.runpod_template_id d.runpod_template_id) "runpod_template_id" _ refl
        h5 in
    let (e7, h7) = quiet (same_option c.region d.region) "region" _ refl h6 in
    let (e8, h8) = quiet (same_option c.cloud_type d.cloud_type) "cloud_type" _ refl h7 in
    let (e9, h9) = quiet (str_eq c.config d.config) "config" _ refl h8 in
    let (e10, h10) = quiet (c.priority == d.priority) "priority" _ refl h9 in
    let h11 = quiet_enabled (same_flag c.enabled d.enabled) _ h10 in
    let (e12, h12) = quiet (same_source c.source d.source) "source" _ refl h11 in
    let (e13, h13) =
      quiet (same_option c.last_applied_yaml_hash d.last_applied_yaml_hash) "last_applied_yaml_hash"
        _ refl h12 in
    let same_priority : c.priority ≡ d.priority = ground arith in
    λ i. record {
      id = (eq_iff c.id d.id).0 e1 i;
      capability_id = (eq_iff c.capability_id d.capability_id).0 e2 i;
      name = (eq_iff c.name d.name).0 e3 i;
      provider_type = (eq_iff c.provider_type d.provider_type).0 e4 i;
      runpod_endpoint_id = same_option_eq c.runpod_endpoint_id d.runpod_endpoint_id e5 i;
      runpod_template_id = same_option_eq c.runpod_template_id d.runpod_template_id e6 i;
      region = same_option_eq c.region d.region e7 i;
      cloud_type = same_option_eq c.cloud_type d.cloud_type e8 i;
      config = (eq_iff c.config d.config).0 e9 i;
      priority = same_priority i;
      enabled = d.enabled;
      source = same_source_eq c.source d.source e12 i;
      last_applied_yaml_hash =
          same_option_eq c.last_applied_yaml_hash d.last_applied_yaml_hash e13 i;
    }

pub capability_unchanged : (c d : CapabilitySnapshot) → capability_changes c d ≡ [] → c ≡ d
unfolding capability_changes
capability_unchanged c d h =
    let same : same_flag c.enabled d.enabled ≡ true = ground arith in
    let flag = same_flag_eq c.enabled d.enabled same in
    (λ i. record c { enabled = flag i }) ∙ capability_quiet c d (ap has_non_enabled_change h)

pub provider_unchanged : (c d : ProviderSnapshot) → provider_changes c d ≡ [] → c ≡ d
unfolding provider_changes
provider_unchanged c d h =
    let same : same_flag c.enabled d.enabled ≡ true = ground arith in
    let flag = same_flag_eq c.enabled d.enabled same in
    (λ i. record c { enabled = flag i }) ∙ provider_quiet c d (ap has_non_enabled_change h)

same_text : (a : String) → str_eq a a ≡ true
same_text a = (eq_iff a a).1 refl

same_option_refl : (a : Option String) → same_option a a ≡ true
same_option_refl none = refl
same_option_refl (some a) = same_text a

same_flag_refl : (a : Bool) → same_flag a a ≡ true
same_flag_refl true = refl
same_flag_refl false = refl

same_source_refl : (a : CapabilitySource) → same_source a a ≡ true
same_source_refl api = refl
same_source_refl mcp = refl
same_source_refl yaml = refl

same_number : (a : ℕ) → (a == a) ≡ true
same_number a = ground arith

ruleset agreeing = (same_text, same_option_refl, same_flag_refl, same_source_refl, same_number)

-- A snapshot does not differ from itself.
pub capability_same : (s : CapabilitySnapshot) → capability_changes s s ≡ []
unfolding capability_changes
capability_same s = simp agreeing refl

pub provider_same : (s : ProviderSnapshot) → provider_changes s s ≡ []
unfolding provider_changes
provider_same s = simp agreeing refl
