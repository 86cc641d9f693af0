-- ===== src/Gitops/Desired/Distinct.antt =====
-- The desired snapshots of src/pitwall/gitops/differ.py have distinct ids, and stand under them.
use pitwall_gpu_broker.Gitops.Schema.{
  Capability, Provider, DesiredCapabilitySpec, DesiredProviderSpec, DesiredState, capability_ref,
}
use pitwall_gpu_broker.Gitops.Differ.{index_by}
use pitwall_gpu_broker.Gitops.Snapshots.{
  CapabilitySnapshot, ProviderSnapshot, capability_kind, provider_kind,
}
use pitwall_gpu_broker.Gitops.Desired.{
  Seen, add_snapshot, References, references, resolve_id, resolve_capability_id, capability_named,
  provider_named, desired_capability, desired_provider, desired_capability_snapshots,
  desired_provider_snapshots, plan_of, ReconcilePlan, build_reconcile_plan,
}
use pitwall_gpu_broker.Gitops.Repository.{Repository, capability_repository, provider_repository}
use pitwall_gpu_broker.Gitops.Reconcile.Settle.{IsDesired}
use pitwall_gpu_broker.Prelude.Dict.{Dict, lookup, insert}
use pitwall_gpu_broker.Prelude.{Distinct, bound}
use pitwall_gpu_broker.Prelude.{
  String, ◌≡◌, refl, sym, subst, ◌≢◌, inl, inr, false, Option, none, some, List, [], ◌∷◌, arith,
  eq_iff, str_eq, Bool-cases, is_some, All, ok,
}

insert-All :
    {V : Type 0} (P : String × V → Type 0) (k : String) (v : V) (d : Dict V)
    → P (k, v)
    → All P d
    → All P (insert k v d)
insert-All P k v [] p h = (p, tt)
insert-All P k v ((j, w) ∷ d) p h = elim (Bool-cases (str_eq j k)) [
  | inl same ↦ rw same (p, h.1)
  | inr differ ↦ rw differ (h.0, insert-All P k v d p h.1)
]

insert-Distinct :
    {V : Type 0} (k : String) (v : V) (d : Dict V)
    → lookup k d ≡ none
    → Distinct (λ (e : String × V). e.0) d
    → Distinct (λ (e : String × V). e.0) (insert k v d)
insert-Distinct k v [] h u = (tt, tt)
insert-Distinct {V} k v ((j, w) ∷ d) h u = elim (Bool-cases (str_eq j k)) [
  | inl same ↦ absurd (ground arith)
  | inr differ ↦ rw differ (
    insert-All (λ (e : String × V). e.0 ≢ j) k v d
        (λ eq. let e = (eq_iff j k).1 (sym eq) in cc (differ, e)) u.0,
    insert-Distinct k v d (ground arith) u.1,
  )
]

added :
    {R S : Type 0} (repo : Repository R S) (i name : String) (s : S) (seen seen' : Seen S)
    → repo.kind.id s ≡ i
    → add_snapshot i name s seen ≡ ok seen'
    → IsDesired repo seen.snapshots
    → IsDesired repo seen'.snapshots
added {R} {S} repo i name s seen seen' same h want =
    elim (Bool-cases (is_some (lookup i seen.snapshots))) [
      | inl there ↦ absurd (ground arith)
      | inr free ↦ elim (Bool-cases (is_some (lookup name seen.names))) [
        | inl there ↦ absurd (ground arith)
        | inr unnamed ↦
            let after : insert i s seen.snapshots ≡ seen'.snapshots = ground arith in
            subst (IsDesired repo) after (record {
              unique =
                  insert-Distinct i s seen.snapshots (none_of (lookup i seen.snapshots) free)
                    want.unique;
              named =
                  insert-All (λ (e : String × S). repo.kind.id e.1 ≡ e.0) i s seen.snapshots same
                    want.named;
            })
      ]
    ]
  where
    none_of : (o : Option S) → is_some o ≡ false → o ≡ none
    none_of none e = refl
    none_of (some x) e = cc e

module _ (id_from_name : String → String → Option String) where
  capabilities-IsDesired :
      (by_name : Dict Capability) (cs : List DesiredCapabilitySpec) (seen : Seen CapabilitySnapshot)
      (d : Dict CapabilitySnapshot)
      → desired_capability_snapshots id_from_name by_name cs seen ≡ ok d
      → IsDesired capability_repository seen.snapshots
      → IsDesired capability_repository d
  unfolding desired_capability_snapshots capability_repository capability_kind
  capabilities-IsDesired by_name [] seen d h want =
      subst (IsDesired capability_repository) (cc h) want
  capabilities-IsDesired by_name (c ∷ cs) seen d h want =
      let (i, _, h1) =
        bound (resolve_id id_from_name c.id (capability_named by_name c.name) "cap" c.name) _ h in
      let (seen', put_in, h2) = bound (add_snapshot i c.name (desired_capability c i) seen) _ h1 in
      capabilities-IsDesired by_name cs seen' d h2
        (added capability_repository i c.name (desired_capability c i) seen seen' refl put_in want)

  providers-IsDesired :
      (refs : References) (by_name : Dict Provider) (ps : List DesiredProviderSpec)
      (seen : Seen ProviderSnapshot) (d : Dict ProviderSnapshot)
      → desired_provider_snapshots id_from_name refs by_name ps seen ≡ ok d
      → IsDesired provider_repository seen.snapshots
      → IsDesired provider_repository d
  unfolding desired_provider_snapshots provider_repository provider_kind
  providers-IsDesired refs by_name [] seen d h want =
      subst (IsDesired provider_repository) (cc h) want
  providers-IsDesired refs by_name (p ∷ ps) seen d h want =
      let (i, _, h1) =
        bound (resolve_id id_from_name p.id (provider_named by_name p.name) "prov" p.name) _ h in
      let (ref, _, h2) = bound (capability_ref p) _ h1 in
      let (c, _, h3) = bound (resolve_capability_id ref refs) _ h2 in
      let (seen', put_in, h4) = bound (add_snapshot i p.name (desired_provider p i c) seen) _ h3 in
      providers-IsDesired refs by_name ps seen' d h4
        (added provider_repository i p.name (desired_provider p i c) seen seen' refl put_in want)

  -- The desired snapshots that a plan was made of.
  pub record Origin (desired : DesiredState) (capabilities : List Capability)
      (providers : List Provider) (plan : ReconcilePlan) : Type 0 where
    pub desired_capabilities : Dict CapabilitySnapshot
    pub desired_providers : Dict ProviderSnapshot
    pub capabilities_from :
        desired_capability_snapshots id_from_name
          (index_by (λ (c : Capability). c.name) capabilities)
          desired.capabilities
          (record { snapshots = []; names = [] })
        ≡ ok desired_capabilities
    pub providers_from :
        desired_provider_snapshots id_from_name
          (references desired_capabilities capabilities)
          (index_by (λ (p : Provider). p.name) providers)
          desired.providers
          (record { snapshots = []; names = [] })
        ≡ ok desired_providers
    pub planned : plan ≡ plan_of desired_capabilities desired_providers capabilities providers
    pub capabilities_unique : IsDesired capability_repository desired_capabilities
    pub providers_unique : IsDesired provider_repository desired_providers

  pub origin :
      (desired : DesiredState) (capabilities : List Capability) (providers : List Provider)
      (plan : ReconcilePlan)
      → build_reconcile_plan id_from_name desired capabilities providers ≡ ok plan
      → Origin desired capabilities providers plan
  unfolding build_reconcile_plan
  origin desired capabilities providers plan h =
      let (c, from_c, h1) =
        bound
          (desired_capability_snapshots id_from_name
            (index_by (λ (c : Capability). c.name) capabilities) desired.capabilities
            (record { snapshots = []; names = [] }))
          _ h in
      let (p, from_p, h2) =
        bound
          (desired_provider_snapshots id_from_name (references c capabilities)
            (index_by (λ (p : Provider). p.name) providers) desired.providers
            (record { snapshots = []; names = [] }))
          _ h1 in
      record {
        desired_capabilities = c;
        desired_providers = p;
        capabilities_from = from_c;
        providers_from = from_p;
        planned = cc h2;
        capabilities_unique =
            capabilities-IsDesired (index_by (λ (c : Capability). c.name) capabilities)
              desired.capabilities (record { snapshots = []; names = [] }) c from_c
              (record { unique = tt; named = tt });
        providers_unique =
            providers-IsDesired (references c capabilities)
              (index_by (λ (p : Provider). p.name) providers) desired.providers
              (record { snapshots = []; names = [] }) p from_p (record { unique = tt; named = tt });
      }
