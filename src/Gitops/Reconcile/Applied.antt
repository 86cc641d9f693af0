-- ===== src/Gitops/Reconcile/Applied.antt =====
-- The loop of `apply_plan` (src/pitwall/gitops/reconcile.py) over the operations of one kind.
use pitwall_gpu_broker.Gitops.Schema.{Capability, Provider}
use pitwall_gpu_broker.Gitops.Differ.{PlanOperation}
use pitwall_gpu_broker.Gitops.Snapshots.{CapabilitySnapshot, ProviderSnapshot}
use pitwall_gpu_broker.Gitops.Desired.{RegistryOperation, on_capability, on_provider}
use pitwall_gpu_broker.Gitops.Reconcile.{
  in_capabilities, in_providers, then_rest, noted, Registry, audited, apply_operation,
  apply_operations,
}
use pitwall_gpu_broker.Gitops.Repository.{
  Repository, Ran, apply_entity, capability_repository, provider_repository,
}
use pitwall_gpu_broker.Gitops.Reconcile.Upserts.{run_entities, then_run}
use pitwall_gpu_broker.Prelude.{ℕ, String, ◌≡◌, refl, ap, ◌∙◌, List, [], ◌∷◌, ◌++◌, map, ok, err}

-- The audit table after operations.
abbrev pub audit_log :
    String
    → List RegistryOperation
    → List (String × RegistryOperation)
    → List (String × RegistryOperation)
audit_log actor [] entries = entries
audit_log actor (o ∷ os) entries = audit_log actor os ((actor, o) ∷ entries)

abbrev pub with_capabilities :
    Registry → String → List (PlanOperation CapabilitySnapshot) → List Capability → Registry
with_capabilities g actor os rows = record g {
  capabilities = rows;
  audit = audit_log actor (map on_capability os) g.audit;
}

abbrev pub with_providers :
    Registry → String → List (PlanOperation ProviderSnapshot) → List Provider → Registry
with_providers g actor os rows = record g {
  providers = rows;
  audit = audit_log actor (map on_provider os) g.audit;
}

-- What the first operation of a run that ends well left.
first_of :
    {R S : Type 0} (repo : Repository R S) (now : ℕ) (o : PlanOperation S)
    (os : List (PlanOperation S)) (rows after : List R)
    → run_entities repo now (o ∷ os) rows ≡ (ok tt, after)
    → (q : List R) × (apply_entity repo o.action o now rows ≡ (ok tt, q))
      × (run_entities repo now os q ≡ (ok tt, after))
first_of {R} repo now o os rows after h = go (apply_entity repo o.action o now rows) refl h
  where
    go :
        (r : Ran R)
        → apply_entity repo o.action o now rows ≡ r
        → then_run r (run_entities repo now os) ≡ (ok tt, after)
        → (q : List R) × (apply_entity repo o.action o now rows ≡ (ok tt, q))
          × (run_entities repo now os q ≡ (ok tt, after))
    go (err e, q) e' h' = cc h'
    go (ok tt, q) e' h' = (q, e', h')

module _ (actor : String) (now : ℕ) where
  -- The rest of the loop, after one operation that went well.
  one_more :
      (o : RegistryOperation) (os applied : List RegistryOperation) (g g' g'' : Registry)
      → apply_operation o now g ≡ (ok tt, g')
      → apply_operations actor now os (audited actor o g') ≡ (ok applied, g'')
      → apply_operations actor now (o ∷ os) g ≡ (ok (o ∷ applied), g'')
  unfolding apply_operations
  one_more o os applied g g' g'' here rest =
      ap (λ x. then_rest x (λ q. noted o (apply_operations actor now os (audited actor o q)))) here
      ∙ ap (noted o) rest

  pub apply_capabilities :
      (os : List (PlanOperation CapabilitySnapshot)) (rest applied : List RegistryOperation)
      (g g' : Registry) (rows : List Capability)
      → run_entities capability_repository now os g.capabilities ≡ (ok tt, rows)
      → apply_operations actor now rest (with_capabilities g actor os rows) ≡ (ok applied, g')
      → apply_operations actor now (map on_capability os ++ rest) g
        ≡ (ok (map on_capability os ++ applied), g')
  unfolding apply_operation
  apply_capabilities [] rest applied g g' rows ran after =
      let same : g.capabilities ≡ rows = ap (λ (r : Ran Capability). r.1) ran in
      ap (λ (q : List Capability). apply_operations actor now rest (record g { capabilities = q }))
        same
      ∙ after
  apply_capabilities (o ∷ os) rest applied g g' rows ran after =
      let (q, here, later) = first_of capability_repository now o os g.capabilities rows ran in
      let g1 : Registry = record g { capabilities = q } in
      one_more (on_capability o) (map on_capability os ++ rest) (map on_capability os ++ applied) g
        g1 g' (ap (in_capabilities g) here)
        (apply_capabilities os rest applied (audited actor (on_capability o) g1) g' rows later
          after)

  pub apply_providers :
      (os : List (PlanOperation ProviderSnapshot)) (rest applied : List RegistryOperation)
      (g g' : Registry) (rows : List Provider)
      → run_entities provider_repository now os g.providers ≡ (ok tt, rows)
      → apply_operations actor now rest (with_providers g actor os rows) ≡ (ok applied, g')
      → apply_operations actor now (map on_provider os ++ rest) g
        ≡ (ok (map on_provider os ++ applied), g')
  unfolding apply_operation
  apply_providers [] rest applied g g' rows ran after =
      let same : g.providers ≡ rows = ap (λ (r : Ran Provider). r.1) ran in
      ap (λ (q : List Provider). apply_operations actor now rest (record g { providers = q })) same
      ∙ after
  apply_providers (o ∷ os) rest applied g g' rows ran after =
      let (q, here, later) = first_of provider_repository now o os g.providers rows ran in
      let g1 : Registry = record g { providers = q } in
      one_more (on_provider o) (map on_provider os ++ rest) (map on_provider os ++ applied) g g1 g'
        (ap (in_providers g) here)
        (apply_providers os rest applied (audited actor (on_provider o) g1) g' rows later after)
