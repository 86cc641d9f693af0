-- ===== src/Gitops/Reconcile/Converge.antt =====
-- Applying the plan that was built from a registry (src/pitwall/gitops), and planning again.
use pitwall_gpu_broker.Gitops.Snapshots.{CapabilitySnapshot, ProviderSnapshot}
use pitwall_gpu_broker.Gitops.Desired.{
  RegistryOperation, on_capability, on_provider, ReconcilePlan, operations, has_destructive_changes,
  plan_of,
}
use pitwall_gpu_broker.Gitops.Reconcile.{Registry, apply_operations, apply_plan, result_of}
use pitwall_gpu_broker.Gitops.Repository.{capability_repository, provider_repository}
use pitwall_gpu_broker.Gitops.Reconcile.Laws.{
  CapabilityFits, ProviderFits, capability-IsRepository, provider-IsRepository,
}
use pitwall_gpu_broker.Gitops.Reconcile.Settle.{IsDesired, Settled, settles}
use pitwall_gpu_broker.Gitops.Reconcile.Applied.{
  audit_log, with_capabilities, with_providers, apply_capabilities, apply_providers,
}
use pitwall_gpu_broker.Prelude.Dict.{Dict}
use pitwall_gpu_broker.Prelude.{Distinct, append_nil}
use pitwall_gpu_broker.Prelude.{
  ℕ, String, ◌≡◌, refl, sym, ap, ◌∙◌, subst, inl, inr, true, false, List, [], ◌∷◌, ◌++◌, map,
  Bool-cases, ok,
}

audit_log-append :
    (actor : String) (os ps : List RegistryOperation) (entries : List (String × RegistryOperation))
    → audit_log actor (os ++ ps) entries ≡ audit_log actor ps (audit_log actor os entries)
audit_log-append actor [] ps entries = refl
audit_log-append actor (o ∷ os) ps entries = audit_log-append actor os ps ((actor, o) ∷ entries)

-- The registry that applying a plan leaves, and what is known of it.
pub record Reconciled (actor : String) (now : ℕ) (capabilities : Dict CapabilitySnapshot)
    (providers : Dict ProviderSnapshot) (plan : ReconcilePlan) (g : Registry) : Type 0 where
  pub after : Registry
  pub applied : apply_plan plan true false true actor now g ≡ (
    ok (record { dry_run = false; applied = true; applied_operations = operations plan }),
    after,
  )
  pub capabilities_settled :
      Settled capability_repository CapabilityFits now capabilities g.capabilities
        after.capabilities
  pub providers_settled :
      Settled provider_repository ProviderFits now providers g.providers after.providers
  pub audited : after.audit ≡ audit_log actor (operations plan) g.audit

module _ (actor : String) (now : ℕ) (c : Dict CapabilitySnapshot) (p : Dict ProviderSnapshot)
    (g : Registry) where
  ready :
      (plan : ReconcilePlan) (after : Registry)
      → apply_operations actor now (operations plan) g ≡ (ok (operations plan), after)
      → apply_plan plan true false true actor now g ≡ (
        ok (record { dry_run = false; applied = true; applied_operations = operations plan }),
        after,
      )
  unfolding apply_plan
  ready plan after ran = elim (Bool-cases (has_destructive_changes plan)) [
    | inl e ↦ rw e (ap result_of ran)
    | inr e ↦ rw e (ap result_of ran)
  ]

  pub reconcile :
      IsDesired capability_repository c
      → IsDesired provider_repository p
      → Distinct capability_repository.kind.row_id g.capabilities
      → Distinct provider_repository.kind.row_id g.providers
      → Reconciled actor now c p (plan_of c p g.capabilities g.providers) g
  unfolding plan_of capability_repository provider_repository apply_operations
  reconcile want_c want_p unique_c unique_p =
      let sc = settles capability-IsRepository now c want_c g.capabilities unique_c in
      let sp = settles provider-IsRepository now p want_p g.providers unique_p in
      let plan = plan_of c p g.capabilities g.providers in
      let creations = map on_capability plan.capability_upserts in
      let provider_creations = map on_provider plan.provider_upserts in
      let provider_deletions = map on_provider plan.provider_deletes in
      let deletions = map on_capability plan.capability_deletes in
      let g1 = with_capabilities g actor plan.capability_upserts sc.between in
      let g2 = with_providers g1 actor plan.provider_upserts sp.between in
      let g3 = with_providers g2 actor plan.provider_deletes sp.after in
      let g4 = with_capabilities g3 actor plan.capability_deletes sc.after in
      let last =
        apply_capabilities actor now plan.capability_deletes [] [] g3 g4 sc.after sc.deletes_run
          refl in
      let r3 : apply_operations actor now deletions g3 ≡ (ok deletions, g4) =
        subst (λ os. apply_operations actor now os g3 ≡ (ok os, g4)) (append_nil deletions) last in
      let r2 =
        apply_providers actor now plan.provider_deletes deletions deletions g2 g4 sp.after
          sp.deletes_run r3 in
      let r1 =
        apply_providers actor now plan.provider_upserts (provider_deletions ++ deletions)
          (provider_deletions ++ deletions) g1 g4 sp.between sp.upserts_run r2 in
      let r0 =
        apply_capabilities actor now plan.capability_upserts
          (provider_creations ++ (provider_deletions ++ deletions))
          (provider_creations ++ (provider_deletions ++ deletions)) g g4 sc.between sc.upserts_run
          r1 in
      record {
        after = g4;
        applied = ready plan g4 r0;
        capabilities_settled = sc.outcome;
        providers_settled = sp.outcome;
        audited = sym (
            audit_log-append actor creations
              (provider_creations ++ (provider_deletions ++ deletions)) g.audit
            ∙ audit_log-append actor provider_creations (provider_deletions ++ deletions)
                (audit_log actor creations g.audit)
            ∙ audit_log-append actor provider_deletions deletions
                (audit_log actor provider_creations (audit_log actor creations g.audit)));
      }
