-- ===== src/Gitops/Reconcile.antt =====
-- src/pitwall/gitops/reconcile.py: applying a plan to the registry, through the repositories.
pub mod Rows
pub mod Laws
pub mod Upserts
pub mod Loops
pub mod Settle
pub mod Applied
pub mod Converge
pub mod Again
pub mod Moves
use pitwall_gpu_broker.Gitops.Repository.{
  Ran, apply_entity, capability_repository, provider_repository,
}
use pitwall_gpu_broker.Gitops.Schema.{
  Capability, Provider, GitOpsError, destructive_change, no_pool,
}
use pitwall_gpu_broker.Gitops.Desired.{
  RegistryOperation, on_capability, on_provider, ReconcilePlan, operations, has_destructive_changes,
}
use pitwall_gpu_broker.Prelude.{
  ℕ, String, Bool, true, false, not, ◌&&◌, List, [], ◌∷◌, if◌then◌else◌, Result, ok, err,
}

-- The two tables, and the audit table, whose entries hold what an operation was and who made it.
pub record Registry : Type 0 where
  pub capabilities : List Capability
  pub providers : List Provider
  pub audit : List (String × RegistryOperation)

abbrev pub in_capabilities : Registry → Ran Capability → Result GitOpsError (Unit {0}) × Registry
in_capabilities g (result, rows) = (result, record g { capabilities = rows })

abbrev pub in_providers : Registry → Ran Provider → Result GitOpsError (Unit {0}) × Registry
in_providers g (result, rows) = (result, record g { providers = rows })

unfoldable pub apply_operation :
    RegistryOperation → ℕ → Registry → Result GitOpsError (Unit {0}) × Registry
unfolding capability_repository provider_repository
apply_operation (on_capability o) now g =
    in_capabilities g (apply_entity capability_repository o.action o now g.capabilities)
apply_operation (on_provider o) now g =
    in_providers g (apply_entity provider_repository o.action o now g.providers)

abbrev pub audited : String → RegistryOperation → Registry → Registry
audited actor o g = record g { audit = (actor, o) ∷ g.audit }

abbrev pub Applied : Type 0
Applied = Result GitOpsError (List RegistryOperation) × Registry

abbrev pub then_rest : Result GitOpsError (Unit {0}) × Registry → (Registry → Applied) → Applied
then_rest (err e, g) rest = (err e, g)
then_rest (ok _, g) rest = rest g

abbrev pub noted : RegistryOperation → Applied → Applied
noted o (err e, g) = (err e, g)
noted o (ok applied, g) = (ok (o ∷ applied), g)

-- The loop of `apply_plan`: each operation is applied and audited; the first error ends it, and
-- what was applied stays.
unfoldable pub apply_operations : String → ℕ → List RegistryOperation → Registry → Applied
unfolding apply_operation
apply_operations actor now [] g = (ok [], g)
apply_operations actor now (o ∷ os) g =
    then_rest (apply_operation o now g)
      (λ g'. noted o (apply_operations actor now os (audited actor o g')))

pub record GitOpsApplyResult : Type 0 where
  pub dry_run : Bool
  pub applied : Bool
  pub applied_operations : List RegistryOperation

abbrev pub result_of : Applied → Result GitOpsError GitOpsApplyResult × Registry
result_of (err e, g) = (err e, g)
result_of (ok applied, g) =
    (ok (record { dry_run = false; applied = true; applied_operations = applied }), g)

-- `apply_plan`; `has_pool` where a pool is given.
unfoldable pub apply_plan :
    ReconcilePlan
    → Bool
    → Bool
    → Bool
    → String
    → ℕ
    → Registry
    → Result GitOpsError GitOpsApplyResult × Registry
unfolding apply_operations
apply_plan plan has_pool dry_run allow_delete actor now g =
    if dry_run
    then (ok (record { dry_run = true; applied = false; applied_operations = [] }), g)
    else if has_destructive_changes plan && not allow_delete
    then (err destructive_change, g)
    else if not has_pool
    then (err no_pool, g)
    else result_of (apply_operations actor now (operations plan) g)
