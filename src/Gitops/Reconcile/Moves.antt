-- ===== src/Gitops/Reconcile/Moves.antt =====
-- `ProviderRepository.create` (src/pitwall/db/repository.py) leaves `capability_id` out of its
-- `ON CONFLICT (id) DO UPDATE`: what that means for a plan.
use pitwall_gpu_broker.Gitops.Schema.{GitOpsError, Provider}
use pitwall_gpu_broker.Gitops.Desired.{RegistryOperation}
use pitwall_gpu_broker.Gitops.Reconcile.{Registry, Applied, apply_operation}
use pitwall_gpu_broker.Gitops.Repository.{provider_repository, find}
use pitwall_gpu_broker.Gitops.Reconcile.Applied.{audit_log}
use pitwall_gpu_broker.Prelude.{ℕ, String, ◌≡◌, some, List, ◌∷◌, ◌++◌, ok, err}

-- Every provider of the first table is in the second, of the same capability.
abbrev pub StayPut : List Provider → List Provider → Type 0
StayPut rows after =
    (k : String) (p : Provider)
    → find provider_repository k rows ≡ some p
    → (q : Provider) × (find provider_repository k after ≡ some q)
      × (q.capability_id ≡ p.capability_id)

-- What a run of operations leaves in the audit: the entries of the operations that were applied, in
-- their order, which are all of them where it returns, and those before the one that raised
-- otherwise.
pub record IsAudited (actor : String) (now : ℕ) (os : List RegistryOperation) (g : Registry)
    (a : Applied) : Type 0 where
  pub done : List RegistryOperation
  pub rest : List RegistryOperation
  pub in_order : done ++ rest ≡ os
  pub entries : a.1.audit ≡ audit_log actor done g.audit
  pub returned :
      (applied : List RegistryOperation) → a.0 ≡ ok applied → (applied ≡ os) × (done ≡ os)
  pub failed :
      (e : GitOpsError)
      → a.0 ≡ err e
      → (o : RegistryOperation) × (later : List RegistryOperation) × (q : Registry) × (rest
          ≡ o ∷ later)
        × ((apply_operation o now q).0 ≡ err e)
