-- ===== src/Lease/Mutations.antt =====
-- The lease mutations of src/pitwall/db/repository.py (`LeaseRepository.patch_settings`, `renew`
-- and what they call). A method is one transaction: the row lock makes it atomic, and an exception
-- rolls the tables back. Times are in seconds.
pub mod Renewal
pub mod Calls
pub mod Audit
pub mod Cases
pub mod Branches
use pitwall_gpu_broker.Prelude.{
  ℕ, ◌+◌, ◌*◌, String, Bool, true, false, ◌&&◌, Option, none, some, List, [], ◌∷◌, ◌++◌, str_eq,
  contains, leb, if◌then◌else◌, ok, err,
}
use pitwall_gpu_broker.Lease.Tables.{
  AuditChange, LeaseMutationResult, LeaseRow, Reservation, Tx, assertion_error, expiry_limit,
  idempotency_error, patched, pure, raise, renewed, state_error, transaction, ◌>>=◌, ◌>>◌,
}
use pitwall_gpu_broker.Prelude.Dict.{lookup, insert}

unfoldable pub same_request : Reservation → String → String → String → Bool
same_request r lease_id operation request_hash =
    str_eq r.lease_id lease_id && str_eq r.operation operation && str_eq r.request_hash request_hash

-- `INSERT … ON CONFLICT DO NOTHING`, and the comparison with the row that was there.
pub reserve_lease_mutation : Option String → String → String → String → String → Tx Bool
unfolding same_request
reserve_lease_mutation none lease_id operation request_hash actor db = (ok false, db)
reserve_lease_mutation (some key) lease_id operation request_hash actor db =
    elim (lookup key db.mutation_keys) [
      | none ↦ (
        ok false,
        record db {
          mutation_keys =
              insert key
                (record {
                  lease_id = lease_id;
                  operation = operation;
                  request_hash = request_hash;
                  actor = actor;
                })
                db.mutation_keys;
        },
      )
      | some r ↦
          if same_request r lease_id operation request_hash
          then (ok true, db)
          else (err (idempotency_error key), db)
    ]

-- `f"…" if idempotency_key else None`: an empty key is no reason.
abbrev pub change_reason_of : Option String → Option String
change_reason_of none = none
change_reason_of (some key) = if str_eq key "" then none else some key

insert_lease_mutation_audit : String → String → AuditChange → Option String → Tx Unit
insert_lease_mutation_audit actor lease_id change key db = (
  ok tt,
  record db {
    config_audit =
        db.config_audit
        ++ record {
          actor = actor;
          entity_id = lease_id;
          change = change;
          change_reason = change_reason_of key;
        }
          ∷ [];
  },
)

-- `_MUTABLE_LEASE_STATES`
abbrev pub mutable_lease_states : List String
mutable_lease_states = "creating" ∷ "waiting_runtime" ∷ "waiting_probe" ∷ "active" ∷ []

-- `UPDATE pitwall.leases SET … WHERE id = … AND … RETURNING *`
update_lease : String → (LeaseRow → Bool) → (LeaseRow → LeaseRow) → Tx (Option LeaseRow)
update_lease lease_id condition change db = elim (lookup lease_id db.leases) [
  | none ↦ (ok none, db)
  | some row ↦
      if condition row
      then (ok (some (change row)), record db { leases = insert lease_id (change row) db.leases })
      else (ok none, db)
]

select_lease : String → Tx (Option LeaseRow)
select_lease lease_id db = (ok (lookup lease_id db.leases), db)

abbrev within_horizon : ℕ → ℕ → ℕ → LeaseRow → Bool
within_horizon extends_minutes max_horizon_minutes now row =
    leb (row.expires_at + 60 * extends_minutes) (now + 60 * max_horizon_minutes)

abbrev pub extend : ℕ → LeaseRow → LeaseRow
extend extends_minutes row = record row { expires_at = row.expires_at + 60 * extends_minutes }

-- The arguments that a caller of either mutation passes.
pub record Request : Type 0 where
  pub lease_id : String
  pub actor : String
  pub idempotency_key : Option String
  pub request_hash : String

-- The rest of `renew` once the row is read and the key is known to be new.
renew_row : Request → ℕ → ℕ → ℕ → LeaseRow → Tx (Option LeaseMutationResult)
unfolding update_lease insert_lease_mutation_audit
renew_row req extends_minutes max_horizon_minutes now row =
    if contains row.state mutable_lease_states
    then (do
      updated ←
          update_lease req.lease_id (within_horizon extends_minutes max_horizon_minutes now)
            (extend extends_minutes)
      elim updated [
        | none ↦ raise (expiry_limit req.lease_id)
        | some lease ↦ do
          insert_lease_mutation_audit req.actor req.lease_id
              (renewed row.expires_at lease.expires_at extends_minutes) req.idempotency_key
          pure (some (record { lease = lease; replayed = false }))
      ])
    else raise (state_error row.state "renew")

unfoldable pub renew : Request → ℕ → ℕ → ℕ → Tx (Option LeaseMutationResult)
unfolding select_lease reserve_lease_mutation renew_row
renew req extends_minutes max_horizon_minutes now = transaction do
  found ← select_lease req.lease_id
  elim found [
    | none ↦ pure none
    | some row ↦ do
      replayed ←
          reserve_lease_mutation req.idempotency_key req.lease_id "renew" req.request_hash req.actor
      if replayed
          then pure (some (record { lease = row; replayed = true }))
          else renew_row req extends_minutes max_horizon_minutes now row
  ]

-- `none` is the sentinel `_UNSET`.
abbrev pub or_old : {A : Type 0} → Option A → A → A
or_old none old = old
or_old (some a) old = a

abbrev pub with_old : {A : Type 0} → Option A → A → Option (A × A)
with_old none old = none
with_old (some a) old = some (old, a)

abbrev nothing_set : Option String → Option Bool → Bool
nothing_set none none = true
nothing_set _ _ = false

patch_row : Request → Option String → Option Bool → LeaseRow → Tx (Option LeaseMutationResult)
unfolding update_lease insert_lease_mutation_audit
patch_row req policy teardown row =
    if contains row.state mutable_lease_states
    then (if nothing_set policy teardown
        then pure (some (record { lease = row; replayed = false }))
        else do
          updated ←
              update_lease req.lease_id (λ _. true)
                λ r. record r {
                  renewal_policy = or_old policy r.renewal_policy;
                  auto_teardown_on_expiry = or_old teardown r.auto_teardown_on_expiry;
                }
          elim updated [
            | none ↦ raise assertion_error
            | some lease ↦ do
              insert_lease_mutation_audit req.actor req.lease_id
                  (patched (with_old policy row.renewal_policy)
                    (with_old teardown row.auto_teardown_on_expiry))
                  req.idempotency_key
              pure (some (record { lease = lease; replayed = false }))
          ])
    else raise (state_error row.state "patch")

unfoldable pub patch_settings :
    Request → Option String → Option Bool → Tx (Option LeaseMutationResult)
unfolding select_lease reserve_lease_mutation patch_row
patch_settings req policy teardown = transaction do
  found ← select_lease req.lease_id
  elim found [
    | none ↦ pure none
    | some row ↦ do
      replayed ←
          reserve_lease_mutation req.idempotency_key req.lease_id "patch" req.request_hash req.actor
      if replayed
          then pure (some (record { lease = row; replayed = true }))
          else patch_row req policy teardown row
  ]
