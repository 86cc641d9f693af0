-- ===== src/Lease/Service.antt =====
-- src/pitwall/leases/mutations.py: the contract of lease mutations over the repository. The hash
-- of a request (JSON through SHA-256) is a function that the service is given.
pub mod Keys
use pitwall_gpu_broker.Lease.Mutations.{Request, renew, patch_settings}
use pitwall_gpu_broker.Lease.Tables.{
  LeaseRow, LeaseMutationResult, MutationError, state_error, expiry_limit, idempotency_error,
  assertion_error, Db,
}
use pitwall_gpu_broker.Prelude.{
  ℕ, String, Bool, ◌&&◌, Option, none, some, leb, if◌then◌else◌, Result, ok, err,
}

-- `MAX_LEASE_EXTENSION_MINUTES`, `MAX_LEASE_EXPIRY_HORIZON_MINUTES`
abbrev pub max_lease_extension_minutes : ℕ
max_lease_extension_minutes = 43200

abbrev pub max_lease_expiry_horizon_minutes : ℕ
max_lease_expiry_horizon_minutes = 43200

-- `failed_assertion` is the repository's own, which the service does not catch.
pub data ServiceError : Type 0 where
  bad_extension : ServiceError
  not_found : String → ServiceError
  conflict : String → String → ServiceError
  expiry_limit_exceeded : String → ServiceError
  idempotency_conflict : String → ServiceError
  failed_assertion : ServiceError

-- The payload that is hashed, as a value.
pub data Payload : Type 0 where
  renewal : String → ℕ → Payload
  settings : String → Option String → Option Bool → Payload

abbrev service_error : String → MutationError → ServiceError
service_error lease_id (state_error state operation) = conflict state operation
service_error lease_id (expiry_limit _) = expiry_limit_exceeded lease_id
service_error lease_id (idempotency_error key) = idempotency_conflict key
service_error lease_id assertion_error = failed_assertion

-- The mapping of exceptions, and of a missing lease.
abbrev pub answer_of :
    String → Result MutationError (Option LeaseMutationResult) → Result ServiceError LeaseRow
answer_of lease_id (err e) = err (service_error lease_id e)
answer_of lease_id (ok none) = err (not_found lease_id)
answer_of lease_id (ok (some result)) = ok result.lease

abbrev pub request_of : (Payload → String) → String → String → Option String → Payload → Request
request_of hash lease_id actor key payload = record {
  lease_id = lease_id;
  actor = actor;
  idempotency_key = key;
  request_hash = hash payload;
}

unfoldable pub renew_lease :
    (Payload → String)
    → String
    → ℕ
    → String
    → Option String
    → ℕ
    → Db
    → Result ServiceError LeaseRow × Db
renew_lease hash lease_id extends_minutes actor key now db =
    if leb 1 extends_minutes && leb extends_minutes max_lease_extension_minutes
    then (let (r, db') =
          renew (request_of hash lease_id actor key (renewal lease_id extends_minutes))
            extends_minutes max_lease_expiry_horizon_minutes now db in
        (answer_of lease_id r, db'))
    else (err bad_extension, db)

pub patch_lease_settings :
    (Payload → String)
    → String
    → Option String
    → Option Bool
    → String
    → Option String
    → Db
    → Result ServiceError LeaseRow × Db
patch_lease_settings hash lease_id policy teardown actor key db =
    let (r, db') =
      patch_settings (request_of hash lease_id actor key (settings lease_id policy teardown)) policy
        teardown db in
    (answer_of lease_id r, db')
