-- ===== src/Lease/Mutations/Cases.antt =====
-- The cases of `LeaseRepository.renew` (src/pitwall/db/repository.py), as a relation between the
-- tables before, the answer and the tables after.
use pitwall_gpu_broker.Prelude.Dict.{insert, lookup, Dict}
use pitwall_gpu_broker.Lease.Mutations.{change_reason_of, Request}
use pitwall_gpu_broker.Lease.Tables.{
  renewed, state_error, expiry_limit, idempotency_error, Reservation, LeaseRow, Db, MutationError,
  LeaseMutationResult,
}
use pitwall_gpu_broker.Prelude.{
  ℕ, ◌+◌, ◌*◌, ◌≤◌, ◌<◌, String, ◌≡◌, ◌⊎◌, true, false, Option, none, some, [], ◌∷◌, ◌++◌, Result,
  ok, err,
}

-- The states of a lease that still runs or is about to.
abbrev pub IsMutable : String → Type 0
IsMutable state =
    (state ≡ "creating")
    ⊎ ((state ≡ "waiting_runtime") ⊎ ((state ≡ "waiting_probe") ⊎ (state ≡ "active")))

module _ (req : Request) (extends horizon now : ℕ) where
  abbrev pub my_reservation : Reservation
  my_reservation = record {
    lease_id = req.lease_id;
    operation = "renew";
    request_hash = req.request_hash;
    actor = req.actor;
  }

  -- The reservation is for a renewal of the lease with the body of the request.
  abbrev pub IsMine : Reservation → Type 0
  IsMine r =
      (r.lease_id ≡ req.lease_id) × (r.operation ≡ "renew") × (r.request_hash ≡ req.request_hash)

  -- The request carries a key that is reserved already.
  abbrev pub Finds : String → Reservation → Db → Type 0
  Finds key r db = (req.idempotency_key ≡ some key) × (lookup key db.mutation_keys ≡ some r)

  -- The key of the request, if any, is new, and the reservations with it.
  pub data Reserves (db : Db) : Dict Reservation → Type 0 where
    no_key : req.idempotency_key ≡ none → Reserves db db.mutation_keys
    new_key :
        (key : String)
        → req.idempotency_key ≡ some key
        → lookup key db.mutation_keys ≡ none
        → Reserves db (insert key my_reservation db.mutation_keys)

  abbrev pub extended : LeaseRow → LeaseRow
  extended row = record row { expires_at = row.expires_at + 60 * extends }

  -- The tables after a renewal that is carried out.
  abbrev pub renewed_tables : LeaseRow → Dict Reservation → Db → Db
  renewed_tables row keys db = record {
    leases = insert req.lease_id (extended row) db.leases;
    mutation_keys = keys;
    config_audit =
        db.config_audit
        ++ record {
          actor = req.actor;
          entity_id = req.lease_id;
          change = renewed row.expires_at (row.expires_at + 60 * extends) extends;
          change_reason = change_reason_of req.idempotency_key;
        }
          ∷ [];
  }

  pub data Renews (db : Db) : Result MutationError (Option LeaseMutationResult) → Db → Type 0 where
    absent : lookup req.lease_id db.leases ≡ none → Renews db (ok none) db
    replays :
        {row : LeaseRow} {key : String} {r : Reservation}
        → lookup req.lease_id db.leases ≡ some row
        → Finds key r db
        → IsMine r
        → Renews db (ok (some (record { lease = row; replayed = true }))) db
    conflicts :
        {row : LeaseRow} {key : String} {r : Reservation}
        → lookup req.lease_id db.leases ≡ some row
        → Finds key r db
        → ¬ IsMine r
        → Renews db (err (idempotency_error key)) db
    wrong_state :
        {row : LeaseRow} {keys : Dict Reservation}
        → lookup req.lease_id db.leases ≡ some row
        → Reserves db keys
        → ¬ IsMutable row.state
        → Renews db (err (state_error row.state "renew")) db
    too_far :
        {row : LeaseRow} {keys : Dict Reservation}
        → lookup req.lease_id db.leases ≡ some row
        → Reserves db keys
        → IsMutable row.state
        → now + 60 * horizon < row.expires_at + 60 * extends
        → Renews db (err (expiry_limit req.lease_id)) db
    extends_it :
        {row : LeaseRow} {keys : Dict Reservation}
        → lookup req.lease_id db.leases ≡ some row
        → Reserves db keys
        → IsMutable row.state
        → row.expires_at + 60 * extends ≤ now + 60 * horizon
        → Renews db
            (ok (some (record { lease = extended row; replayed = false })))
            (renewed_tables row keys db)
