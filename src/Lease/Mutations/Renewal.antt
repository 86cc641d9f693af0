-- ===== src/Lease/Mutations/Renewal.antt =====
-- Idempotency keys in the lease mutations of src/pitwall/db/repository.py.
use pitwall_gpu_broker.Prelude.{
  refl, ◌≢◌, false, inl, inr, Option-cases, true, Option-cases, eq_iff, ℕ, String, Bool, true,
  false, Option, some, ok, err, ◌≡◌, arith,
}
use pitwall_gpu_broker.Prelude.Dict.{lookup, lookup-insert_self}
use pitwall_gpu_broker.Lease.Mutations.{same_request, Request, renew, patch_settings}
use pitwall_gpu_broker.Lease.Tables.{
  idempotency_error, Reservation, LeaseRow, Db, LeaseMutationResult,
}

-- Once a renewal with a key has been carried out, the same request sent again, at whatever time,
-- changes nothing and answers with the lease as it is.
pub renew_replay :
    (req : Request) (key : String) (extends horizon now later : ℕ) (db : Db)
    {res : LeaseMutationResult}
    → req.idempotency_key ≡ some key
    → (renew req extends horizon now db).0 ≡ ok (some res)
    → let db' = (renew req extends horizon now db).1 in
      renew req extends horizon later db'
      ≡ (ok (some (record { lease = res.lease; replayed = true })), db')
unfolding renew
renew_replay req key extends horizon now later db {res} keyed h =
    let reservation : Reservation = record {
      lease_id = req.lease_id;
      operation = "renew";
      request_hash = req.request_hash;
      actor = req.actor;
    } in
    ground (
      arith,
      lookup-insert_self req.lease_id res.lease db.leases,
      lookup-insert_self key reservation db.mutation_keys,
      eq_iff req.lease_id req.lease_id,
      eq_iff req.request_hash req.request_hash,
    )

-- Where the lease is in the table, a key that stands for another lease, another operation or
-- another body is refused by either mutation, and the tables stay as they are.
pub key_reuse_refused :
    (req : Request) (key : String) (extends horizon now : ℕ) (policy : Option String)
    (teardown : Option Bool) (db : Db) (row : LeaseRow) (r : Reservation)
    → req.idempotency_key ≡ some key
    → lookup req.lease_id db.leases ≡ some row
    → lookup key db.mutation_keys ≡ some r
    → (same_request r req.lease_id "renew" req.request_hash ≡ false
        → renew req extends horizon now db ≡ (err (idempotency_error key), db))
      × (same_request r req.lease_id "patch" req.request_hash ≡ false
          → patch_settings req policy teardown db ≡ (err (idempotency_error key), db))
unfolding renew patch_settings
key_reuse_refused req key extends horizon now policy teardown db row r keyed found taken =
    ground arith

-- The reservation that a renewal under a key leaves behind.
pub renew_reserves :
    (req : Request) (key : String) (extends horizon now : ℕ) (db : Db) {res : LeaseMutationResult}
    → req.idempotency_key ≡ some key
    → (renew req extends horizon now db).0 ≡ ok (some res)
    → (r : Reservation) × (lookup key (renew req extends horizon now db).1.mutation_keys ≡ some r)
      × (r.lease_id ≡ req.lease_id)
      × (r.operation ≡ "renew")
      × (r.request_hash ≡ req.request_hash)
unfolding renew same_request
renew_reserves req key extends horizon now db {res} keyed h =
    let new : Reservation = record {
      lease_id = req.lease_id;
      operation = "renew";
      request_hash = req.request_hash;
      actor = req.actor;
    } in
    elim (Option-cases (lookup key db.mutation_keys)) [
      | inl fresh ↦
          (new, ground (arith, lookup-insert_self key new db.mutation_keys), refl, refl, refl)
      | inr (r, old) ↦
          let same : same_request r req.lease_id "renew" req.request_hash ≡ true = ground arith in
          (
            r,
            ground arith,
            ground (arith, eq_iff r.lease_id req.lease_id),
            ground (arith, eq_iff r.operation "renew"),
            ground (arith, eq_iff r.request_hash req.request_hash),
          )
    ]

-- A request with another hash is another request.
pub other_hash :
    (r : Reservation) (lease_id operation request_hash : String)
    → r.request_hash ≢ request_hash
    → same_request r lease_id operation request_hash ≡ false
unfolding same_request
other_hash r lease_id operation request_hash h = ground (arith, eq_iff r.request_hash request_hash)
