-- ===== src/Lease/Service/Keys.antt =====
-- What an idempotency key of src/pitwall/leases/mutations.py stands for.
use pitwall_gpu_broker.Prelude.Dict.{lookup}
use pitwall_gpu_broker.Lease.Mutations.{Request, renew, same_request}
use pitwall_gpu_broker.Lease.Tables.{MutationError, LeaseMutationResult, LeaseRow, Db}
use pitwall_gpu_broker.Lease.Mutations.Renewal.{
  renew_replay, renew_reserves, other_hash, key_reuse_refused,
}
use pitwall_gpu_broker.Lease.Service.{
  answer_of, Payload, renewal, idempotency_conflict, request_of, renew_lease,
}
use pitwall_gpu_broker.Prelude.{
  ℕ, ◌≤◌, String, ◌≡◌, refl, sym, ap, ◌∙◌, subst, ◌≢◌, inl, inr, false, Option, none, some, arith,
  Option-cases, Result, ok, err, Result-cases,
}

-- A renewal that the service carries out is one of the repository within the limits.
module _ (hash : Payload → String) (lease_id actor : String) (key : Option String) (minutes now : ℕ)
    (db : Db) where
  abbrev request : Request
  request = request_of hash lease_id actor key (renewal lease_id minutes)

  renewed-row :
      {lease : LeaseRow}
      → (renew_lease hash lease_id minutes actor key now db).0 ≡ ok lease
      → (1 ≤ minutes)
        × (minutes ≤ 43200)
        × (res : LeaseMutationResult) × ((renew request minutes 43200 now db).0 ≡ ok (some res))
        × (res.lease ≡ lease)
  unfolding renew_lease
  renewed-row h = elim (Result-cases (renew request minutes 43200 now db).0) [
    | inr (e, x) ↦ absurd (ground arith)
    | inl (found, x) ↦ elim (Option-cases found) [
      | inl missing ↦ absurd (ground arith)
      | inr (res, there) ↦ (ground arith, ground arith, res, ground arith, ground arith)
    ]
  ]

  call-tables :
      1 ≤ minutes
      → minutes ≤ 43200
      → (renew_lease hash lease_id minutes actor key now db).1
        ≡ (renew request minutes 43200 now db).1
  unfolding renew_lease
  call-tables lo hi = ground arith

  call-of_renew :
      1 ≤ minutes
      → minutes ≤ 43200
      → {r : Result MutationError (Option LeaseMutationResult)} {db' : Db}
      → renew request minutes 43200 now db ≡ (r, db')
      → renew_lease hash lease_id minutes actor key now db ≡ (answer_of lease_id r, db')
  unfolding renew_lease
  call-of_renew lo hi e = ground arith

-- After a renewal under a key, the key stands for that renewal: the same call, at whatever time,
-- answers with the same lease and changes nothing; and a renewal within the limits of a lease in the
-- table, of which the lease and the minutes have another hash, is a conflict and changes nothing.
pub key_stands_for_call :
    (hash : Payload → String) (lease_id other actor actor' key : String)
    (minutes minutes' now later : ℕ) (db : Db) (row : LeaseRow) {lease : LeaseRow}
    → (renew_lease hash lease_id minutes actor (some key) now db).0 ≡ ok lease
    → lookup other (renew_lease hash lease_id minutes actor (some key) now db).1.leases ≡ some row
    → 1 ≤ minutes'
    → minutes' ≤ 43200
    → hash (renewal other minutes') ≢ hash (renewal lease_id minutes)
    → let db' = (renew_lease hash lease_id minutes actor (some key) now db).1 in
      (renew_lease hash lease_id minutes actor (some key) later db' ≡ (ok lease, db'))
      × (renew_lease hash other minutes' actor' (some key) later db'
          ≡ (err (idempotency_conflict key), db'))
key_stands_for_call hash lease_id other actor actor' key minutes minutes' now later db row {lease} h
      found lo hi apart =
    let (lo0, hi0, res, ran, same) = renewed-row hash lease_id actor (some key) minutes now db h in
    let tables = call-tables hash lease_id actor (some key) minutes now db lo0 hi0 in
    let mine = request hash lease_id actor (some key) minutes now db in
    let theirs = request hash other actor' (some key) minutes' later db in
    let db' = (renew mine minutes 43200 now db).1 in
    let (r, kept, _, _, hashed) = renew_reserves mine key minutes 43200 now db refl ran in
    let there : lookup other db'.leases ≡ some row =
      subst (λ (d : Db). lookup other d.leases ≡ some row) tables found in
    let apart' : same_request r other "renew" theirs.request_hash ≡ false =
      other_hash r other "renew" theirs.request_hash (λ e. apart (sym e ∙ hashed)) in
    let replay =
      call-of_renew hash lease_id actor (some key) minutes later db' lo0 hi0
        (renew_replay mine key minutes 43200 now later db refl ran) in
    let refused = call-of_renew hash other actor' (some key) minutes' later db' lo hi (
      (key_reuse_refused theirs key minutes' 43200 later none none db' row r refl there kept).0
        apart') in
    rw tables (replay ∙ ap (λ l. (ok l, db')) same, refused)
