-- ===== src/Lease/Mutations/Branches.antt =====
-- Every branch of `LeaseRepository.renew` (src/pitwall/db/repository.py) is one of its cases.
use pitwall_gpu_broker.Lease.Mutations.Cases.{
  IsMutable, IsMine, Finds, Reserves, no_key, new_key, extended, renewed_tables, Renews, absent,
  replays, conflicts, wrong_state, too_far, extends_it,
}
use pitwall_gpu_broker.Prelude.Dict.{lookup, Dict}
use pitwall_gpu_broker.Lease.Mutations.{same_request, Request, renew, mutable_lease_states}
use pitwall_gpu_broker.Lease.Tables.{
  state_error, expiry_limit, idempotency_error, Reservation, LeaseRow, Db, MutationError,
  LeaseMutationResult,
}
use pitwall_gpu_broker.Prelude.{
  contains, ℕ, ◌+◌, ◌*◌, ◌≤◌, ◌<◌, String, ◌≡◌, sym, subst, ◌↔◌, inl, inr, true, false, Option,
  none, some, arith, eq_iff, leb, Bool-cases, Option-cases, Result, ok, err,
}

contains-IsMutable : (s : String) → contains s mutable_lease_states ≡ true → IsMutable s
unfolding contains
contains-IsMutable s h = ground (
  arith,
  eq_iff s "creating",
  eq_iff s "waiting_runtime",
  eq_iff s "waiting_probe",
  eq_iff s "active",
)

IsMutable-contains : (s : String) → IsMutable s → contains s mutable_lease_states ≡ true
unfolding contains
IsMutable-contains s h = ground (
  arith,
  eq_iff s "creating",
  eq_iff s "waiting_runtime",
  eq_iff s "waiting_probe",
  eq_iff s "active",
)

module _ (req : Request) (extends horizon now : ℕ) (db : Db) where
  same-IsMine :
      (r : Reservation)
      → (same_request r req.lease_id "renew" req.request_hash ≡ true)
        ↔ IsMine req extends horizon now r
  unfolding same_request
  same-IsMine r = (
    (λ h. (
      ground (arith, eq_iff r.lease_id req.lease_id),
      ground (arith, eq_iff r.operation "renew"),
      ground (arith, eq_iff r.request_hash req.request_hash),
    )),
    (λ h. ground (
      arith,
      eq_iff r.lease_id req.lease_id,
      eq_iff r.operation "renew",
      eq_iff r.request_hash req.request_hash,
    )),
  )

  abbrev Renewed : Result MutationError (Option LeaseMutationResult) × Db → Type 0
  Renewed x = Renews req extends horizon now db x.0 x.1

  -- The branches after a new reservation.
  reserved-Renews :
      (row : LeaseRow) (keys : Dict Reservation)
      → lookup req.lease_id db.leases ≡ some row
      → Reserves req extends horizon now db keys
      → ((contains row.state mutable_lease_states ≡ false
            → renew req extends horizon now db ≡ (err (state_error row.state "renew"), db))
          × (contains row.state mutable_lease_states ≡ true
              → now + 60 * horizon < row.expires_at + 60 * extends
              → renew req extends horizon now db ≡ (err (expiry_limit req.lease_id), db))
          × (contains row.state mutable_lease_states ≡ true
              → row.expires_at + 60 * extends ≤ now + 60 * horizon
              → renew req extends horizon now db ≡ (
                ok (
                    some
                      (record { lease = extended req extends horizon now row; replayed = false })),
                renewed_tables req extends horizon now row keys db,
              )))
  unfolding renew
  reserved-Renews row keys found (no_key none_given) =
      (λ s. ground arith, λ s far. ground arith, λ s near. ground arith)
  reserved-Renews row keys found (new_key key given fresh) =
      (λ s. ground arith, λ s far. ground arith, λ s near. ground arith)

  after-Renews :
      (row : LeaseRow) (keys : Dict Reservation)
      → lookup req.lease_id db.leases ≡ some row
      → Reserves req extends horizon now db keys
      → Renewed (renew req extends horizon now db)
  after-Renews row keys found kept =
      let (frozen, past, carried) = reserved-Renews row keys found kept in
      elim (Bool-cases (contains row.state mutable_lease_states)) [
        | inr s ↦
            subst Renewed (sym (frozen s))
              (wrong_state found kept λ m. let s' = IsMutable-contains row.state m in cc (s, s'))
        | inl s ↦ elim (Bool-cases (leb (row.expires_at + 60 * extends) (now + 60 * horizon))) [
          | inl near ↦
              let le : row.expires_at + 60 * extends ≤ now + 60 * horizon = ground arith in
              subst Renewed (sym (carried s le))
                (extends_it found kept (contains-IsMutable row.state s) le)
          | inr far ↦
              let lt : now + 60 * horizon < row.expires_at + 60 * extends = ground arith in
              subst Renewed (sym (past s lt))
                (too_far found kept (contains-IsMutable row.state s) lt)
        ]
      ]

  found-Renews :
      (row : LeaseRow)
      → lookup req.lease_id db.leases ≡ some row
      → ((key : String) (r : Reservation)
          → Finds req extends horizon now key r db
          → (same_request r req.lease_id "renew" req.request_hash ≡ true
              → renew req extends horizon now db
                ≡ (ok (some (record { lease = row; replayed = true })), db))
            × (same_request r req.lease_id "renew" req.request_hash ≡ false
                → renew req extends horizon now db ≡ (err (idempotency_error key), db)))
  unfolding renew
  found-Renews row found key r (given, at_key) = (λ same. ground arith, λ other. ground arith)

  renew-Renews : Renewed (renew req extends horizon now db)
  unfolding renew
  renew-Renews = elim (Option-cases (lookup req.lease_id db.leases)) [
    | inl missing ↦
        let gives : renew req extends horizon now db ≡ (ok none, db) = ground arith in
        subst Renewed (sym gives) (absent missing)
    | inr (row, found) ↦ elim (Option-cases req.idempotency_key) [
      | inl none_given ↦ after-Renews row db.mutation_keys found (no_key none_given)
      | inr (key, given) ↦ elim (Option-cases (lookup key db.mutation_keys)) [
        | inl fresh ↦ after-Renews row _ found (new_key key given fresh)
        | inr (r, at_key) ↦
            let (replay, conflict) = found-Renews row found key r (given, at_key) in
            elim (Bool-cases (same_request r req.lease_id "renew" req.request_hash)) [
              | inl same ↦
                  subst Renewed (sym (replay same))
                    (replays found (given, at_key) ((same-IsMine r).0 same))
              | inr other ↦ subst Renewed (sym (conflict other)) (
                  conflicts found (given, at_key)
                    (λ mine. let same = (same-IsMine r).1 mine in cc (same, other)))
            ]
      ]
    ]
  ]

  Renews-renew :
      {answer : Result MutationError (Option LeaseMutationResult)} {after : Db}
      → Renews req extends horizon now db answer after
      → renew req extends horizon now db ≡ (answer, after)
  unfolding renew
  Renews-renew (absent missing) = ground arith
  Renews-renew (replays {row} {key} {r} found at_key mine) =
      (found-Renews row found key r at_key).0 ((same-IsMine r).1 mine)
  Renews-renew (conflicts {row} {key} {r} found at_key other) =
      (found-Renews row found key r at_key).1
        (elim (Bool-cases (same_request r req.lease_id "renew" req.request_hash)) [
          | inl same ↦ absurd (other ((same-IsMine r).0 same))
          | inr ne ↦ ne
        ])
  Renews-renew (wrong_state {row} {keys} found kept frozen) =
      (reserved-Renews row keys found kept).0
        (elim (Bool-cases (contains row.state mutable_lease_states)) [
          | inl s ↦ absurd (frozen (contains-IsMutable row.state s))
          | inr ne ↦ ne
        ])
  Renews-renew (too_far {row} {keys} found kept m far) =
      (reserved-Renews row keys found kept).1 (IsMutable-contains row.state m) far
  Renews-renew (extends_it {row} {keys} found kept m near) =
      (reserved-Renews row keys found kept).2 (IsMutable-contains row.state m) near

-- A renewal gives an answer and leaves tables exactly where one of its six cases holds: there is no
-- such lease; the key is reserved for this renewal, which is answered as a replay, or for another
-- mutation or body, which is an error; or the key is new or absent and the lease is in no mutable
-- state, the new expiry lies past the horizon, or the renewal is carried out. Only in the last case do
-- the tables change: a key is reserved, the expiry moves and one audit row is added, all at once.
pub renew_iff_Renews :
    (req : Request) (extends horizon now : ℕ) (db after : Db)
    (answer : Result MutationError (Option LeaseMutationResult))
    → (renew req extends horizon now db ≡ (answer, after))
      ↔ Renews req extends horizon now db answer after
renew_iff_Renews req extends horizon now db after answer = (
  λ h. subst (Renewed req extends horizon now db) h (renew-Renews req extends horizon now db),
  λ h. Renews-renew req extends horizon now db h,
)
