-- ===== src/Lease/Mutations/Audit.antt =====
-- The audit trail of the lease mutations of src/pitwall/db/repository.py accounts for every expiry.
use pitwall_gpu_broker.Lease.Mutations.Calls.{
  Call, renew_call, patch_call, perform, perform_all, answer, audited_minutes, is_carried,
  minutes_asked, carried_minutes, has_key, carried_under,
}
use pitwall_gpu_broker.Prelude.Dict.{lookup-insert, lookup}
use pitwall_gpu_broker.Lease.Mutations.{
  or_old, with_old, change_reason_of, extend, patch_settings, renew, Request,
}
use pitwall_gpu_broker.Lease.Tables.{
  renewed, patched, LeaseRow, AuditRow, AuditChange, Db, Reservation,
}
use pitwall_gpu_broker.Prelude.{
  ℕ, ◌+◌, ◌*◌, ◌≤◌, String, ◌≡◌, refl, inl, inr, Bool, true, false, ◌&&◌, Option, none, some, List,
  [], ◌∷◌, ◌++◌, arith, eq_iff, if◌then◌else◌, Bool-cases, Option-cases, is_some,
}

audited_minutes-append :
    (lease_id : String) (xs ys : List AuditRow)
    → audited_minutes lease_id (xs ++ ys)
      ≡ audited_minutes lease_id xs + audited_minutes lease_id ys
unfolding audited_minutes
audited_minutes-append lease_id [] ys = omega arith
audited_minutes-append lease_id (a ∷ xs) ys = omega (arith, audited_minutes-append lease_id xs ys)

-- The expiry that the table holds for a lease.
abbrev pub expiry : String → Db → Option ℕ
expiry lease_id db = elim (lookup lease_id db.leases) [
  | none ↦ none
  | some row ↦ some row.expires_at
]

abbrev Accounts : String → ℕ → Db → Type 0
Accounts lease_id base db =
    expiry lease_id db ≡ some (base + 60 * audited_minutes lease_id db.config_audit)

-- The row that a mutation appends.
abbrev audit_row : Request → AuditChange → AuditRow
audit_row req change = record {
  actor = req.actor;
  entity_id = req.lease_id;
  change = change;
  change_reason = change_reason_of req.idempotency_key;
}

renew-Accounts :
    (lease_id : String) (base : ℕ) (req : Request) (extends horizon now : ℕ) (db : Db)
    → Accounts lease_id base db
    → Accounts lease_id base (renew req extends horizon now db).1
unfolding renew audited_minutes
renew-Accounts lease_id base req extends horizon now db h =
    elim (Option-cases (lookup req.lease_id db.leases)) [
      | inl missing ↦ ground arith
      | inr (row, found) ↦
          let change = renewed row.expires_at (row.expires_at + 60 * extends) extends in
          ground (
            arith,
            eq_iff req.lease_id lease_id,
            lookup-insert req.lease_id lease_id (extend extends row) db.leases,
            audited_minutes-append lease_id db.config_audit (audit_row req change ∷ []),
          )
    ]

patch-Accounts :
    (lease_id : String) (base : ℕ) (req : Request) (policy : Option String) (teardown : Option Bool)
    (db : Db)
    → Accounts lease_id base db
    → Accounts lease_id base (patch_settings req policy teardown db).1
unfolding patch_settings audited_minutes
patch-Accounts lease_id base req policy teardown db h =
    elim (Option-cases (lookup req.lease_id db.leases)) [
      | inl missing ↦ ground arith
      | inr (row, found) ↦
          let change =
            patched (with_old policy row.renewal_policy)
              (with_old teardown row.auto_teardown_on_expiry) in
          let row' : LeaseRow = record row {
            renewal_policy = or_old policy row.renewal_policy;
            auto_teardown_on_expiry = or_old teardown row.auto_teardown_on_expiry;
          } in
          ground (
            arith,
            eq_iff req.lease_id lease_id,
            lookup-insert req.lease_id lease_id row' db.leases,
            audited_minutes-append lease_id db.config_audit (audit_row req change ∷ []),
          )
    ]

perform_all-Accounts :
    (lease_id : String) (base : ℕ) (cs : List Call) (db : Db)
    → Accounts lease_id base db
    → Accounts lease_id base (perform_all cs db)
unfolding perform_all perform
perform_all-Accounts lease_id base [] db h = h
perform_all-Accounts lease_id base (renew_call req extends horizon now ∷ cs) db h =
    perform_all-Accounts lease_id base cs (renew req extends horizon now db).1
      (renew-Accounts lease_id base req extends horizon now db h)
perform_all-Accounts lease_id base (patch_call req policy teardown ∷ cs) db h =
    perform_all-Accounts lease_id base cs (patch_settings req policy teardown db).1
      (patch-Accounts lease_id base req policy teardown db h)

-- The audit grows by what a call was told to have added.
answer-audited_minutes :
    (lease_id : String) (c : Call) (db : Db)
    → audited_minutes lease_id (perform c db).config_audit
      ≡ audited_minutes lease_id db.config_audit
        + (if is_carried (answer c db) then minutes_asked lease_id c else 0)
unfolding perform answer renew patch_settings audited_minutes
answer-audited_minutes lease_id (renew_call req extends horizon now) db =
    elim (Option-cases (lookup req.lease_id db.leases)) [
      | inl missing ↦ ground arith
      | inr (row, found) ↦
          let change = renewed row.expires_at (row.expires_at + 60 * extends) extends in
          ground
            (arith, audited_minutes-append lease_id db.config_audit (audit_row req change ∷ []))
    ]
answer-audited_minutes lease_id (patch_call req policy teardown) db =
    elim (Option-cases (lookup req.lease_id db.leases)) [
      | inl missing ↦ ground arith
      | inr (row, found) ↦
          let change =
            patched (with_old policy row.renewal_policy)
              (with_old teardown row.auto_teardown_on_expiry) in
          ground
            (arith, audited_minutes-append lease_id db.config_audit (audit_row req change ∷ []))
    ]

carried-audited_minutes :
    (lease_id : String) (cs : List Call) (db : Db)
    → audited_minutes lease_id (perform_all cs db).config_audit
      ≡ audited_minutes lease_id db.config_audit + carried_minutes lease_id cs db
unfolding perform_all carried_minutes
carried-audited_minutes lease_id [] db = omega arith
carried-audited_minutes lease_id (c ∷ cs) db = omega (
  arith,
  answer-audited_minutes lease_id c db,
  carried-audited_minutes lease_id cs (perform c db),
)

abbrev is_reserved : String → Db → Bool
is_reserved key db = is_some (lookup key db.mutation_keys)

-- A reservation stays, and a call under a key is carried out only where it makes one.
call-is_reserved :
    (key : String) (c : Call) (db : Db)
    → (is_reserved key db ≡ true → is_reserved key (perform c db) ≡ true)
      × ((is_carried (answer c db) && has_key key c) ≡ true
          → (is_reserved key db ≡ false) × (is_reserved key (perform c db) ≡ true))
unfolding perform answer renew patch_settings
call-is_reserved key (renew_call req extends horizon now) db =
    elim (Option-cases req.idempotency_key) [
      | inl no_key ↦ (λ h. ground arith, λ h. ground arith)
      | inr (k, given) ↦
          let new : Reservation = record {
            lease_id = req.lease_id;
            operation = "renew";
            request_hash = req.request_hash;
            actor = req.actor;
          } in
          (
            λ h. ground (arith, eq_iff k key, lookup-insert k key new db.mutation_keys),
            λ h. ground (arith, eq_iff k key, lookup-insert k key new db.mutation_keys),
          )
    ]
call-is_reserved key (patch_call req policy teardown) db = elim (Option-cases req.idempotency_key) [
  | inl no_key ↦ (λ h. ground arith, λ h. ground arith)
  | inr (k, given) ↦
      let new : Reservation = record {
        lease_id = req.lease_id;
        operation = "patch";
        request_hash = req.request_hash;
        actor = req.actor;
      } in
      (
        λ h. ground (arith, eq_iff k key, lookup-insert k key new db.mutation_keys),
        λ h. ground (arith, eq_iff k key, lookup-insert k key new db.mutation_keys),
      )
]

carried_under-once :
    (key : String) (cs : List Call) (db : Db)
    → carried_under key cs db ≤ (if is_reserved key db then 0 else 1)
unfolding carried_under
carried_under-once key [] db = ground arith
carried_under-once key (c ∷ cs) db =
    let (stays, makes) = call-is_reserved key c db in
    let rest = carried_under-once key cs (perform c db) in
    elim (Bool-cases (is_carried (answer c db) && has_key key c)) [
      | inl carried ↦ let (was_new, reserves) = makes carried in ground arith
      | inr not_carried ↦ elim (Bool-cases (is_reserved key db)) [
        | inl before ↦ let still = stays before in ground arith
        | inr fresh ↦ ground arith
      ]
    ]

-- No renewal is lost and none is applied twice: from tables with the lease and without audit rows,
-- after any calls, replays and failures included, the expiry of the lease has moved by exactly the
-- minutes that the audit rows record for it; these are the minutes of the renewals that were
-- answered as carried out, replays not counted; and of the calls under one key at most one was
-- carried out.
pub audit_accounts :
    (lease_id key : String) (cs : List Call) (db : Db) (row : LeaseRow)
    → lookup lease_id db.leases ≡ some row
    → db.config_audit ≡ []
    → (expiry lease_id (perform_all cs db)
        ≡ some (row.expires_at + 60 * audited_minutes lease_id (perform_all cs db).config_audit))
      × (audited_minutes lease_id (perform_all cs db).config_audit ≡ carried_minutes lease_id cs db)
      × (carried_under key cs db ≤ 1)
unfolding audited_minutes
audit_accounts lease_id key cs db row found start =
    let none_yet : audited_minutes lease_id db.config_audit ≡ 0 = rw start refl in
    let once = carried_under-once key cs db in
    (
      perform_all-Accounts lease_id row.expires_at cs db (ground arith),
      omega (arith, carried-audited_minutes lease_id cs db),
      ground arith,
    )
