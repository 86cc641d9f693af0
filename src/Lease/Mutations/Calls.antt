-- ===== src/Lease/Mutations/Calls.antt =====
-- Calls of the lease mutations of src/pitwall/db/repository.py, what they are told, and what the
-- audit rows record.
use pitwall_gpu_broker.Lease.Mutations.{patch_settings, renew, Request}
use pitwall_gpu_broker.Lease.Tables.{
  renewed, patched, AuditRow, AuditChange, Db, MutationError, LeaseMutationResult,
}
use pitwall_gpu_broker.Prelude.{
  ℕ, ◌+◌, String, Bool, false, not, ◌&&◌, Option, none, some, List, [], ◌∷◌, str_eq, if◌then◌else◌,
  Result, ok, err,
}

-- A call of one of the two mutations.
pub data Call : Type 0 where
  renew_call : Request → ℕ → ℕ → ℕ → Call
  patch_call : Request → Option String → Option Bool → Call

unfoldable pub perform : Call → Db → Db
perform (renew_call req extends horizon now) db = (renew req extends horizon now db).1
perform (patch_call req policy teardown) db = (patch_settings req policy teardown db).1

unfoldable pub answer : Call → Db → Result MutationError (Option LeaseMutationResult)
answer (renew_call req extends horizon now) db = (renew req extends horizon now db).0
answer (patch_call req policy teardown) db = (patch_settings req policy teardown db).0

-- Calls that come in one after the other: the row lock orders those that concern one lease.
unfoldable pub perform_all : List Call → Db → Db
perform_all [] db = db
perform_all (c ∷ cs) db = perform_all cs (perform c db)

abbrev pub minutes_of : AuditChange → ℕ
minutes_of (renewed _ _ minutes) = minutes
minutes_of (patched _ _) = 0

-- The minutes that the audit says were added to one lease.
unfoldable pub audited_minutes : String → List AuditRow → ℕ
audited_minutes lease_id [] = 0
audited_minutes lease_id (a ∷ rows) =
    (if str_eq a.entity_id lease_id then minutes_of a.change else 0) + audited_minutes lease_id rows

-- The answer reports a mutation that this call made, and no replay.
abbrev pub is_carried : Result MutationError (Option LeaseMutationResult) → Bool
is_carried (ok (some res)) = not res.replayed
is_carried (ok none) = false
is_carried (err e) = false

abbrev pub minutes_asked : String → Call → ℕ
minutes_asked lease_id (renew_call req extends horizon now) =
    if str_eq req.lease_id lease_id then extends else 0
minutes_asked lease_id (patch_call req policy teardown) = 0

-- The minutes that callers were told to have added to one lease.
unfoldable pub carried_minutes : String → List Call → Db → ℕ
carried_minutes lease_id [] db = 0
carried_minutes lease_id (c ∷ cs) db =
    (if is_carried (answer c db) then minutes_asked lease_id c else 0)
    + carried_minutes lease_id cs (perform c db)

abbrev pub matches_key : String → Option String → Bool
matches_key key none = false
matches_key key (some k) = str_eq k key

abbrev pub has_key : String → Call → Bool
has_key key (renew_call req extends horizon now) = matches_key key req.idempotency_key
has_key key (patch_call req policy teardown) = matches_key key req.idempotency_key

-- How many of the calls under one key were carried out.
unfoldable pub carried_under : String → List Call → Db → ℕ
carried_under key [] db = 0
carried_under key (c ∷ cs) db =
    (if is_carried (answer c db) && has_key key c then 1 else 0)
    + carried_under key cs (perform c db)
