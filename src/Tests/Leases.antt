-- ===== src/Tests/Leases.antt =====
-- Tests of the lease lifecycle (src/pitwall/leases/state.py) and of the lease mutations
-- (src/pitwall/db/repository.py).
use pitwall_gpu_broker.Lease.Service.{Payload, renewal, settings, renew_lease, idempotency_conflict}
use pitwall_gpu_broker.Lease.Service.Keys.{key_stands_for_call}
use pitwall_gpu_broker.Prelude.Dict.{lookup, insert}
use pitwall_gpu_broker.Lease.Lifecycle.{coerce_roundtrip, transition_iff_Step, Step}
use pitwall_gpu_broker.Lease.Mutations.Branches.{renew_iff_Renews}
use pitwall_gpu_broker.Lease.Mutations.Cases.{Renews, my_reservation, renewed_tables}
use pitwall_gpu_broker.Lease.Mutations.{renew, patch_settings, same_request, Request}
use pitwall_gpu_broker.Lease.Tables.{LeaseRow, Db, LeaseMutationResult, Reservation}
use pitwall_gpu_broker.Lease.{
  value, LeaseState, coerce_lease_state, transition_lease_state, stopping, member, text,
}
use pitwall_gpu_broker.Lease.Mutations.Audit.{audit_accounts, expiry}
use pitwall_gpu_broker.Lease.Mutations.Calls.{
  Call, renew_call, patch_call, perform, perform_all, answer, audited_minutes, carried_minutes,
  carried_under,
}
use pitwall_gpu_broker.Prelude.{
  eq_iff, arith, ◌≤◌, String, contains, ◌+◌, ◌*◌, ◌≡◌, refl, ◌↔◌, true, false, none, some, List, [],
  ◌∷◌, ok, err,
}

transition_iff_Step_example :
    (transition_lease_state (text "active") (member stopping) ≡ ok stopping) ↔ (
      (s : LeaseState) × (coerce_lease_state (text "active") ≡ ok s)
      × (coerce_lease_state (member stopping) ≡ ok stopping)
      × Step s stopping)
transition_iff_Step_example = transition_iff_Step (text "active") (member stopping) stopping

coerce_roundtrip_example :
    (coerce_lease_state (text "failed") ≡ ok LeaseState.failed)
    ↔ ("failed" ≡ value LeaseState.failed)
coerce_roundtrip_example = coerce_roundtrip "failed" LeaseState.failed

abbrev lease_a : LeaseRow
lease_a = record {
  id = "lease-a";
  state = "active";
  expires_at = 6000;
  renewal_policy = "manual";
  auto_teardown_on_expiry = true;
}

abbrev lease_b : LeaseRow
lease_b = record {
  id = "lease-b";
  state = "stopped";
  expires_at = 100;
  renewal_policy = "manual";
  auto_teardown_on_expiry = false;
}

abbrev tables : Db
tables = record {
  leases = ("lease-a", lease_a) ∷ ("lease-b", lease_b) ∷ [];
  mutation_keys = [];
  config_audit = [];
}

abbrev renew_a : Request
renew_a = record {
  lease_id = "lease-a";
  actor = "ops";
  idempotency_key = some "k1";
  request_hash = "h1";
}

abbrev renew_b : Request
renew_b = record {
  lease_id = "lease-b";
  actor = "ops";
  idempotency_key = some "k1";
  request_hash = "h2";
}

abbrev extended : LeaseRow
extended = record lease_a { expires_at = 6600 }

abbrev outcome : LeaseMutationResult
outcome = record { lease = extended; replayed = false }

renew-runs : (renew renew_a 10 43200 5000 tables).0 ≡ ok (some outcome)
unfolding renew contains
renew-runs = refl

-- The tables after the renewal.
abbrev renewed_a : Db
renewed_a =
    renewed_tables renew_a 10 43200 5000 lease_a
      (insert "k1" (my_reservation renew_a 10 43200 5000) []) tables

renew_iff_Renews_example :
    (renew renew_a 10 43200 5000 tables ≡ (ok (some outcome), renewed_a))
    ↔ Renews renew_a 10 43200 5000 tables (ok (some outcome)) renewed_a
renew_iff_Renews_example =
    renew_iff_Renews renew_a 10 43200 5000 tables renewed_a (ok (some outcome))

renew-tables : renew renew_a 10 43200 5000 tables ≡ (ok (some outcome), renewed_a)
unfolding renew contains
renew-tables = refl

abbrev reserved : Reservation
reserved = record { lease_id = "lease-a"; operation = "renew"; request_hash = "h1"; actor = "ops" }

abbrev calls : List Call
calls =
    renew_call renew_a 10 43200 5000
    ∷ renew_call renew_a 10 43200 6000
    ∷ patch_call renew_b none none
    ∷ []

audit_accounts_example :
    (expiry "lease-a" (perform_all calls tables)
      ≡ some (6000 + 60 * audited_minutes "lease-a" (perform_all calls tables).config_audit))
    × (audited_minutes "lease-a" (perform_all calls tables).config_audit
        ≡ carried_minutes "lease-a" calls tables)
    × (carried_under "k1" calls tables ≤ 1)
audit_accounts_example = audit_accounts "lease-a" "k1" calls tables lease_a refl refl

carried : (carried_minutes "lease-a" calls tables ≡ 10) × (carried_under "k1" calls tables ≡ 1)
unfolding carried_minutes carried_under perform answer renew patch_settings contains same_request
carried = (refl, refl)

abbrev hash_of : Payload → String
hash_of (renewal lease_id minutes) = lease_id
hash_of (settings lease_id policy teardown) = "settings"

service-runs : (renew_lease hash_of "lease-a" 10 "ops" (some "k1") 5000 tables).0 ≡ ok extended
unfolding renew_lease renew contains
service-runs = refl

other-row :
    lookup "lease-b" (renew_lease hash_of "lease-a" 10 "ops" (some "k1") 5000 tables).1.leases
    ≡ some lease_b
unfolding renew_lease renew contains
other-row = refl

key_stands_for_call_example :
    let db' = (renew_lease hash_of "lease-a" 10 "ops" (some "k1") 5000 tables).1 in
    (renew_lease hash_of "lease-a" 10 "ops" (some "k1") 7000 db' ≡ (ok extended, db'))
    × (renew_lease hash_of "lease-b" 20 "dev" (some "k1") 7000 db'
        ≡ (err (idempotency_conflict "k1"), db'))
key_stands_for_call_example =
    key_stands_for_call hash_of "lease-a" "lease-b" "ops" "dev" "k1" 10 20 5000 7000 tables lease_b
      service-runs other-row (omega arith) (omega arith)
      (λ e. cc ((eq_iff "lease-b" "lease-a").1 e))
