-- ===== src/Cost/SyncGate.antt =====
-- src/pitwall/cost/sync_gate.py: how `gate_sync_inference` reserves an idempotency key
-- (src/pitwall/core/idempotency.py), admits a workload and stores its input. Bodies stand as their
-- canonical JSON text, and the hash of one is a function that is given. The call of the provider
-- and what is stored after it are left out.
pub mod Reuse
use pitwall_gpu_broker.Cost.BudgetGate.{
  WorkloadRow, BudgetGate, LaunchCall, AdmissionError, BudgetAdmission, try_launch_admission,
}
use pitwall_gpu_broker.Prelude.Dict.{Dict, lookup, insert}
use pitwall_gpu_broker.Prelude.Text.{take_chars, join_text}
use pitwall_gpu_broker.Prelude.{
  String, Bool, true, false, Option, none, some, List, str_eq, if◌then◌else◌, Result, ok, err,
}

pub record IdempotencyReservation : Type 0 where
  pub is_new : Bool
  pub workload_id : String

-- `IdempotencyMismatch` with the original workload, or what the budget gate raises.
pub data SyncError : Type 0 where
  idempotency_mismatch : String → SyncError
  budget : AdmissionError → SyncError

abbrev pub compare_input :
    (String → String) → String → String → Option String → Result SyncError IdempotencyReservation
compare_input hash body_hash existing none = ok (record { is_new = false; workload_id = existing })
compare_input hash body_hash existing (some input) =
    if str_eq (hash input) body_hash
    then ok (record { is_new = false; workload_id = existing })
    else err (idempotency_mismatch existing)

abbrev pub reserve_found :
    (String → String)
    → String
    → String
    → String
    → Option String
    → Dict String
    → Dict String
    → Result SyncError IdempotencyReservation × Dict String
reserve_found hash key body_hash workload_id none inputs keys =
    (ok (record { is_new = true; workload_id = workload_id }), insert key workload_id keys)
reserve_found hash key body_hash workload_id (some existing) inputs keys =
    (compare_input hash body_hash existing (lookup existing inputs), keys)

-- `reserve_idempotency_key`; `inputs` holds the input of each workload that has one.
unfoldable pub reserve_idempotency_key :
    (String → String)
    → String
    → String
    → String
    → Dict String
    → Dict String
    → Result SyncError IdempotencyReservation × Dict String
reserve_idempotency_key hash key body_hash workload_id inputs keys =
    reserve_found hash key body_hash workload_id (lookup key keys) inputs keys

-- `wkl_pending_{idempotency_key[:16]}`
abbrev pub pending_id : String → String
pending_id key = join_text "wkl_pending_" (take_chars 16 key)

pub record SyncState : Type 0 where
  pub keys : Dict String
  pub inputs : Dict String
  pub table : List WorkloadRow

pub record SyncCall : Type 0 where
  pub launch : LaunchCall
  pub payload : String
  pub input_payload : String

pub data SyncAnswer : Type 0 where
  executed replayed : String → SyncAnswer

abbrev pub Synced : Type 0
Synced = Result SyncError SyncAnswer × SyncState

abbrev pub after_admission :
    SyncCall
    → Dict String
    → Result AdmissionError BudgetAdmission × List WorkloadRow
    → SyncState
    → Synced
after_admission c keys (err e, table) s = (err (budget e), record s { keys = keys; table = table })
after_admission c keys (ok a, table) s =
    if a.is_new
    then (
      ok (executed a.workload_id),
      record { keys = keys; inputs = insert a.workload_id c.input_payload s.inputs; table = table },
    )
    else (ok (replayed a.workload_id), record s { keys = keys; table = table })

abbrev pub admit_sync : BudgetGate → SyncCall → Dict String → SyncState → Synced
admit_sync g c keys s =
    after_admission c keys
      (try_launch_admission g (record c.launch { hook_raises = false }) s.table) s

abbrev pub when_reserved :
    BudgetGate
    → SyncCall
    → Result SyncError IdempotencyReservation × Dict String
    → SyncState
    → Synced
when_reserved g c (err e, keys) s = (err e, s)
when_reserved g c (ok r, keys) s = admit_sync g c keys s

abbrev pub gate_by_key :
    (String → String) → BudgetGate → SyncCall → Option String → SyncState → Synced
gate_by_key hash g c none s = admit_sync g c s.keys s
gate_by_key hash g c (some key) s =
    when_reserved g c
      (reserve_idempotency_key hash key (hash c.payload) (pending_id key) s.inputs s.keys) s

-- `gate_sync_inference`, up to the call of the provider.
unfoldable pub gate_sync_inference : (String → String) → BudgetGate → SyncCall → SyncState → Synced
unfolding reserve_idempotency_key
gate_sync_inference hash g c s = gate_by_key hash g c c.launch.idempotency_key s
