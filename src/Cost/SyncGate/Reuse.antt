-- ===== src/Cost/SyncGate/Reuse.antt =====
-- Keys that are used again with another body, in src/pitwall/cost/sync_gate.py.
use pitwall_gpu_broker.Cost.BudgetGate.{
  WorkloadRow, BudgetGate, LaunchCall, AdmissionError, BudgetAdmission, try_launch_admission,
}
use pitwall_gpu_broker.Cost.SyncGate.{
  SyncError, idempotency_mismatch, budget, reserve_found, reserve_idempotency_key, pending_id,
  SyncState, SyncCall, SyncAnswer, Synced, after_admission, admit_sync, when_reserved, gate_by_key,
  gate_sync_inference,
}
use pitwall_gpu_broker.Prelude.Dict.{Dict, lookup, insert, lookup-insert, found_at}
use pitwall_gpu_broker.Prelude.{
  String, ◌≡◌, refl, sym, ap, ◌∙◌, ◌≢◌, inl, inr, true, false, Option, none, some, List, [], ◌∷◌,
  arith, eq_iff, Bool-cases, All, Result, ok, err,
}

-- The answers to calls one after the other.
unfoldable pub sync_all :
    (String → String) → BudgetGate → List SyncCall → SyncState → List (Result SyncError SyncAnswer)
unfolding gate_sync_inference
sync_all hash g [] s = []
sync_all hash g (c ∷ cs) s =
    (gate_sync_inference hash g c s).0 ∷ sync_all hash g cs (gate_sync_inference hash g c s).1

-- Each key stands for its pending id, and no workload that has an input has a pending id.
record IsPending (s : SyncState) : Type 0 where
  reserved : (k w : String) → lookup k s.keys ≡ some w → w ≡ pending_id k
  unused : (k : String) → lookup (pending_id k) s.inputs ≡ none

abbrev pub NeverPending : SyncCall → Type 0
NeverPending c = (k : String) → c.launch.fresh_id ≢ pending_id k

abbrev pub NoMismatch : Result SyncError SyncAnswer → Type 0
NoMismatch (err (idempotency_mismatch w)) = ⊥
NoMismatch (err (budget e)) = Unit
NoMismatch (ok a) = Unit

abbrev Fine : Synced → Type 0
Fine r = NoMismatch r.0 × IsPending r.1

new_id :
    (g : BudgetGate) (c : LaunchCall) (table : List WorkloadRow) (a : BudgetAdmission)
    → (try_launch_admission g c table).0 ≡ ok a
    → a.is_new ≡ true
    → a.workload_id ≡ c.fresh_id
unfolding try_launch_admission
new_id g c table a h new = ground arith

module _ (g : BudgetGate) (c : SyncCall) (never : NeverPending c) (s : SyncState) where
  admitted-Fine :
      (keys : Dict String) (r : Result AdmissionError BudgetAdmission × List WorkloadRow)
      → ((k w : String) → lookup k keys ≡ some w → w ≡ pending_id k)
      → ((k : String) → lookup (pending_id k) s.inputs ≡ none)
      → ((a : BudgetAdmission) → r.0 ≡ ok a → a.is_new ≡ true → a.workload_id ≡ c.launch.fresh_id)
      → Fine (after_admission c keys r s)
  admitted-Fine keys (err e, table) at_keys unused fresh =
      (tt, record { reserved = at_keys; unused = unused })
  admitted-Fine keys (ok a, table) at_keys unused fresh = elim (Bool-cases a.is_new) [
    | inr old ↦ rw old (tt, record { reserved = at_keys; unused = unused })
    | inl new ↦
        let same = fresh a refl new in
        rw new (
          tt,
          record {
            reserved = at_keys;
            unused = λ k.
                let other : a.workload_id ≢ pending_id k = (λ e. never k (sym same ∙ e)) in
                let before = unused k in
                let put = lookup-insert a.workload_id (pending_id k) c.input_payload s.inputs in
                ground (arith, put, before, other, eq_iff a.workload_id (pending_id k));
          },
        )
  ]

  sync-Fine :
      (keys : Dict String)
      → ((k w : String) → lookup k keys ≡ some w → w ≡ pending_id k)
      → IsPending s
      → Fine (admit_sync g c keys s)
  sync-Fine keys at_keys p =
      admitted-Fine keys _ at_keys p.unused
        (new_id g (record c.launch { hook_raises = false }) s.table)

  keyed-Fine :
      (hash : String → String) (key : String) (found : Option String)
      → lookup key s.keys ≡ found
      → IsPending s
      → Fine (
          when_reserved g c
            (reserve_found hash key (hash c.payload) (pending_id key) found s.inputs s.keys)
            s)
  keyed-Fine hash key none h p = sync-Fine (insert key (pending_id key) s.keys) after p
    where
      after :
          (k w : String) → lookup k (insert key (pending_id key) s.keys) ≡ some w → w ≡ pending_id k
      after k w e = elim (found_at key k (pending_id key) w s.keys e) [
        | inl (same, is) ↦ sym is ∙ ap pending_id same
        | inr (differ, there) ↦ p.reserved k w there
      ]
  keyed-Fine hash key (some w) h p =
      let is = p.reserved key w h in
      let no_input : lookup w s.inputs ≡ none = rw is (p.unused key) in
      rw no_input (sync-Fine s.keys p.reserved p)

  gate-Fine : (hash : String → String) → IsPending s → Fine (gate_sync_inference hash g c s)
  unfolding gate_sync_inference reserve_idempotency_key
  gate-Fine hash p = go c.launch.idempotency_key
    where
      go : (key : Option String) → Fine (gate_by_key hash g c key s)
      go none = sync-Fine s.keys p.reserved p
      go (some key) = keyed-Fine hash key (lookup key s.keys) refl p

all-Fine :
    (hash : String → String) (g : BudgetGate) (cs : List SyncCall) (s : SyncState)
    → All NeverPending cs
    → IsPending s
    → All NoMismatch (sync_all hash g cs s)
unfolding sync_all
all-Fine hash g [] s never p = tt
all-Fine hash g (c ∷ cs) s never p =
    let (fine, p') = gate-Fine g c never.0 s hash p in
    (fine, all-Fine hash g cs (gate_sync_inference hash g c s).1 never.1 p')

-- The gate reserves a key for a pending id and not for the workload that it admits. So from empty
-- tables, where no workload gets a pending id, no call is refused for a key that was used with
-- another body, whatever the bodies and their hashes are.
pub mismatch_never_raised :
    (hash : String → String) (g : BudgetGate) (cs : List SyncCall)
    → All NeverPending cs
    → All NoMismatch (sync_all hash g cs (record { keys = []; inputs = []; table = [] }))
mismatch_never_raised hash g cs never =
    all-Fine hash g cs _ never (record { reserved = λ k w h. cc h; unused = λ k. refl })
