-- ===== src/Cost/BudgetGate/Admission.antt =====
-- What one call of src/pitwall/cost/budget_gate.py does on each path.
use pitwall_gpu_broker.Cost.BudgetGate.{
  per_request_cap, monthly_budget, id_taken, rejected, existing_for, BudgetSnapshot, new_row,
  RejectionReason, current_mtd_spend, WorkloadRow, LaunchCall, snapshot, BudgetGate,
  try_launch_admission, find_by_key,
}
use pitwall_gpu_broker.Prelude.{
  ◌+◌, ◌-◌, ◌≤◌, ◌<◌, String, ◌≡◌, refl, ◌≢◌, ◌↔◌, Bool, true, false, none, some, List, [], ◌∷◌,
  ◌++◌, arith, eq_iff, ok, err,
}

-- What has to hold for a call to insert its row.
pub record Admissible (g : BudgetGate) (c : LaunchCall) (table : List WorkloadRow) : Type 0 where
  pub positive : 0 < c.estimate_usd
  pub below_cap : c.estimate_usd ≤ g.per_request_max_usd
  pub within_budget : current_mtd_spend c.month_start table + c.estimate_usd ≤ g.monthly_budget_usd
  pub hook_passes : c.hook_raises ≡ false
  pub key_is_new : existing_for c.idempotency_key table ≡ none
  pub id_is_new : id_taken c.fresh_id table ≡ false

-- A call inserts a row exactly under these conditions, and then the row holds its arguments, is
-- queued, and stands behind the rows that were there.
admission_iff :
    (g : BudgetGate) (c : LaunchCall) (table : List WorkloadRow)
    → (try_launch_admission g c table
        ≡ (ok (record { workload_id = c.fresh_id; is_new = true }), table ++ new_row c ∷ []))
      ↔ Admissible g c table
unfolding try_launch_admission
admission_iff g c table = (λ h. ground arith, λ h. ground arith)

-- A call that does not report a new row leaves the table as it was, errors included.
unless_new_unchanged :
    (g : BudgetGate) (c : LaunchCall) (table : List WorkloadRow)
    → ((i : String)
        → (try_launch_admission g c table).0 ≢ ok (record { workload_id = i; is_new = true }))
    → (try_launch_admission g c table).1 ≡ table
unfolding try_launch_admission
unless_new_unchanged g c table h = ground (arith, h c.fresh_id)

find-append :
    (key : String) (xs ys : List WorkloadRow)
    → find_by_key key (xs ++ ys)
      ≡ elim (find_by_key key xs) [ none ↦ find_by_key key ys | some i ↦ some i ]
unfolding find_by_key
find-append key [] ys = refl
find-append key (w ∷ xs) ys = ground (arith, find-append key xs ys)

-- After an admission under a key, a call with that key and a positive estimate returns the same
-- workload and changes nothing, whatever else it asks for, even if the budget or the hook would
-- refuse it.
pub key_replay :
    (g : BudgetGate) (c again : LaunchCall) (key i : String) (table : List WorkloadRow) {new : Bool}
    → c.idempotency_key ≡ some key
    → again.idempotency_key ≡ some key
    → 0 < again.estimate_usd
    → (try_launch_admission g c table).0 ≡ ok (record { workload_id = i; is_new = new })
    → let table' = (try_launch_admission g c table).1 in
      try_launch_admission g again table'
      ≡ (ok (record { workload_id = i; is_new = false }), table')
unfolding try_launch_admission find_by_key
key_replay g c again key i table keyed same pos h =
    ground (arith, find-append key table (new_row c ∷ []), eq_iff key key)

-- A monthly rejection reports the spend that the lock saw and what it leaves of the budget, which
-- is less than the estimate; a rejection at the cap reports no spend and the whole budget,
-- whatever has been spent.
rejection_snapshot :
    (g : BudgetGate) (c : LaunchCall) (table : List WorkloadRow) (reason : RejectionReason)
    (s : BudgetSnapshot)
    → (try_launch_admission g c table).0 ≡ err (rejected reason s)
    → (reason ≡ monthly_budget
        → (s.mtd_spend_usd ≡ current_mtd_spend c.month_start table)
          × (s.budget_remaining_usd ≡ g.monthly_budget_usd - s.mtd_spend_usd)
          × (s.budget_remaining_usd < c.estimate_usd))
      × (reason ≡ per_request_cap
          → (s.mtd_spend_usd ≡ 0)
            × (s.budget_remaining_usd ≡ g.monthly_budget_usd)
            × (g.per_request_max_usd < c.estimate_usd))
unfolding try_launch_admission snapshot
rejection_snapshot g c table reason s h = ground arith
