-- ===== src/Cost/BudgetGate.antt =====
-- src/pitwall/cost/budget_gate.py: the admission of a workload under the monthly budget. Amounts
-- are counted in units of one fixed scale. The advisory lock makes a call one transaction on the
-- table, which an exception rolls back.
pub mod Admission
pub mod Ceiling
use pitwall_gpu_broker.Prelude.{
  ℕ, ◌+◌, ◌-◌, String, Bool, true, false, not, ◌&&◌, ◌||◌, Option, none, some, List, [], ◌∷◌, ◌++◌,
  ltb, leb, ◌==◌, str_eq, if◌then◌else◌, is_some, Result, ok, err,
}

-- The columns of `pitwall.workloads` that the gate reads or writes.
pub record WorkloadRow : Type 0 where
  pub id : String
  pub capability_id : String
  pub provider_id : String
  pub workload_type : String
  pub state : String
  pub cost_estimate_usd : Option ℕ
  pub cost_actual_usd : Option ℕ
  pub submitted_at : ℕ
  pub idempotency_key : Option String

pub record BudgetGate : Type 0 where
  pub monthly_budget_usd : ℕ
  pub per_request_max_usd : ℕ

pub data RejectionReason : Type 0 where
  monthly_budget per_request_cap : RejectionReason

pub record BudgetSnapshot : Type 0 where
  pub monthly_budget_usd : ℕ
  pub per_request_max_usd : ℕ
  pub mtd_spend_usd : ℕ
  pub estimate_usd : ℕ
  pub budget_remaining_usd : ℕ

pub record BudgetAdmission : Type 0 where
  pub workload_id : String
  pub is_new : Bool

-- `hook_failed` stands for what `before_new_admission` raises, `unique_violation` for the primary
-- key of the table.
pub data AdmissionError : Type 0 where
  not_positive : AdmissionError
  rejected : RejectionReason → BudgetSnapshot → AdmissionError
  hook_failed : AdmissionError
  unique_violation : AdmissionError

-- The arguments of one call, with what it meets outside: the id that the factory makes, whether
-- the hook raises, and the start of the current month.
pub record LaunchCall : Type 0 where
  pub capability_id : String
  pub provider_id : String
  pub estimate_usd : ℕ
  pub workload_type : String
  pub submitted_at : ℕ
  pub idempotency_key : Option String
  pub fresh_id : String
  pub hook_raises : Bool
  pub month_start : ℕ

-- `COALESCE(cost_actual_usd, cost_estimate_usd)`; `SUM` skips a null.
abbrev pub coalesce : Option ℕ → Option ℕ → ℕ
coalesce (some actual) estimate = actual
coalesce none (some estimate) = estimate
coalesce none none = 0

-- `current_mtd_spend`, and the same query under the lock.
unfoldable pub current_mtd_spend : ℕ → List WorkloadRow → ℕ
current_mtd_spend month_start [] = 0
current_mtd_spend month_start (w ∷ ws) =
    (if leb month_start w.submitted_at then coalesce w.cost_actual_usd w.cost_estimate_usd else 0)
    + current_mtd_spend month_start ws

abbrev pub has_key : String → Option String → Bool
has_key key none = false
has_key key (some k) = str_eq k key

-- `SELECT id … WHERE idempotency_key = $1`
unfoldable pub find_by_key : String → List WorkloadRow → Option String
find_by_key key [] = none
find_by_key key (w ∷ ws) = if has_key key w.idempotency_key then some w.id else find_by_key key ws

unfoldable pub id_taken : String → List WorkloadRow → Bool
id_taken i [] = false
id_taken i (w ∷ ws) = str_eq w.id i || id_taken i ws

unfoldable pub snapshot : BudgetGate → ℕ → ℕ → BudgetSnapshot
snapshot g mtd_spend estimate = record {
  monthly_budget_usd = g.monthly_budget_usd;
  per_request_max_usd = g.per_request_max_usd;
  mtd_spend_usd = mtd_spend;
  estimate_usd = estimate;
  budget_remaining_usd = g.monthly_budget_usd - mtd_spend;
}

abbrev pub new_row : LaunchCall → WorkloadRow
new_row c = record {
  id = c.fresh_id;
  capability_id = c.capability_id;
  provider_id = c.provider_id;
  workload_type = c.workload_type;
  state = "queued";
  cost_estimate_usd = some c.estimate_usd;
  cost_actual_usd = none;
  submitted_at = c.submitted_at;
  idempotency_key = c.idempotency_key;
}

-- The part of the transaction behind the look-up of the key.
admit_new :
    BudgetGate
    → LaunchCall
    → List WorkloadRow
    → Result AdmissionError BudgetAdmission × List WorkloadRow
unfolding snapshot
admit_new g c table =
    let spend = current_mtd_spend c.month_start table in
    if c.hook_raises
    then (err hook_failed, table)
    else if ltb g.per_request_max_usd c.estimate_usd
    then (err (rejected per_request_cap (snapshot g 0 c.estimate_usd)), table)
    else if ltb g.monthly_budget_usd (spend + c.estimate_usd)
    then (err (rejected monthly_budget (snapshot g spend c.estimate_usd)), table)
    else if id_taken c.fresh_id table
    then (err unique_violation, table)
    else (ok (record { workload_id = c.fresh_id; is_new = true }), table ++ new_row c ∷ [])

abbrev pub existing_for : Option String → List WorkloadRow → Option String
existing_for none table = none
existing_for (some key) table = find_by_key key table

unfoldable pub try_launch_admission :
    BudgetGate
    → LaunchCall
    → List WorkloadRow
    → Result AdmissionError BudgetAdmission × List WorkloadRow
unfolding admit_new
try_launch_admission g c table =
    if c.estimate_usd == 0
    then (err not_positive, table)
    else if not (is_some c.idempotency_key) && ltb g.per_request_max_usd c.estimate_usd
    then (err (rejected per_request_cap (snapshot g 0 c.estimate_usd)), table)
    else elim (existing_for c.idempotency_key table) [
      | some existing_id ↦ (ok (record { workload_id = existing_id; is_new = false }), table)
      | none ↦ admit_new g c table
    ]
