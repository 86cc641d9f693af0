-- ===== src/Cost/SubBudgets.antt =====
-- src/pitwall/cost/sub_budgets.py: the sub-budget gate in front of the budget gate. Amounts are
-- counted in units of one fixed scale, as in Cost/BudgetGate.antt, so that rounding to it changes
-- nothing. `hook_raises` of a launch call is set by the gate.
pub mod Ceiling
pub mod Report
pub mod Chargeback
use pitwall_gpu_broker.Cost.BudgetGate.{
  WorkloadRow, BudgetGate, LaunchCall, AdmissionError, hook_failed, not_positive, BudgetAdmission,
  try_launch_admission,
}
use pitwall_gpu_broker.Prelude.Dict.{Dict, lookup, insert}
use pitwall_gpu_broker.Prelude.{
  ℕ, ◌+◌, ◌-◌, String, Bool, true, false, ◌||◌, Option, none, some, List, [], ◌∷◌, ltb, ◌==◌,
  str_eq, if◌then◌else◌, Result, ok, err,
}

pub record SubBudget : Type 0 where
  pub tag : String
  pub allocation_usd : ℕ

pub record SubBudgetConfig : Type 0 where
  pub total_budget_usd : ℕ
  pub budgets : List SubBudget

pub data ConfigError : Type 0 where
  duplicate_tags exceeds_total : ConfigError

abbrev pub has_tag : String → List SubBudget → Bool
has_tag tag [] = false
has_tag tag (b ∷ bs) = str_eq b.tag tag || has_tag tag bs

abbrev pub has_duplicates : List SubBudget → Bool
has_duplicates [] = false
has_duplicates (b ∷ bs) = has_tag b.tag bs || has_duplicates bs

abbrev pub allocated : List SubBudget → ℕ
allocated [] = 0
allocated (b ∷ bs) = b.allocation_usd + allocated bs

-- `_validate_budgets_sum`
unfoldable pub validate_budgets_sum : SubBudgetConfig → Result ConfigError SubBudgetConfig
validate_budgets_sum c =
    if has_duplicates c.budgets
    then err duplicate_tags
    else if ltb c.total_budget_usd (allocated c.budgets)
    then err exceeds_total
    else ok c

-- `allocation_for`
abbrev pub allocation_in : String → List SubBudget → ℕ
allocation_in tag [] = 0
allocation_in tag (b ∷ bs) = if str_eq b.tag tag then b.allocation_usd else allocation_in tag bs

pub data SubBudgetReason : Type 0 where
  unknown_tag sub_budget : SubBudgetReason

pub record SubBudgetSnapshot : Type 0 where
  pub tag : String
  pub tag_allocation_usd : ℕ
  pub tag_mtd_spend_usd : ℕ
  pub tag_estimate_usd : ℕ
  pub tag_remaining_usd : ℕ

pub data SubBudgetError : Type 0 where
  sub_budget_rejected : SubBudgetReason → SubBudgetSnapshot → SubBudgetError
  from_gate : AdmissionError → SubBudgetError

-- The gate; `tag_mtd_spend` is the resolver that may be given.
pub record SubBudgetGate : Type 0 where
  pub budget_gate : BudgetGate
  pub config : SubBudgetConfig
  pub tag_mtd_spend : Option (String → ℕ)

-- What the gate remembers, and the table of workloads.
pub record Spending : Type 0 where
  pub memory_spend : Dict ℕ
  pub table : List WorkloadRow

abbrev pub or_zero : Option ℕ → ℕ
or_zero none = 0
or_zero (some amount) = amount

abbrev pub spent : String → Dict ℕ → ℕ
spent tag memory = or_zero (lookup tag memory)

-- `_current_tag_spend`
abbrev pub current_tag_spend : Option (String → ℕ) → String → Dict ℕ → ℕ
current_tag_spend (some resolver) tag memory = resolver tag
current_tag_spend none tag memory = spent tag memory

-- `_validate_new_tag_admission`
unfoldable pub validate_new_tag : SubBudgetGate → String → ℕ → Dict ℕ → Result SubBudgetError ℕ
validate_new_tag g tag estimate memory =
    let allocation = allocation_in tag g.config.budgets in
    let mtd = current_tag_spend g.tag_mtd_spend tag memory in
    if allocation == 0
    then err (
        sub_budget_rejected unknown_tag (record {
          tag = tag;
          tag_allocation_usd = allocation;
          tag_mtd_spend_usd = 0;
          tag_estimate_usd = estimate;
          tag_remaining_usd = 0;
        }))
    else if ltb allocation (mtd + estimate)
    then err (
        sub_budget_rejected sub_budget (record {
          tag = tag;
          tag_allocation_usd = allocation;
          tag_mtd_spend_usd = mtd;
          tag_estimate_usd = estimate;
          tag_remaining_usd = allocation - mtd;
        }))
    else ok mtd

abbrev pub Launched : Type 0
Launched = Result SubBudgetError BudgetAdmission × Spending

-- What follows the budget gate: a new row is counted on top of what was read.
abbrev pub counted :
    String → ℕ → ℕ → Result AdmissionError BudgetAdmission × List WorkloadRow → Dict ℕ → Launched
counted tag estimate mtd (err e, table) memory =
    (err (from_gate e), record { memory_spend = memory; table = table })
counted tag estimate mtd (ok a, table) memory = (
  ok a,
  record {
    memory_spend = if a.is_new then insert tag (mtd + estimate) memory else memory;
    table = table;
  },
)

-- A call without a key, once its spend was read.
unfoldable pub finish_launch : SubBudgetGate → String → LaunchCall → ℕ → Spending → Launched
finish_launch g tag c mtd s =
    counted tag c.estimate_usd mtd
      (try_launch_admission g.budget_gate (record c { hook_raises = false }) s.table) s.memory_spend

abbrev pub launch_unkeyed :
    SubBudgetGate → String → LaunchCall → Result SubBudgetError ℕ → Spending → Launched
launch_unkeyed g tag c (err e) s = (err e, s)
launch_unkeyed g tag c (ok mtd) s = finish_launch g tag c mtd s

-- What the hook raised comes out of the budget gate.
abbrev pub raised_by :
    SubBudgetError → Result AdmissionError BudgetAdmission × List WorkloadRow → Dict ℕ → Launched
raised_by hook (err hook_failed, table) memory =
    (err hook, record { memory_spend = memory; table = table })
raised_by hook (err e, table) memory =
    (err (from_gate e), record { memory_spend = memory; table = table })
raised_by hook (ok a, table) memory = (ok a, record { memory_spend = memory; table = table })

-- A call with a key: the hook checks the tag where the key is new.
abbrev pub launch_keyed :
    SubBudgetGate → String → LaunchCall → Result SubBudgetError ℕ → Spending → Launched
launch_keyed g tag c (err e) s =
    raised_by e (try_launch_admission g.budget_gate (record c { hook_raises = true }) s.table)
      s.memory_spend
launch_keyed g tag c (ok mtd) s = finish_launch g tag c mtd s

abbrev pub launch_by_key :
    SubBudgetGate
    → String
    → LaunchCall
    → Option String
    → Result SubBudgetError ℕ
    → Spending
    → Launched
launch_by_key g tag c none checked s = launch_unkeyed g tag c checked s
launch_by_key g tag c (some key) checked s = launch_keyed g tag c checked s

-- `try_launch`, where no other call of the gate comes between its steps.
unfoldable pub try_launch : SubBudgetGate → String → LaunchCall → Spending → Launched
unfolding validate_new_tag finish_launch
try_launch g tag c s =
    if c.estimate_usd == 0
    then (err (from_gate not_positive), s)
    else launch_by_key g tag c c.idempotency_key
        (validate_new_tag g tag c.estimate_usd s.memory_spend) s
