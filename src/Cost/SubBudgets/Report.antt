-- ===== src/Cost/SubBudgets/Report.antt =====
-- `generate_chargeback_report` of src/pitwall/cost/sub_budgets.py.
use pitwall_gpu_broker.Cost.SubBudgets.{SubBudget, SubBudgetConfig, spent}
use pitwall_gpu_broker.Prelude.Dict.{Dict, insert}
use pitwall_gpu_broker.Prelude.{ℕ, ◌+◌, ◌-◌, String, Option, none, some, List, [], ◌∷◌}

pub record ChargebackLineItem : Type 0 where
  pub tag : String
  pub allocation_usd : ℕ
  pub spend_usd : ℕ
  pub remaining_usd : ℕ

pub record ChargebackReport : Type 0 where
  pub total_spend_usd : ℕ
  pub line_items : List ChargebackLineItem
  pub unallocated_spend_usd : ℕ

-- The costs that a workload carries, where they are decimal values.
pub record CostedWorkload : Type 0 where
  pub workload_id : String
  pub cost_actual_usd : Option ℕ
  pub cost_estimate_usd : Option ℕ

abbrev pub cost_of : CostedWorkload → Option ℕ
cost_of w = elim w.cost_actual_usd [ some cost ↦ some cost | none ↦ w.cost_estimate_usd ]

pub record Tally : Type 0 where
  pub tag_spend : Dict ℕ
  pub unallocated : ℕ

abbrev pub attribute : Option String → ℕ → Tally → Tally
attribute none cost t = record t { unallocated = t.unallocated + cost }
attribute (some tag) cost t = record t {
  tag_spend = insert tag (spent tag t.tag_spend + cost) t.tag_spend;
}

abbrev pub tally_one : (CostedWorkload → Option String) → CostedWorkload → Option ℕ → Tally → Tally
tally_one resolver w none t = t
tally_one resolver w (some cost) t = attribute (resolver w) cost t

abbrev pub tally : (CostedWorkload → Option String) → List CostedWorkload → Tally → Tally
tally resolver [] t = t
tally resolver (w ∷ ws) t = tally resolver ws (tally_one resolver w (cost_of w) t)

abbrev pub sum_values : Dict ℕ → ℕ
sum_values [] = 0
sum_values ((k, v) ∷ d) = v + sum_values d

abbrev pub line_items_of : List SubBudget → Dict ℕ → List ChargebackLineItem
line_items_of [] spend = []
line_items_of (b ∷ bs) spend =
    record {
      tag = b.tag;
      allocation_usd = b.allocation_usd;
      spend_usd = spent b.tag spend;
      remaining_usd = b.allocation_usd - spent b.tag spend;
    }
    ∷ line_items_of bs spend

-- `generate_chargeback_report`; without a resolver, every workload has no tag.
unfoldable pub generate_chargeback_report :
    SubBudgetConfig → List CostedWorkload → (CostedWorkload → Option String) → ChargebackReport
generate_chargeback_report config workloads resolver =
    let t = tally resolver workloads (record { tag_spend = []; unallocated = 0 }) in
    record {
      total_spend_usd = sum_values t.tag_spend + t.unallocated;
      line_items = line_items_of config.budgets t.tag_spend;
      unallocated_spend_usd = t.unallocated;
    }
