-- ===== src/Tests/SubBudgeting.antt =====
-- Tests of the sub-budget gate and of chargeback (src/pitwall/cost/sub_budgets.py).
use pitwall_gpu_broker.Cost.BudgetGate.{
  LaunchCall, try_launch_admission, current_mtd_spend, id_taken, find_by_key,
}
use pitwall_gpu_broker.Cost.SubBudgets.{
  SubBudgetConfig, validate_budgets_sum, allocation_in, SubBudgetGate, Spending, spent,
  validate_new_tag, finish_launch, try_launch,
}
use pitwall_gpu_broker.Cost.SubBudgets.Report.{CostedWorkload, generate_chargeback_report}
use pitwall_gpu_broker.Cost.SubBudgets.Ceiling.{
  launch_each, admitted, total_spent, sub_budgets_hold,
}
use pitwall_gpu_broker.Cost.SubBudgets.Chargeback.{all_costs, costs_with, line_of, chargeback_exact}
use pitwall_gpu_broker.Prelude.{
  ◌≤◌, String, ◌≡◌, refl, false, Option, none, some, List, [], ◌∷◌, map, str_eq, if◌then◌else◌,
  length, ok,
}

abbrev config : SubBudgetConfig
config = record {
  total_budget_usd = 100;
  budgets =
      record { tag = "chat"; allocation_usd = 30 }
      ∷ record { tag = "train"; allocation_usd = 60 }
      ∷ [];
}

abbrev gate : SubBudgetGate
gate = record {
  budget_gate = record { monthly_budget_usd = 100; per_request_max_usd = 50 };
  config = config;
  tag_mtd_spend = none;
}

abbrev launch : LaunchCall
launch = record {
  capability_id = "cap";
  provider_id = "prov";
  estimate_usd = 20;
  workload_type = "inference";
  submitted_at = 5;
  idempotency_key = none;
  fresh_id = "w1";
  hook_raises = false;
  month_start = 1;
}

abbrev calls : List (String × LaunchCall)
calls =
    ("chat", launch)
    ∷ ("chat", record launch { fresh_id = "w2" })
    ∷ ("train", record launch { fresh_id = "w3"; idempotency_key = some "k" })
    ∷ ("other", record launch { fresh_id = "w4" })
    ∷ []

abbrev fresh : Spending
fresh = record { memory_spend = []; table = [] }

is_valid : validate_budgets_sum config ≡ ok config
unfolding validate_budgets_sum
is_valid = refl

chat_spent : spent "chat" (launch_each gate calls fresh).memory_spend ≡ 20
unfolding launch_each try_launch validate_new_tag finish_launch try_launch_admission
    current_mtd_spend id_taken find_by_key
chat_spent = refl

sub_budgets_hold_example :
    ((tag : String)
      → (spent tag (launch_each gate calls fresh).memory_spend ≡ admitted gate tag calls fresh)
        × (spent tag (launch_each gate calls fresh).memory_spend
            ≤ allocation_in tag config.budgets))
    × (total_spent config.budgets (launch_each gate calls fresh).memory_spend ≤ 100)
sub_budgets_hold_example = sub_budgets_hold gate calls [] is_valid refl

-- Two calls that both read the spend before either of them is admitted: both are, and one is counted.
both_read : (validate_new_tag gate "chat" 20 []) ≡ ok 0
unfolding validate_new_tag
both_read = refl

abbrev first_done : Spending
first_done = (finish_launch gate "chat" launch 0 fresh).1

lost_update :
    (length (finish_launch gate "chat" (record launch { fresh_id = "w2" }) 0 first_done).1.table
      ≡ 2)
    × (spent "chat"
          (finish_launch gate "chat"
            (record launch { fresh_id = "w2" })
            0
            first_done).1.memory_spend
        ≡ 20)
unfolding finish_launch try_launch_admission current_mtd_spend id_taken
lost_update = (refl, refl)

abbrev workloads : List CostedWorkload
workloads =
    record { workload_id = "w1"; cost_actual_usd = some 7; cost_estimate_usd = some 20 }
    ∷ record { workload_id = "w2"; cost_actual_usd = none; cost_estimate_usd = some 5 }
    ∷ record { workload_id = "w3"; cost_actual_usd = none; cost_estimate_usd = none }
    ∷ []

abbrev tag_of : CostedWorkload → Option String
tag_of w = if str_eq w.workload_id "w1" then some "chat" else none

chargeback_exact_example :
    ((generate_chargeback_report config workloads tag_of).total_spend_usd
      ≡ all_costs tag_of workloads)
    × ((generate_chargeback_report config workloads tag_of).unallocated_spend_usd
        ≡ costs_with tag_of none workloads)
    × ((generate_chargeback_report config workloads tag_of).line_items
        ≡ map (line_of tag_of workloads) config.budgets)
chargeback_exact_example = chargeback_exact config workloads tag_of

total_is : (generate_chargeback_report config workloads tag_of).total_spend_usd ≡ 12
unfolding generate_chargeback_report
total_is = refl
