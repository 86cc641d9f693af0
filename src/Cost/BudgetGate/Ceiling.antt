-- ===== src/Cost/BudgetGate/Ceiling.antt =====
-- No sequence of admissions through src/pitwall/cost/budget_gate.py passes the monthly budget.
use pitwall_gpu_broker.Cost.BudgetGate.{
  new_row, try_launch_admission, WorkloadRow, LaunchCall, current_mtd_spend, BudgetGate,
}
use pitwall_gpu_broker.Prelude.{ℕ, ◌+◌, ◌≤◌, ◌≡◌, List, [], ◌∷◌, ◌++◌, arith}

spend-append :
    (month_start : ℕ) (xs ys : List WorkloadRow)
    → current_mtd_spend month_start (xs ++ ys)
      ≡ current_mtd_spend month_start xs + current_mtd_spend month_start ys
unfolding current_mtd_spend
spend-append month_start [] ys = omega arith
spend-append month_start (w ∷ xs) ys = omega (arith, spend-append month_start xs ys)

-- A later month counts fewer rows.
spend_later :
    (m m' : ℕ) (table : List WorkloadRow)
    → m ≤ m'
    → current_mtd_spend m' table ≤ current_mtd_spend m table
unfolding current_mtd_spend
spend_later m m' [] h = omega arith
spend_later m m' (w ∷ ws) h = ground (arith, spend_later m m' ws h)

module _ (g : BudgetGate) where
  launch-spend :
      (c : LaunchCall) (table : List WorkloadRow)
      → current_mtd_spend c.month_start table ≤ g.monthly_budget_usd
      → current_mtd_spend c.month_start (try_launch_admission g c table).1 ≤ g.monthly_budget_usd
  unfolding try_launch_admission current_mtd_spend
  launch-spend c table h = ground (arith, spend-append c.month_start table (new_row c ∷ []))

  -- The calls in the order in which they get the lock; the instants of a call do not go back.
  pub launch_all : List LaunchCall → List WorkloadRow → List WorkloadRow
  launch_all [] table = table
  launch_all (c ∷ cs) table = launch_all cs (try_launch_admission g c table).1

abbrev pub MonthsInOrder : ℕ → List LaunchCall → Type 0
MonthsInOrder m [] = Unit
MonthsInOrder m (c ∷ cs) = (m ≤ c.month_start) × MonthsInOrder c.month_start cs

abbrev pub last_month : ℕ → List LaunchCall → ℕ
last_month m [] = m
last_month m (c ∷ cs) = last_month c.month_start cs

-- Admissions alone never take the month-to-date spend past the budget: if it is within the budget
-- at the start, it is after any sequence of calls, in whatever order they get the lock, as long as
-- the starts of their months do not go back.
pub spend_ceiling :
    (g : BudgetGate) (cs : List LaunchCall) (m : ℕ) (table : List WorkloadRow)
    → current_mtd_spend m table ≤ g.monthly_budget_usd
    → MonthsInOrder m cs
    → current_mtd_spend (last_month m cs) (launch_all g cs table) ≤ g.monthly_budget_usd
unfolding launch_all
spend_ceiling g [] m table h order = h
spend_ceiling g (c ∷ cs) m table h order =
    spend_ceiling g cs c.month_start (try_launch_admission g c table).1
      (launch-spend g c table (omega (arith, spend_later m c.month_start table order.0))) order.1
