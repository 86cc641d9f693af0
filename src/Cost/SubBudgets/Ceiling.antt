-- ===== src/Cost/SubBudgets/Ceiling.antt =====
-- What the sub-budget gate of src/pitwall/cost/sub_budgets.py admits, call after call.
use pitwall_gpu_broker.Cost.BudgetGate.{
  WorkloadRow, LaunchCall, AdmissionError, hook_failed, not_positive, rejected, unique_violation,
  BudgetAdmission, try_launch_admission,
}
use pitwall_gpu_broker.Cost.SubBudgets.{
  SubBudget, has_tag, has_duplicates, allocated, validate_budgets_sum, allocation_in,
  SubBudgetError, SubBudgetGate, Spending, spent, or_zero, validate_new_tag, Launched, counted,
  finish_launch, launch_by_key, raised_by, try_launch,
}
use pitwall_gpu_broker.Prelude.Dict.{Dict, lookup, insert, lookup-insert}
use pitwall_gpu_broker.Prelude.{All-imp}
use pitwall_gpu_broker.Prelude.{
  ℕ, ◌+◌, ◌≤◌, String, ◌≡◌, refl, ap, ◌∙◌, subst, inl, inr, Bool, true, false, ◌&&◌, Option, none,
  some, List, [], ◌∷◌, arith, eq_iff, ◌==◌, str_eq, if◌then◌else◌, Bool-cases, All, Result, ok, err,
}

-- The amount that a call admits for a tag: its estimate, where the call has the tag and made a row.
abbrev pub admits : String → String → ℕ → Launched → ℕ
admits tag t estimate (ok a, s) = if a.is_new && str_eq t tag then estimate else 0
admits tag t estimate (err e, s) = 0

-- Calls one after the other.
unfoldable pub launch_each : SubBudgetGate → List (String × LaunchCall) → Spending → Spending
unfolding try_launch
launch_each g [] s = s
launch_each g ((t, c) ∷ cs) s = launch_each g cs (try_launch g t c s).1

unfoldable pub admitted : SubBudgetGate → String → List (String × LaunchCall) → Spending → ℕ
unfolding try_launch
admitted g tag [] s = 0
admitted g tag ((t, c) ∷ cs) s =
    admits tag t c.estimate_usd (try_launch g t c s) + admitted g tag cs (try_launch g t c s).1

module _ (g : SubBudgetGate) (tag : String) where
  -- A call leaves the spend of the tag as it says, and within the allocation.
  abbrev Holds : String → ℕ → Spending → Launched → Type 0
  Holds t estimate s r =
      (spent tag r.1.memory_spend ≡ spent tag s.memory_spend + admits tag t estimate r)
      × (spent tag s.memory_spend ≤ allocation_in tag g.config.budgets
          → spent tag r.1.memory_spend ≤ allocation_in tag g.config.budgets)

  inserted :
      (t : String) (amount : ℕ) (memory : Dict ℕ)
      → spent tag (insert t amount memory) ≡ (if str_eq t tag then amount else spent tag memory)
  inserted t amount memory = ap or_zero (lookup-insert t tag amount memory) ∙ plain (str_eq t tag)
    where
      plain :
          (b : Bool)
          → or_zero (if b then some amount else lookup tag memory)
            ≡ (if b then amount else spent tag memory)
      plain true = refl
      plain false = refl

  counted-Holds :
      (t : String) (estimate mtd : ℕ) (s : Spending)
      (r : Result AdmissionError BudgetAdmission × List WorkloadRow)
      → mtd ≡ spent t s.memory_spend
      → mtd + estimate ≤ allocation_in t g.config.budgets
      → Holds t estimate s (counted t estimate mtd r s.memory_spend)
  counted-Holds t estimate mtd s (err e, table) read fits = (omega arith, λ h. h)
  counted-Holds t estimate mtd s (ok a, table) read fits = elim (Bool-cases a.is_new) [
    | inr old ↦ rw old (omega arith, λ h. h)
    | inl new ↦ elim (Bool-cases (str_eq t tag)) [
      | inl same ↦
          let is_tag = (eq_iff t tag).0 same in
          let put = inserted t (mtd + estimate) s.memory_spend in
          let before : mtd ≡ spent tag s.memory_spend = rw is_tag at read in
          let room : mtd + estimate ≤ allocation_in tag g.config.budgets = rw is_tag at fits in
          rw (new, put, same) (omega (arith, before), λ h. room)
      | inr differ ↦
          let put = inserted t (mtd + estimate) s.memory_spend in
          rw (new, put, differ) (omega arith, λ h. h)
    ]
  ]

  finish-Holds :
      (t : String) (c : LaunchCall) (mtd : ℕ) (s : Spending)
      → mtd ≡ spent t s.memory_spend
      → mtd + c.estimate_usd ≤ allocation_in t g.config.budgets
      → Holds t c.estimate_usd s (finish_launch g t c mtd s)
  unfolding finish_launch
  finish-Holds t c mtd s read fits = counted-Holds t c.estimate_usd mtd s _ read fits

  raised-Holds :
      (t : String) (estimate : ℕ) (s : Spending) (e : SubBudgetError)
      (r : Result AdmissionError BudgetAdmission × List WorkloadRow)
      → ((a : BudgetAdmission) → r.0 ≡ ok a → a.is_new ≡ false)
      → Holds t estimate s (raised_by e r s.memory_spend)
  raised-Holds t estimate s e (err hook_failed, table) replay = (omega arith, λ h. h)
  raised-Holds t estimate s e (err not_positive, table) replay = (omega arith, λ h. h)
  raised-Holds t estimate s e (err (rejected reason snap), table) replay = (omega arith, λ h. h)
  raised-Holds t estimate s e (err unique_violation, table) replay = (omega arith, λ h. h)
  raised-Holds t estimate s e (ok a, table) replay =
      let old = replay a refl in rw old (omega arith, λ h. h)

  -- Where the hook raises, the budget gate makes no row.
  hook-replays :
      (c : LaunchCall) (table : List WorkloadRow) (a : BudgetAdmission)
      → (try_launch_admission g.budget_gate (record c { hook_raises = true }) table).0 ≡ ok a
      → a.is_new ≡ false
  unfolding try_launch_admission
  hook-replays c table a h = ground arith

  module _ (memory_only : g.tag_mtd_spend ≡ none) where
    checked :
        (t : String) (estimate mtd : ℕ) (memory : Dict ℕ)
        → validate_new_tag g t estimate memory ≡ ok mtd
        → (mtd ≡ spent t memory) × (mtd + estimate ≤ allocation_in t g.config.budgets)
    unfolding validate_new_tag
    checked t estimate mtd memory h = let h' = rw memory_only at h in ground arith

    keyed-Holds :
        (t : String) (c : LaunchCall) (key : Option String) (s : Spending)
        (v : Result SubBudgetError ℕ)
        → validate_new_tag g t c.estimate_usd s.memory_spend ≡ v
        → Holds t c.estimate_usd s (launch_by_key g t c key v s)
    keyed-Holds t c none s (err e) h = (omega arith, λ x. x)
    keyed-Holds t c none s (ok mtd) h =
        let (read, fits) = checked t c.estimate_usd mtd s.memory_spend h in
        finish-Holds t c mtd s read fits
    keyed-Holds t c (some key) s (err e) h =
        raised-Holds t c.estimate_usd s e _ (hook-replays c s.table)
    keyed-Holds t c (some key) s (ok mtd) h =
        let (read, fits) = checked t c.estimate_usd mtd s.memory_spend h in
        finish-Holds t c mtd s read fits

    launch-Holds :
        (t : String) (c : LaunchCall) (s : Spending) → Holds t c.estimate_usd s (try_launch g t c s)
    unfolding try_launch
    launch-Holds t c s = elim (Bool-cases (c.estimate_usd == 0)) [
      | inl refused ↦ rw refused (omega arith, λ h. h)
      | inr asked ↦ rw asked (
          keyed-Holds t c c.idempotency_key s (validate_new_tag g t c.estimate_usd s.memory_spend)
            refl)
    ]

    each-Holds :
        (cs : List (String × LaunchCall)) (s : Spending)
        → spent tag s.memory_spend ≤ allocation_in tag g.config.budgets
        → (spent tag (launch_each g cs s).memory_spend
            ≡ spent tag s.memory_spend + admitted g tag cs s)
          × (spent tag (launch_each g cs s).memory_spend ≤ allocation_in tag g.config.budgets)
    unfolding launch_each admitted
    each-Holds [] s h = (omega arith, h)
    each-Holds ((t, c) ∷ cs) s h =
        let (sum, keeps) = launch-Holds t c s in
        let (rest, within) = each-Holds cs (try_launch g t c s).1 (keeps h) in
        (omega (arith, sum, rest), within)

abbrev pub total_spent : List SubBudget → Dict ℕ → ℕ
total_spent [] memory = 0
total_spent (b ∷ bs) memory = spent b.tag memory + total_spent bs memory

other_tag :
    (b : SubBudget) (bs : List SubBudget)
    → has_tag b.tag bs ≡ false
    → All (λ (d : SubBudget). str_eq b.tag d.tag ≡ false) bs
other_tag b [] h = tt
other_tag b (d ∷ ds) h =
    let rest : has_tag b.tag ds ≡ false = ground arith in
    (ground (arith, eq_iff b.tag d.tag, eq_iff d.tag b.tag), other_tag b ds rest)

each_allocation :
    (bs : List SubBudget)
    → has_duplicates bs ≡ false
    → All (λ (d : SubBudget). allocation_in d.tag bs ≡ d.allocation_usd) bs
each_allocation [] h = tt
each_allocation (b ∷ bs) h =
    let alone : has_tag b.tag bs ≡ false = ground arith in
    let rest : has_duplicates bs ≡ false = ground arith in
    (
      ground (arith, eq_iff b.tag b.tag),
      both_hold bs (other_tag b bs alone) (each_allocation bs rest),
    )
  where
    both_hold :
        (ds : List SubBudget)
        → All (λ (d : SubBudget). str_eq b.tag d.tag ≡ false) ds
        → All (λ (d : SubBudget). allocation_in d.tag bs ≡ d.allocation_usd) ds
        → All (λ (d : SubBudget). allocation_in d.tag (b ∷ bs) ≡ d.allocation_usd) ds
    both_hold [] x y = tt
    both_hold (d ∷ ds) x y = (let apart = x.0 in rw apart y.0, both_hold ds x.1 y.1)

total_le :
    (bs : List SubBudget) (memory : Dict ℕ)
    → All (λ (d : SubBudget). spent d.tag memory ≤ d.allocation_usd) bs
    → total_spent bs memory ≤ allocated bs
total_le [] memory h = omega arith
total_le (b ∷ bs) memory h = omega (arith, h.0, total_le bs memory h.1)

-- A gate with a validated configuration that tracks the spend itself, starting from none, after any
-- calls one after the other: the spend of each tag is the sum of the estimates for which the calls
-- with the tag made rows, it is within the tag's allocation, and over all sub-budgets the spend is
-- within the total budget.
pub sub_budgets_hold :
    (g : SubBudgetGate) (cs : List (String × LaunchCall)) (table : List WorkloadRow)
    → validate_budgets_sum g.config ≡ ok g.config
    → g.tag_mtd_spend ≡ none
    → let fresh : Spending = record { memory_spend = []; table = table } in
      let s = launch_each g cs fresh in
      ((tag : String)
        → (spent tag s.memory_spend ≡ admitted g tag cs fresh)
          × (spent tag s.memory_spend ≤ allocation_in tag g.config.budgets))
      × (total_spent g.config.budgets s.memory_spend ≤ g.config.total_budget_usd)
unfolding validate_budgets_sum
sub_budgets_hold g cs table valid memory_only =
    let fresh : Spending = record { memory_spend = []; table = table } in
    let each = λ (tag : String). each-Holds g tag memory_only cs fresh (omega arith) in
    let apart : has_duplicates g.config.budgets ≡ false = ground arith in
    let fits : allocated g.config.budgets ≤ g.config.total_budget_usd = ground arith in
    let below =
      All-imp
        {Q = λ (d : SubBudget).
          spent d.tag (launch_each g cs fresh).memory_spend ≤ d.allocation_usd}
        (λ d same.
          subst (λ n. spent d.tag (launch_each g cs fresh).memory_spend ≤ n) same (each d.tag).1)
        g.config.budgets (each_allocation g.config.budgets apart) in
    (
      λ tag. (let (sum, within) = each tag in (omega (arith, sum), within)),
      (let within = total_le g.config.budgets (launch_each g cs fresh).memory_spend below in
          omega (arith, within, fits)),
    )
