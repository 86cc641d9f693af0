-- ===== src/Cost/SubBudgets/Chargeback.antt =====
-- What a chargeback report of src/pitwall/cost/sub_budgets.py says of the workloads.
use pitwall_gpu_broker.Cost.SubBudgets.{SubBudget, SubBudgetConfig, or_zero, spent}
use pitwall_gpu_broker.Cost.SubBudgets.Report.{
  ChargebackLineItem, CostedWorkload, cost_of, Tally, tally_one, tally, sum_values, line_items_of,
  generate_chargeback_report,
}
use pitwall_gpu_broker.Prelude.Dict.{Dict, lookup, insert, lookup-insert}
use pitwall_gpu_broker.Prelude.{
  ℕ, ◌+◌, ◌-◌, String, ◌≡◌, refl, ap, ◌∙◌, inl, inr, Bool, true, false, Option, none, some, List,
  [], ◌∷◌, map, arith, eq_iff, str_eq, if◌then◌else◌, Bool-cases,
}

-- The cost of a workload, where its tag is the given one.
abbrev pub same_tag : Option String → Option String → Bool
same_tag none none = true
same_tag none (some t) = false
same_tag (some t) none = false
same_tag (some t) (some u) = str_eq t u

module _ (resolver : CostedWorkload → Option String) where
  abbrev pub cost_with : Option String → CostedWorkload → ℕ
  cost_with tag w = if same_tag (resolver w) tag then or_zero (cost_of w) else 0

  -- The costs of the workloads with a tag, or without one.
  abbrev pub costs_with : Option String → List CostedWorkload → ℕ
  costs_with tag [] = 0
  costs_with tag (w ∷ ws) = cost_with tag w + costs_with tag ws

  abbrev pub all_costs : List CostedWorkload → ℕ
  all_costs [] = 0
  all_costs (w ∷ ws) = or_zero (cost_of w) + all_costs ws

  spent-insert :
      (t k : String) (v : ℕ) (d : Dict ℕ)
      → spent k (insert t v d) ≡ (if str_eq t k then v else spent k d)
  spent-insert t k v d = ap or_zero (lookup-insert t k v d) ∙ plain (str_eq t k)
    where
      plain : (b : Bool) → or_zero (if b then some v else lookup k d) ≡ (if b then v else spent k d)
      plain true = refl
      plain false = refl

  sum-insert :
      (t : String) (n : ℕ) (d : Dict ℕ) → sum_values (insert t n d) + spent t d ≡ sum_values d + n
  sum-insert t n [] = omega arith
  sum-insert t n ((k, v) ∷ d) = elim (Bool-cases (str_eq k t)) [
    | inl same ↦ rw same (omega arith)
    | inr differ ↦ let rest = sum-insert t n d in rw differ (omega (arith, rest))
  ]

  one-spent :
      (tag : String) (w : CostedWorkload) (r : Option String) (cost : Option ℕ) (t : Tally)
      → spent tag (tally_one (λ x. r) w cost t).tag_spend
        ≡ spent tag t.tag_spend + (if same_tag r (some tag) then or_zero cost else 0)
  one-spent tag w none none t = omega arith
  one-spent tag w none (some c) t = omega arith
  one-spent tag w (some u) none t = ground arith
  one-spent tag w (some u) (some c) t = elim (Bool-cases (str_eq u tag)) [
    | inl same ↦
        let at_u = spent-insert u tag (spent u t.tag_spend + c) t.tag_spend in
        let is_tag = (eq_iff u tag).0 same in
        let before = ap (λ x. spent x t.tag_spend) is_tag in rw (at_u, same) (omega (arith, before))
    | inr differ ↦
        let at_u = spent-insert u tag (spent u t.tag_spend + c) t.tag_spend in
        rw (at_u, differ) (omega arith)
  ]

  one-unallocated :
      (w : CostedWorkload) (r : Option String) (cost : Option ℕ) (t : Tally)
      → (tally_one (λ x. r) w cost t).unallocated
        ≡ t.unallocated + (if same_tag r none then or_zero cost else 0)
  one-unallocated w none none t = omega arith
  one-unallocated w none (some c) t = refl
  one-unallocated w (some u) none t = omega arith
  one-unallocated w (some u) (some c) t = omega arith

  one-total :
      (w : CostedWorkload) (r : Option String) (cost : Option ℕ) (t : Tally)
      → sum_values (tally_one (λ x. r) w cost t).tag_spend
          + (tally_one (λ x. r) w cost t).unallocated
        ≡ (sum_values t.tag_spend + t.unallocated) + or_zero cost
  one-total w none none t = omega arith
  one-total w none (some c) t = omega arith
  one-total w (some u) none t = omega arith
  one-total w (some u) (some c) t =
      let sum = sum-insert u (spent u t.tag_spend + c) t.tag_spend in omega (arith, sum)

  -- Only the tag of the workload matters.
  one_same :
      (w : CostedWorkload) (cost : Option ℕ) (t : Tally)
      → tally_one resolver w cost t ≡ tally_one (λ x. resolver w) w cost t
  one_same w none t = refl
  one_same w (some c) t = refl

  tally-spent :
      (tag : String) (ws : List CostedWorkload) (t : Tally)
      → spent tag (tally resolver ws t).tag_spend ≡ spent tag t.tag_spend + costs_with (some tag) ws
  tally-spent tag [] t = omega arith
  tally-spent tag (w ∷ ws) t =
      let rest = tally-spent tag ws (tally_one resolver w (cost_of w) t) in
      let first = one-spent tag w (resolver w) (cost_of w) t in
      let same = ap (λ (x : Tally). spent tag x.tag_spend) (one_same w (cost_of w) t) in
      omega (arith, rest, first, same)

  tally-unallocated :
      (ws : List CostedWorkload) (t : Tally)
      → (tally resolver ws t).unallocated ≡ t.unallocated + costs_with none ws
  tally-unallocated [] t = omega arith
  tally-unallocated (w ∷ ws) t =
      let rest = tally-unallocated ws (tally_one resolver w (cost_of w) t) in
      let first = one-unallocated w (resolver w) (cost_of w) t in
      let same = ap (λ (x : Tally). x.unallocated) (one_same w (cost_of w) t) in
      omega (arith, rest, first, same)

  tally-total :
      (ws : List CostedWorkload) (t : Tally)
      → sum_values (tally resolver ws t).tag_spend + (tally resolver ws t).unallocated
        ≡ (sum_values t.tag_spend + t.unallocated) + all_costs ws
  tally-total [] t = omega arith
  tally-total (w ∷ ws) t =
      let rest = tally-total ws (tally_one resolver w (cost_of w) t) in
      let first = one-total w (resolver w) (cost_of w) t in
      let same =
        ap (λ (x : Tally). sum_values x.tag_spend + x.unallocated) (one_same w (cost_of w) t) in
      omega (arith, rest, first, same)

  -- The line of a sub-budget, from the workloads alone.
  abbrev pub line_of : List CostedWorkload → SubBudget → ChargebackLineItem
  line_of ws b = record {
    tag = b.tag;
    allocation_usd = b.allocation_usd;
    spend_usd = costs_with (some b.tag) ws;
    remaining_usd = b.allocation_usd - costs_with (some b.tag) ws;
  }

  lines_right :
      (bs : List SubBudget) (ws : List CostedWorkload) (spend : Dict ℕ)
      → ((tag : String) → spent tag spend ≡ costs_with (some tag) ws)
      → line_items_of bs spend ≡ map (line_of ws) bs
  lines_right [] ws spend h = refl
  lines_right (b ∷ bs) ws spend h =
      let here = h b.tag in let rest = lines_right bs ws spend h in rw (rest, here) refl

-- A report has, for each sub-budget in its order, the costs of the workloads with its tag and what
-- they leave of the allocation; the costs of the workloads without a tag; and as the total the costs
-- of all workloads, also of those whose tag has no sub-budget.
pub chargeback_exact :
    (config : SubBudgetConfig) (ws : List CostedWorkload)
    (resolver : CostedWorkload → Option String)
    → ((generate_chargeback_report config ws resolver).total_spend_usd ≡ all_costs resolver ws)
      × ((generate_chargeback_report config ws resolver).unallocated_spend_usd
          ≡ costs_with resolver none ws)
      × ((generate_chargeback_report config ws resolver).line_items
          ≡ map (line_of resolver ws) config.budgets)
unfolding generate_chargeback_report
chargeback_exact config ws resolver =
    let empty : Tally = record { tag_spend = []; unallocated = 0 } in
    (
      (let sum = tally-total resolver ws empty in omega (arith, sum)),
      (let rest = tally-unallocated resolver ws empty in omega (arith, rest)),
      lines_right resolver config.budgets ws (tally resolver ws empty).tag_spend
          (λ tag. let sum = tally-spent resolver tag ws empty in omega (arith, sum)),
    )
