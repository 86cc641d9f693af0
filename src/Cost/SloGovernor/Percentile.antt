-- ===== src/Cost/SloGovernor/Percentile.antt =====
-- Which value `_percentile` of src/pitwall/cost/slo_governor.py picks.
use pitwall_gpu_broker.Cost.SloGovernor.{value_at, index_of, rank_of, percentile}
use pitwall_gpu_broker.Prelude.Sort.{IsSorted}
use pitwall_gpu_broker.Prelude.{
  ℕ, zero, suc, ◌+◌, ◌*◌, ◌≤◌, ◌<◌, ◌≡◌, refl, subst, true, some, List, [], ◌∷◌, arith, ltb, leb,
  if◌then◌else◌, length, All,
}

-- The number of values at most, and below, one value.
abbrev pub count_le : ℕ → List ℕ → ℕ
count_le v [] = 0
count_le v (y ∷ ys) = (if leb y v then 1 else 0) + count_le v ys

abbrev pub count_lt : ℕ → List ℕ → ℕ
count_lt v [] = 0
count_lt v (y ∷ ys) = (if ltb y v then 1 else 0) + count_lt v ys

All-value : (P : ℕ → Type 0) (i : ℕ) (ys : List ℕ) (v : ℕ) → All P ys → value_at i ys ≡ some v → P v
All-value P i [] v h e = cc e
All-value P zero (y ∷ ys) v h e = let same : y ≡ v = cc e in subst P same h.0
All-value P (suc i) (y ∷ ys) v h e = All-value P i ys v h.1 e

none_below : (v : ℕ) (ys : List ℕ) → All (λ y. leb v y ≡ true) ys → count_lt v ys ≡ 0
none_below v [] h = refl
none_below v (y ∷ ys) h = let rest = none_below v ys h.1 in let le = h.0 in ground arith

value-le :
    (i : ℕ) (ys : List ℕ) (v : ℕ) → IsSorted leb ys → value_at i ys ≡ some v → suc i ≤ count_le v ys
value-le i [] v s e = cc e
value-le zero (y ∷ ys) v s e = let same : y ≡ v = cc e in ground arith
value-le (suc i) (y ∷ ys) v s e =
    let rest = value-le i ys v s.1 e in
    let le = All-value (λ z. leb y z ≡ true) i ys v s.0 e in ground arith

value-lt :
    (i : ℕ) (ys : List ℕ) (v : ℕ) → IsSorted leb ys → value_at i ys ≡ some v → count_lt v ys ≤ i
value-lt i [] v s e = cc e
value-lt zero (y ∷ ys) v s e =
    let same : y ≡ v = cc e in
    let below = none_below y ys s.0 in subst (λ w. count_lt w (y ∷ ys) ≤ 0) same (ground arith)
value-lt (suc i) (y ∷ ys) v s e = let rest = value-lt i ys v s.1 e in ground arith

value_in : (i : ℕ) (ys : List ℕ) → i < length ys → (v : ℕ) × (value_at i ys ≡ some v)
value_in i [] h = absurd (omega arith)
value_in zero (y ∷ ys) h = (y, refl)
value_in (suc i) (y ∷ ys) h = value_in i ys (omega arith)

index-rank : (r n : ℕ) → 1 ≤ r → r ≤ n → suc (index_of r n) ≡ r
index-rank zero n one top = absurd (omega arith)
index-rank (suc i) n one top = ground arith

mul_le_hundred : (pct n : ℕ) → pct ≤ 100 → pct * n ≤ 100 * n
mul_le_hundred pct zero h = omega arith
mul_le_hundred pct (suc n) h = let rest = mul_le_hundred pct n h in omega arith

mul_pos : (pct n : ℕ) → 1 ≤ pct → 1 ≤ pct * suc n
mul_pos zero n h = absurd (omega arith)
mul_pos (suc p) n h = omega arith

-- Where the list is not empty, some value is picked, at a position that the rank determines.
pub pick :
    (xs : List ℕ) (pct : ℕ)
    → 1 ≤ length xs
    → 1 ≤ pct
    → pct ≤ 100
    → (i v : ℕ) × (value_at i xs ≡ some v)
      × (percentile xs pct ≡ some v)
      × (suc i ≡ rank_of pct (length xs))
pick [] pct h one top = absurd (omega arith)
pick (x ∷ []) pct h one top = (0, x, refl, refl, omega arith)
pick (x ∷ y ∷ ys) pct h one top =
    let n = length (x ∷ y ∷ ys) in
    let m = pct * n in
    let most : m ≤ 100 * n = mul_le_hundred pct n top in
    let least : 1 ≤ m = mul_pos pct (length (y ∷ ys)) one in
    let exact = index-rank (rank_of pct n) n (omega arith) (omega arith) in
    let found = value_in (index_of (rank_of pct n) n) (x ∷ y ∷ ys) (omega arith) in
    (index_of (rank_of pct n) n, found.0, found.1, found.1, exact)

-- The percentile of a sorted list that is not empty, for a percentage from 1 to 100, is the value at
-- its nearest rank: at least that share of the values is at most it, and less than that share is
-- below it.
percentile_rank :
    (xs : List ℕ) (pct : ℕ)
    → IsSorted leb xs
    → 1 ≤ length xs
    → 1 ≤ pct
    → pct ≤ 100
    → (v : ℕ) × (percentile xs pct ≡ some v)
      × (pct * length xs ≤ 100 * count_le v xs)
      × (100 * count_lt v xs < pct * length xs)
percentile_rank xs pct s h one top =
    let (i, v, at_i, picked, rank) = pick xs pct h one top in
    let le = value-le i xs v s at_i in
    let lt = value-lt i xs v s at_i in
    let m = pct * length xs in (v, picked, omega arith, omega arith)
