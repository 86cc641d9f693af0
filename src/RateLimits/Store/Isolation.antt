-- ===== src/RateLimits/Store/Isolation.antt =====
-- The table of src/pitwall/rate_limits/store.py by its keys.
use pitwall_gpu_broker.RateLimits.Store.{RateBucket, has_key, load, put}
use pitwall_gpu_broker.Prelude.{
  String, ◌≡◌, refl, inl, inr, true, false, some, List, [], ◌∷◌, ◌++◌, arith, eq_iff, Bool-cases,
}

pub load-key :
    (e o : String) (b : RateBucket) (rows : List RateBucket)
    → load e o rows ≡ some b
    → has_key e o b ≡ true
load-key e o b [] h = cc h
load-key e o b (c ∷ cs) h = elim (Bool-cases (has_key e o c)) [
  | inl here ↦ let same : c ≡ b = ground arith in rw same at here
  | inr away ↦ load-key e o b cs (ground arith)
]

-- The key of a row is that of another one exactly where they are found under the same names.
same_key :
    (e o : String) (b c : RateBucket)
    → has_key e o b ≡ true
    → has_key b.endpoint_id b.operation c ≡ has_key e o c
same_key e o b c h =
    let at_e : b.endpoint_id ≡ e = ground (arith, eq_iff b.endpoint_id e) in
    let at_o : b.operation ≡ o = ground (arith, eq_iff b.operation o) in rw (at_e, at_o) refl

pub load-put :
    (e o : String) (b c : RateBucket) (rows : List RateBucket)
    → has_key e o b ≡ true
    → load e o rows ≡ some c
    → load e o (put b rows) ≡ some b
load-put e o b c [] h found = cc found
load-put e o b c (d ∷ ds) h found = elim (Bool-cases (has_key e o d)) [
  | inl here ↦ let same = same_key e o b d h in rw (same, here) (rw h refl)
  | inr away ↦
      let same = same_key e o b d h in
      let rest = load-put e o b c ds h (ground arith) in rw (same, away) (rw away rest)
]

-- A row with another key.
other_key :
    (e o : String) (b c : RateBucket)
    → has_key e o b ≡ false
    → has_key b.endpoint_id b.operation c ≡ true
    → has_key e o c ≡ false
other_key e o b c h there =
    let at_e : c.endpoint_id ≡ b.endpoint_id = ground (arith, eq_iff c.endpoint_id b.endpoint_id) in
    let at_o : c.operation ≡ b.operation = ground (arith, eq_iff c.operation b.operation) in
    rw (at_e, at_o) h

pub load-put_other :
    (e o : String) (b : RateBucket) (rows : List RateBucket)
    → has_key e o b ≡ false
    → load e o (put b rows) ≡ load e o rows
load-put_other e o b [] h = refl
load-put_other e o b (d ∷ ds) h = elim (Bool-cases (has_key b.endpoint_id b.operation d)) [
  | inl there ↦ let away = other_key e o b d h there in rw (there, h, away) refl
  | inr differ ↦ let rest = load-put_other e o b ds h in rw (differ, rest) refl
]

pub load-append :
    (e o : String) (b c : RateBucket) (rows : List RateBucket)
    → load e o rows ≡ some c
    → load e o (rows ++ (b ∷ [])) ≡ some c
load-append e o b c [] found = cc found
load-append e o b c (d ∷ ds) found = elim (Bool-cases (has_key e o d)) [
  | inl here ↦ ground arith
  | inr away ↦ rw away (load-append e o b c ds (ground arith))
]
