-- ===== src/RateLimits/Store/Grants.antt =====
-- What the store of src/pitwall/rate_limits/store.py grants of one bucket, whatever happens to the
-- others.
use pitwall_gpu_broker.RateLimits.Store.{
  refill_divisor, RateBucket, load, full_bucket, load_or_create, atomic_refill_consume, record_429,
  update_capacity,
}
use pitwall_gpu_broker.RateLimits.Store.Moves.{Moves-trans, stays}
use pitwall_gpu_broker.RateLimits.Store.Kept.{
  granted_by, Kept, untouched, consumed, noted, resized, other_consumed, other_noted, other_resized,
  ensured, found_there,
}
use pitwall_gpu_broker.Prelude.{
  ℕ, zero, suc, ◌+◌, ◌*◌, ◌≤◌, String, ◌≡◌, refl, inl, inr, ◌&&◌, Option, none, some, List, [], ◌∷◌,
  arith, ◌==◌, str_eq, if◌then◌else◌, Bool-cases,
}

-- A call of the store with its key.
pub data Request : Type 0 where
  consume : String → String → ℕ → Request
  note_429 : String → String → Option ℕ → Request
  set_capacity ensure : String → String → ℕ → Request

-- What a request takes out of the bucket (e, o), and the table after it.
unfoldable pub perform : String → String → ℕ → Request → List RateBucket → ℕ × List RateBucket
unfolding atomic_refill_consume record_429 update_capacity load_or_create
perform e o now (consume e' o' amount) rows =
    let r = atomic_refill_consume e' o' amount now rows in
    (if str_eq e' e && str_eq o' o then granted_by amount r else 0, r.1)
perform e o now (note_429 e' o' capacity) rows = (0, (record_429 e' o' capacity now rows).1)
perform e o now (set_capacity e' o' capacity) rows =
    (0, (update_capacity e' o' capacity now rows).1)
perform e o now (ensure e' o' capacity) rows = (0, (load_or_create e' o' capacity now rows).1)

unfoldable pub perform_all :
    String → String → List (ℕ × Request) → List RateBucket → ℕ × List RateBucket
unfolding perform
perform_all e o [] rows = (0, rows)
perform_all e o ((now, r) ∷ rs) rows =
    let step = perform e o now r rows in
    let rest = perform_all e o rs step.1 in (step.0 + rest.0, rest.1)

-- The capacities that requests set are at most cap, and a request comes no earlier than those before.
abbrev pub Bounded : ℕ → Request → Type 0
Bounded cap (consume e o amount) = Unit
Bounded cap (note_429 e o capacity) = Unit
Bounded cap (set_capacity e o capacity) = capacity ≤ cap
Bounded cap (ensure e o capacity) = Unit

abbrev pub InOrder : ℕ → ℕ → List (ℕ × Request) → Type 0
InOrder cap since [] = Unit
InOrder cap since ((now, r) ∷ rs) = (since ≤ now) × Bounded cap r × InOrder cap now rs

abbrev pub last_time : ℕ → List (ℕ × Request) → ℕ
last_time since [] = since
last_time since ((now, r) ∷ rs) = last_time now rs

module _ (cap : ℕ) (e o : String) where
  performed :
      (b : RateBucket) (rows : List RateBucket) (now : ℕ) (r : Request)
      → load e o rows ≡ some b
      → b.capacity ≤ cap
      → b.tokens ≤ b.capacity * refill_divisor
      → b.last_refilled_at ≤ now
      → Bounded cap r
      → Kept cap e o now b (perform e o now r rows).0 (perform e o now r rows).1
  unfolding perform record_429 update_capacity load_or_create atomic_refill_consume
  performed b rows now (consume e' o' amount) found within full le ok_r =
      elim (Bool-cases (str_eq e' e && str_eq o' o)) [
        | inl same ↦
            let there = found_there cap e o b rows found within full now le e' o' same in
            rw (same, there) (consumed cap e o b rows found within full now le amount)
        | inr differ ↦ rw differ (
            other_consumed cap e o b rows found within full now le e' o' differ (load e' o' rows)
              amount refl)
      ]
  performed b rows now (note_429 e' o' (some zero)) found within full le ok_r =
      untouched cap e o b rows found within full now le
  performed b rows now (note_429 e' o' (some (suc c))) found within full le ok_r =
      elim (Bool-cases (str_eq e' e && str_eq o' o)) [
        | inl same ↦
            let there = found_there cap e o b rows found within full now le e' o' same in
            rw there (noted cap e o b rows found within full now le (some (suc c)))
        | inr differ ↦
            other_noted cap e o b rows found within full now le e' o' differ (load e' o' rows)
              (some (suc c)) refl
      ]
  performed b rows now (note_429 e' o' none) found within full le ok_r =
      elim (Bool-cases (str_eq e' e && str_eq o' o)) [
        | inl same ↦
            let there = found_there cap e o b rows found within full now le e' o' same in
            rw there (noted cap e o b rows found within full now le none)
        | inr differ ↦
            other_noted cap e o b rows found within full now le e' o' differ (load e' o' rows) none
              refl
      ]
  performed b rows now (set_capacity e' o' capacity) found within full le ok_r =
      elim (Bool-cases (capacity == 0)) [
        | inl refused ↦ rw refused (untouched cap e o b rows found within full now le)
        | inr fine ↦ elim (Bool-cases (str_eq e' e && str_eq o' o)) [
          | inl same ↦
              let there = found_there cap e o b rows found within full now le e' o' same in
              rw (fine, there) (resized cap e o b rows found within full now le capacity ok_r)
          | inr differ ↦ rw fine (
              other_resized cap e o b rows found within full now le e' o' differ (load e' o' rows)
                capacity refl)
        ]
      ]
  performed b rows now (ensure e' o' capacity) found within full le ok_r =
      ensured cap e o b rows found within full now le (load e' o' rows)
        (full_bucket e' o' capacity now)

  last_after :
      (since : ℕ) (rs : List (ℕ × Request)) → InOrder cap since rs → since ≤ last_time since rs
  last_after since [] h = omega arith
  last_after since ((now, r) ∷ rs) h = omega (arith, h.0, last_after now rs h.2)

-- However requests for all buckets are interleaved, where their times do not decrease: a bucket that
-- is there, holds at most its capacity and has a capacity of at most cap, as has each capacity that
-- is set, stays so. What is granted of it and what is left are together no more than what was there
-- and what a bucket of capacity cap refills in the time; requests for other buckets, and those that
-- raise, count for nothing.
pub store_bounded :
    (cap : ℕ) (e o : String) (since : ℕ) (rs : List (ℕ × Request)) (rows : List RateBucket)
    (b : RateBucket)
    → load e o rows ≡ some b
    → b.capacity ≤ cap
    → b.tokens ≤ b.capacity * refill_divisor
    → b.last_refilled_at ≤ since
    → InOrder cap since rs
    → Kept cap e o (last_time since rs) b (perform_all e o rs rows).0 (perform_all e o rs rows).1
unfolding perform_all
store_bounded cap e o since [] rows b found within full le ordered =
    (b, found, stays cap b within full since le)
store_bounded cap e o since ((now, r) ∷ rs) rows b found within full le ordered =
    let (c, at_c, moved) =
      performed cap e o b rows now r found within full (omega (arith, ordered.0)) ordered.1 in
    let (d, at_d, rest) =
      store_bounded cap e o now rs (perform e o now r rows).1 c at_c moved.within moved.full
        moved.no_later ordered.2 in
    let last = last_after cap e o now rs ordered.2 in
    (d, at_d, Moves-trans cap now (last_time now rs) _ _ b c d last moved rest)
