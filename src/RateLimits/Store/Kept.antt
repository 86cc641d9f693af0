-- ===== src/RateLimits/Store/Kept.antt =====
-- What each call of src/pitwall/rate_limits/store.py makes of one bucket, its own or another.
use pitwall_gpu_broker.RateLimits.Algorithm.{RateError, halved_capacity}
use pitwall_gpu_broker.RateLimits.Store.{
  refill_divisor, RateBucket, Ran, has_key, load, put, loaded_or, insert_row, refilled,
  consume_refilled, consume_found, reduced, note_found, note_loaded, resize_refilled, resize_found,
}
use pitwall_gpu_broker.RateLimits.Store.Isolation.{load-key, load-put, load-put_other, load-append}
use pitwall_gpu_broker.RateLimits.Store.Moves.{Moves, stays, filled, refilled-filled, leaves}
use pitwall_gpu_broker.Prelude.{
  ℕ, ◌-◌, ◌*◌, ◌/◌, ◌≤◌, min, max, String, ◌≡◌, ◌∙◌, inl, inr, Bool, true, false, ◌&&◌, Option,
  none, some, List, arith, eq_iff, leb, ◌==◌, str_eq, if◌then◌else◌, Bool-cases, Result, ok, err,
}

abbrev pub granted_by : ℕ → Ran (RateBucket × Bool) → ℕ
granted_by amount (ok (b, allowed), rows) = if allowed then amount else 0
granted_by amount (err e, rows) = 0

module _ (cap : ℕ) (e o : String) where
  -- The bucket (e, o) is there after a call, and moved as it may.
  abbrev pub Kept : ℕ → RateBucket → ℕ → List RateBucket → Type 0
  Kept now b granted rows =
      (b' : RateBucket) × (load e o rows ≡ some b') × Moves cap now b granted b'

  module _ (b : RateBucket) (rows : List RateBucket) (found : load e o rows ≡ some b)
      (within : b.capacity ≤ cap) (full : b.tokens ≤ b.capacity * refill_divisor) (now : ℕ)
      (le : b.last_refilled_at ≤ now) where
    pub untouched : Kept now b 0 rows
    untouched = (b, found, stays cap b within full now le)

    -- A written row of another key, or of this one.
    elsewhere : (c : RateBucket) → has_key e o c ≡ false → Kept now b 0 (put c rows)
    elsewhere c away = (b, load-put_other e o c rows away ∙ found, stays cap b within full now le)

    here :
        (g : ℕ) (c : RateBucket)
        → has_key e o c ≡ true
        → Moves cap now b g c
        → Kept now b g (put c rows)
    here g c at_key moved = (c, load-put e o c b rows at_key found, moved)

    at_key : has_key e o b ≡ true
    at_key = load-key e o b rows found

    pub consumed :
        (amount : ℕ)
        → Kept now b
            (granted_by amount (consume_found (some b) amount now rows))
            (consume_found (some b) amount now rows).1
    consumed amount =
        let fills = refilled-filled cap b within full now le in
        elim (Bool-cases (leb amount (filled cap b within full now))) [
          | inl enough ↦
              rw (fills, enough)
                (here amount _ at_key (
                  leaves cap b within full now b.capacity (filled cap b within full now - amount)
                    amount b.recent_429_at le within (omega arith) (ground arith)))
          | inr short ↦
              rw (fills, short)
                (here 0 _ at_key (
                  leaves cap b within full now b.capacity (filled cap b within full now) 0
                    b.recent_429_at le within (omega arith) (omega arith)))
        ]

    pub noted : (capacity : Option ℕ) → Kept now b 0 (note_loaded (some b) capacity now rows).1
    unfolding halved_capacity
    noted capacity = elim (Bool-cases (leb b.capacity 0)) [
      | inl zero_capacity ↦ rw zero_capacity untouched
      | inr positive ↦ rw positive (
          here 0 _ at_key (
            leaves cap b within full now (reduced (max 1 (b.capacity / 2)) capacity) _ 0 (some now)
              le (small capacity (ground arith)) (omega arith) (omega arith)))
    ]
      where
        small :
            (capacity : Option ℕ) → 1 ≤ b.capacity → reduced (max 1 (b.capacity / 2)) capacity ≤ cap
        small none pos = ground (arith, within)
        small (some c) pos = ground (arith, within)

    pub resized :
        (capacity : ℕ) → capacity ≤ cap → Kept now b 0 (resize_found (some b) capacity now rows).1
    resized capacity small =
        let fills = refilled-filled cap b within full now le in
        rw fills (
          here 0 _ at_key (
            leaves cap b within full now capacity
              (min (capacity * refill_divisor) (filled cap b within full now)) 0 b.recent_429_at le
              small (omega arith) (omega arith)))

    -- A call with another key writes rows of that key alone.
    module _ (e' o' : String) (differ : (str_eq e' e && str_eq o' o) ≡ false) where
      away_of : (c : RateBucket) → has_key e' o' c ≡ true → has_key e o c ≡ false
      away_of c h =
          let at_e : c.endpoint_id ≡ e' = ground (arith, eq_iff c.endpoint_id e') in
          let at_o : c.operation ≡ o' = ground (arith, eq_iff c.operation o') in
          rw (at_e, at_o) differ

      pub other_consumed :
          (r : Option RateBucket) (amount : ℕ)
          → load e' o' rows ≡ r
          → Kept now b 0 (consume_found r amount now rows).1
      other_consumed none amount h = untouched
      other_consumed (some c) amount h = go (refilled c now)
        where
          go : (t : Option ℕ) → Kept now b 0 (consume_refilled t c amount now rows).1
          go none = untouched
          go (some t) = elsewhere _ (away_of c (load-key e' o' c rows h))

      pub other_noted :
          (r : Option RateBucket) (capacity : Option ℕ)
          → load e' o' rows ≡ r
          → Kept now b 0 (note_loaded r capacity now rows).1
      other_noted none capacity h = untouched
      other_noted (some c) capacity h = go (halved_capacity c.capacity)
        where
          go : (t : Result RateError ℕ) → Kept now b 0 (note_found t capacity c now rows).1
          go (err x) = untouched
          go (ok t) = elsewhere _ (away_of c (load-key e' o' c rows h))

      pub other_resized :
          (r : Option RateBucket) (capacity : ℕ)
          → load e' o' rows ≡ r
          → Kept now b 0 (resize_found r capacity now rows).1
      other_resized none capacity h = untouched
      other_resized (some c) capacity h = go (refilled c now)
        where
          go : (t : Option ℕ) → Kept now b 0 (resize_refilled t c capacity now rows).1
          go none = untouched
          go (some t) = elsewhere _ (away_of c (load-key e' o' c rows h))

    inserted : (new : RateBucket) → Kept now b 0 (insert_row new rows).1
    inserted new = elim (Bool-cases (new.capacity == 0)) [
      | inl refused ↦ rw refused untouched
      | inr fine ↦ rw fine (b, load-append e o new b rows found, stays cap b within full now le)
    ]

    pub ensured : (r : Option RateBucket) (new : RateBucket) → Kept now b 0 (loaded_or r new rows).1
    ensured none new = inserted new
    ensured (some c) new = elim (Bool-cases (new.capacity == 0)) [
      | inl refused ↦ rw refused untouched
      | inr fine ↦ rw fine untouched
    ]

    -- The same key.
    module _ (e' o' : String) (same : (str_eq e' e && str_eq o' o) ≡ true) where
      pub found_there : load e' o' rows ≡ some b
      found_there =
          let at_e : e' ≡ e = ground (arith, eq_iff e' e) in
          let at_o : o' ≡ o = ground (arith, eq_iff o' o) in rw (at_e, at_o) found
