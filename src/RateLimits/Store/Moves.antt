-- ===== src/RateLimits/Store/Moves.antt =====
-- How one call of src/pitwall/rate_limits/store.py may change a bucket.
use pitwall_gpu_broker.RateLimits.Store.{refill_divisor, RateBucket, refilled}
use pitwall_gpu_broker.Prelude.{ℕ, ◌+◌, ◌-◌, ◌*◌, ◌≤◌, min, ◌≡◌, Option, some, arith}

-- A bucket after some calls, at a capacity of at most cap throughout, that granted an amount.
pub record Moves (cap now : ℕ) (b : RateBucket) (granted : ℕ) (b' : RateBucket) : Type 0 where
  pub later : b.last_refilled_at ≤ b'.last_refilled_at
  pub no_later : b'.last_refilled_at ≤ now
  pub within : b'.capacity ≤ cap
  pub full : b'.tokens ≤ b'.capacity * refill_divisor
  pub amount : granted + b'.tokens ≤ b.tokens + (b'.last_refilled_at - b.last_refilled_at) * cap

times_le : (t c cap : ℕ) → c ≤ cap → t * c ≤ t * cap
times_le t c cap h = grind arith

times_split : (a b c cap : ℕ) → a ≤ b → b ≤ c → (b - a) * cap + (c - b) * cap ≡ (c - a) * cap
times_split a b c cap h k = grind arith

pub Moves-trans :
    (cap now later g h : ℕ) (a b c : RateBucket)
    → now ≤ later
    → Moves cap now a g b
    → Moves cap later b h c
    → Moves cap later a (g + h) c
Moves-trans cap now later g h a b c le first second =
    let split =
      times_split a.last_refilled_at b.last_refilled_at c.last_refilled_at cap first.later
        second.later in
    let one = first.amount in
    let two = second.amount in
    record {
      later = omega (arith, first.later, second.later);
      no_later = second.no_later;
      within = second.within;
      full = second.full;
      amount = omega (arith, one, two, split);
    }

module _ (cap : ℕ) (b : RateBucket) (within : b.capacity ≤ cap)
    (full : b.tokens ≤ b.capacity * refill_divisor) where
  pub stays : (now : ℕ) → b.last_refilled_at ≤ now → Moves cap now b 0 b
  stays now le = record {
    later = omega arith;
    no_later = le;
    within = within;
    full = full;
    amount = omega arith;
  }

  abbrev pub filled : ℕ → ℕ
  filled now =
      min (b.capacity * refill_divisor) (b.tokens + (now - b.last_refilled_at) * b.capacity)

  pub refilled-filled : (now : ℕ) → b.last_refilled_at ≤ now → refilled b now ≡ some (filled now)
  unfolding refilled
  refilled-filled now le = ground arith

  filled_le : (now : ℕ) → filled now ≤ b.tokens + (now - b.last_refilled_at) * cap
  filled_le now =
      let le = times_le (now - b.last_refilled_at) b.capacity cap within in omega (arith, le)

  -- A row with fewer tokens than the refill leaves, at another capacity.
  pub leaves :
      (now capacity tokens granted : ℕ) (since : Option ℕ)
      → b.last_refilled_at ≤ now
      → capacity ≤ cap
      → tokens ≤ capacity * refill_divisor
      → granted + tokens ≤ filled now
      → Moves cap now b granted (record b {
        capacity = capacity;
        tokens = tokens;
        last_refilled_at = now;
        recent_429_at = since;
      })
  leaves now capacity tokens granted since le small fits had = record {
    later = le;
    no_later = omega arith;
    within = small;
    full = fits;
    amount = let top = filled_le now in omega (arith, had, top);
  }
