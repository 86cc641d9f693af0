-- ===== src/RateLimits/Algorithm/Bucket.antt =====
-- What the token bucket of src/pitwall/rate_limits/algorithm.py grants.
use pitwall_gpu_broker.RateLimits.Algorithm.{
  TokenBucket, RateError, refill_tokens, refill, resize, try_consume, retry_after,
  seconds_until_available,
}
use pitwall_gpu_broker.Prelude.{Returns-imp, Returns-bind, Returns}
use pitwall_gpu_broker.Prelude.{
  ℕ, ◌+◌, ◌-◌, ◌*◌, ◌≤◌, ◌<◌, min, ◌≡◌, refl, ◌↔◌, inl, inr, true, false, Option, none, some, List,
  [], ◌∷◌, arith, ltb, leb, if◌then◌else◌, Bool-cases, Result, ok, ◌>>=◌,
}

-- The bucket holds no more than its capacity.
pub record IsValid (b : TokenBucket) : Type 0 where
  pub capacity_positive : 1 ≤ b.capacity
  pub window_positive : 1 ≤ b.refill_window
  pub bounded : b.tokens ≤ b.capacity * b.refill_window

pub data Operation : Type 0 where
  consume_at : ℕ → ℕ → Operation
  resize_at : ℕ → ℕ → Operation

-- A sequence of operations, with the tokens that it grants.
pub run_operations : TokenBucket → List Operation → Result RateError (ℕ × TokenBucket)
run_operations b [] = ok (0, b)
run_operations b (consume_at amount now ∷ ops) = do
  (granted, b') ← try_consume b amount now
  (rest, b'') ← run_operations b' ops
  ok ((if granted then amount else 0) + rest, b'')
run_operations b (resize_at capacity now ∷ ops) = do
  b' ← resize b capacity now
  run_operations b' ops

-- What refills in the times between the operations, at the capacities then in force.
pub refilled : ℕ → ℕ → List Operation → ℕ
refilled capacity last [] = 0
refilled capacity last (consume_at amount now ∷ ops) =
    (now - last) * capacity + refilled capacity now ops
refilled capacity last (resize_at capacity' now ∷ ops) =
    (now - last) * capacity + refilled capacity' now ops

-- The bucket after a refill.
abbrev filled : TokenBucket → ℕ → TokenBucket
filled b now = record b {
  tokens = min (b.capacity * b.refill_window) (b.tokens + (now - b.last_refilled_at) * b.capacity);
  last_refilled_at = now;
}

refill-filled : (b : TokenBucket) (now : ℕ) → IsValid b → refill b now ≡ ok (filled b now)
unfolding refill refill_tokens
refill-filled b now h = ground (arith, h.capacity_positive, h.window_positive)

-- A call grants the amount exactly when the refilled bucket holds it, and takes it out.
pub consume-filled :
    (b : TokenBucket) (amount now : ℕ)
    → IsValid b
    → 1 ≤ amount
    → try_consume b amount now
      ≡ ok (
          if leb amount (filled b now).tokens
          then (true, record (filled b now) { tokens = (filled b now).tokens - amount })
          else (false, filled b now))
unfolding try_consume
consume-filled b amount now h pos = ground (arith, refill-filled b now h)

resize-filled :
    (b : TokenBucket) (capacity now : ℕ)
    → IsValid b
    → 1 ≤ capacity
    → resize b capacity now
      ≡ ok (record (filled b now) {
        capacity = capacity;
        tokens = min (capacity * b.refill_window) (filled b now).tokens;
      })
unfolding resize
resize-filled b capacity now h pos = ground (arith, refill-filled b now h)

-- What one call may leave of a bucket, where it grants an amount.
abbrev Leaves : TokenBucket → ℕ → ℕ → ℕ → TokenBucket → Type 0
Leaves b capacity now granted b' =
    IsValid b'
    × ((ops : List Operation)
        → refilled b'.capacity b'.last_refilled_at ops ≡ refilled capacity now ops)
    × (granted + b'.tokens ≤ b.tokens + (now - b.last_refilled_at) * b.capacity)

consume-Leaves :
    (b : TokenBucket) (amount now : ℕ)
    → IsValid b
    → 1 ≤ amount
    → Returns
        (try_consume b amount now)
        (λ (granted, b'). Leaves b b.capacity now (if granted then amount else 0) b')
consume-Leaves b amount now h pos =
    rw (consume-filled b amount now h pos) (elim (Bool-cases (leb amount (filled b now).tokens)) [
      | inl enough ↦ rw enough (
        record {
          capacity_positive = h.capacity_positive;
          window_positive = h.window_positive;
          bounded = omega arith;
        },
        λ ops. refl,
        ground arith,
      )
      | inr short ↦ rw short (
        record {
          capacity_positive = h.capacity_positive;
          window_positive = h.window_positive;
          bounded = omega arith;
        },
        λ ops. refl,
        omega arith,
      )
    ])

resize-Leaves :
    (b : TokenBucket) (capacity now : ℕ)
    → IsValid b
    → 1 ≤ capacity
    → Returns (resize b capacity now) (λ b'. Leaves b capacity now 0 b')
resize-Leaves b capacity now h pos = rw (resize-filled b capacity now h pos) (
  record { capacity_positive = pos; window_positive = h.window_positive; bounded = omega arith },
  λ ops. refl,
  omega arith,
)

-- The amounts and capacities that the code accepts.
abbrev pub AllPositive : List Operation → Type 0
AllPositive [] = Unit
AllPositive (consume_at amount now ∷ ops) = (1 ≤ amount) × AllPositive ops
AllPositive (resize_at capacity now ∷ ops) = (1 ≤ capacity) × AllPositive ops

-- From a valid bucket every sequence of calls with positive amounts and capacities goes through
-- and leaves a valid bucket; what it grants and what is left together are no more than what was
-- there and what the times between the calls refill.
pub grants_bounded :
    (b : TokenBucket) (ops : List Operation)
    → IsValid b
    → AllPositive ops
    → Returns (run_operations b ops) (λ (granted, b').
      IsValid b' × (granted + b'.tokens ≤ b.tokens + refilled b.capacity b.last_refilled_at ops))
unfolding run_operations refilled
grants_bounded b [] h pos = (h, omega arith)
grants_bounded b (consume_at amount now ∷ ops) h pos =
    Returns-bind _ (try_consume b amount now) _ (consume-Leaves b amount now h pos.0)
      (λ (granted, b') (valid, same, le).
        Returns-bind _ (run_operations b' ops) _ (grants_bounded b' ops valid pos.1)
          (λ (rest, b'') (valid', le'). (valid', omega (arith, le, le', same ops))))
grants_bounded b (resize_at capacity now ∷ ops) h pos =
    Returns-bind _ (resize b capacity now) _ (resize-Leaves b capacity now h pos.0)
      (λ b' (valid, same, le).
        Returns-imp _ (run_operations b' ops) (grants_bounded b' ops valid pos.1)
          (λ (rest, b'') (valid', le'). (valid', omega (arith, le, le', same ops))))

abbrev wait_of : TokenBucket → ℕ → Option ℕ
wait_of b amount =
    if leb amount b.tokens
    then some 0
    else if ltb (b.capacity * b.refill_window) amount
    then none
    else some (amount - b.tokens)

retry-wait :
    (b : TokenBucket) (amount : ℕ)
    → IsValid b
    → 1 ≤ amount
    → retry_after b amount ≡ ok (wait_of b amount)
unfolding retry_after seconds_until_available
retry-wait b amount h pos = ground (arith, h.capacity_positive, h.window_positive)

-- For a valid bucket and a positive amount, the waiting time is exact: after a time since the last
-- refill, the call grants the amount exactly where the amount fits the capacity and the time makes
-- up the reported wait; and the wait is infinite exactly where the amount does not fit.
pub wait_exact :
    (b : TokenBucket) (amount elapsed : ℕ)
    → IsValid b
    → 1 ≤ amount
    → Returns (retry_after b amount) (λ wait.
      Returns (try_consume b amount (b.last_refilled_at + elapsed)) (λ (granted, _).
        ((granted ≡ true) ↔ (
          (amount ≤ b.capacity * b.refill_window)
          × ((w : ℕ) → wait ≡ some w → w ≤ elapsed * b.capacity)))
        × ((wait ≡ none) ↔ (b.capacity * b.refill_window < amount))))
wait_exact b amount elapsed h pos =
    let time : (b.last_refilled_at + elapsed) - b.last_refilled_at ≡ elapsed = omega arith in
    rw
      (
        retry-wait b amount h pos,
        consume-filled b amount (b.last_refilled_at + elapsed) h pos,
        time,
      )
      (
        (
          λ granted. (ground arith, λ w e. ground arith),
          λ (fits, waits). ground (arith, waits (amount - b.tokens)),
        ),
        (λ e. ground arith, λ over. ground arith),
      )
