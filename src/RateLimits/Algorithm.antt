-- ===== src/RateLimits/Algorithm.antt =====
-- src/pitwall/rate_limits/algorithm.py: the token bucket and the capacity after a 429. Instants and
-- durations are counted in one unit of time. Tokens are counted in fractions of which one refill
-- window makes a whole token, so that the refill `elapsed * capacity / window` is exact: what the
-- code keeps as a float is here the amount that it stands for.
pub mod Bucket
pub mod Capacity
use pitwall_gpu_broker.Prelude.{
  ℕ, ◌+◌, ◌-◌, ◌*◌, ◌/◌, min, max, Bool, true, false, Option, none, some, ltb, leb, if◌then◌else◌,
  Result, ok, raise_if, ◌>>=◌, ◌>>◌,
}

pub data RateError : Type 0 where
  bad_base_limit bad_capacity bad_window bad_amount : RateError

-- `max(base_limit, worker_count * per_worker_limit)`
unfoldable pub dynamic_capacity : ℕ → ℕ → ℕ → Result RateError ℕ
dynamic_capacity base_limit worker_count per_worker_limit = do
  raise_if (leb base_limit 0) bad_base_limit
  ok (max base_limit (worker_count * per_worker_limit))

unfoldable pub halved_capacity : ℕ → Result RateError ℕ
halved_capacity capacity = do raise_if (leb capacity 0) bad_capacity; ok (max 1 (capacity / 2))

-- The capacity on the way back, at a positive time since the 429 that is below the window.
abbrev recovered : ℕ → ℕ → ℕ → ℕ → ℕ
recovered target reduced elapsed window =
    min target (max reduced (reduced + (target - reduced) * elapsed / window))

unfoldable pub capacity_after_429 : ℕ → Option ℕ → ℕ → ℕ → Result RateError ℕ
unfolding halved_capacity
capacity_after_429 target recent_429_at now window = do
  raise_if (leb target 0) bad_capacity
  raise_if (leb window 0) bad_window
  elim recent_429_at [
    | none ↦ ok target
    | some since ↦ if leb (since + window) now then ok target else do
      reduced ← halved_capacity target
      if leb now since then ok reduced else ok (recovered target reduced (now - since) window)
  ]

pub refill_tokens : ℕ → ℕ → ℕ → ℕ → Result RateError ℕ
refill_tokens tokens capacity elapsed window = do
  raise_if (leb capacity 0) bad_capacity
  raise_if (leb window 0) bad_window
  ok (min (capacity * window) (tokens + elapsed * capacity))

-- The time until the amount is there, in units of which the capacity makes one unit of time;
-- `none` is `math.inf`.
unfoldable pub seconds_until_available : ℕ → ℕ → ℕ → ℕ → Result RateError (Option ℕ)
seconds_until_available tokens capacity needed window = do
  raise_if (leb capacity 0) bad_capacity
  raise_if (leb needed 0) bad_amount
  raise_if (leb window 0) bad_window
  ok (
      if leb needed tokens
      then some 0
      else if ltb (capacity * window) needed
      then none
      else some (needed - tokens))

pub record TokenBucket : Type 0 where
  pub capacity : ℕ
  pub tokens : ℕ
  pub last_refilled_at : ℕ
  pub refill_window : ℕ

abbrev or_full : Option ℕ → ℕ → ℕ
or_full none full = full
or_full (some tokens) full = tokens

-- `TokenBucket(...)` with its `__post_init__`.
pub token_bucket : ℕ → Option ℕ → ℕ → ℕ → Result RateError TokenBucket
token_bucket capacity tokens now window = do
  raise_if (leb capacity 0) bad_capacity
  raise_if (leb window 0) bad_window
  ok (record {
    capacity = capacity;
    tokens = min (capacity * window) (or_full tokens (capacity * window));
    last_refilled_at = now;
    refill_window = window;
  })

-- An instant before the last refill counts as no time, and moves the last refill back.
pub refill : TokenBucket → ℕ → Result RateError TokenBucket
unfolding refill_tokens
refill b now = do
  tokens ← refill_tokens b.tokens b.capacity (now - b.last_refilled_at) b.refill_window
  ok (record b { tokens = tokens; last_refilled_at = now })

pub resize : TokenBucket → ℕ → ℕ → Result RateError TokenBucket
unfolding refill
resize b capacity now = do
  raise_if (leb capacity 0) bad_capacity
  filled ← refill b now
  ok (record filled {
    capacity = capacity;
    tokens = min (capacity * b.refill_window) filled.tokens;
  })

pub try_consume : TokenBucket → ℕ → ℕ → Result RateError (Bool × TokenBucket)
unfolding refill
try_consume b amount now = do
  raise_if (leb amount 0) bad_amount
  filled ← refill b now
  if ltb filled.tokens amount
      then ok (false, filled)
      else ok (true, record filled { tokens = filled.tokens - amount })

pub retry_after : TokenBucket → ℕ → Result RateError (Option ℕ)
unfolding seconds_until_available
retry_after b amount = seconds_until_available b.tokens b.capacity amount b.refill_window
