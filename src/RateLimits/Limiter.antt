-- ===== src/RateLimits/Limiter.antt =====
-- src/pitwall/rate_limits/algorithm.py: `TokenBucketRateLimiter` over the store of
-- src/pitwall/rate_limits/store.py. One turn of the loop of `acquire` reads the store and then the
-- monotonic clock; what other callers ask of the store before it, and both clocks, are given by a
-- schedule of turns. Tokens and instants are counted as in RateLimits/Store.antt; a time
-- `retry_after_s` is an amount of tokens w, which is the time w * refill_window / (divisor * capacity).
pub mod Uncontended
pub mod Requests
use pitwall_gpu_broker.RateLimits.Algorithm.{
  RateError, dynamic_capacity, halved_capacity, capacity_after_429, seconds_until_available,
}
use pitwall_gpu_broker.RateLimits.Store.{
  refill_divisor, RateBucket, StoreError, Ran, load_or_create, atomic_refill_consume, record_429,
  update_capacity,
}
use pitwall_gpu_broker.RateLimits.Store.Grants.{Request, perform_all}
use pitwall_gpu_broker.Prelude.{
  ℕ, ◌+◌, ◌*◌, String, Bool, true, false, Option, none, some, List, [], ◌∷◌, ltb, ◌==◌,
  if◌then◌else◌, Result, ok, err,
}

pub record RateLimitConfig : Type 0 where
  pub base_limit : ℕ
  pub per_worker_limit : ℕ
  pub refill_window : ℕ
  pub max_local_wait : ℕ
  pub capacity_rebuild_window : ℕ

pub data LimiterError : Type 0 where
  bad_tokens : LimiterError
  of_rate : RateError → LimiterError
  of_store : StoreError → LimiterError

-- How `acquire` ends: with the bucket, with `RateLimited` and its time, of which none is infinite,
-- or with another error; `waiting` where the schedule ends before the loop does.
pub data Ending : Type 0 where
  granted : RateBucket → Ending
  limited : Option ℕ → Ending
  failed : LimiterError → Ending
  waiting : Ending

pub record Turn : Type 0 where
  pub others : List (ℕ × Request)
  pub now : ℕ
  pub monotonic : ℕ

abbrev pub lift : {A : Type 0} → Ran A → Result LimiterError (Unit {0}) × List RateBucket
lift (ok a, rows) = (ok tt, rows)
lift (err e, rows) = (err (of_store e), rows)

abbrev pub adjust :
    String
    → String
    → ℕ
    → ℕ
    → Result RateError ℕ
    → List RateBucket
    → Result LimiterError (Unit {0}) × List RateBucket
adjust endpoint_id operation now held (err e) rows = (err (of_rate e), rows)
adjust endpoint_id operation now held (ok effective) rows =
    if held == effective
    then (ok tt, rows)
    else lift (update_capacity endpoint_id operation effective now rows)

abbrev pub adjust_loaded :
    RateLimitConfig
    → String
    → String
    → ℕ
    → ℕ
    → Ran RateBucket
    → Result LimiterError (Unit {0}) × List RateBucket
adjust_loaded config endpoint_id operation capacity now (err e, rows) = (err (of_store e), rows)
adjust_loaded config endpoint_id operation capacity now (ok b, rows) =
    adjust endpoint_id operation now b.capacity
      (capacity_after_429 capacity b.recent_429_at now config.capacity_rebuild_window) rows

-- `_ensure_bucket_capacity`
unfoldable pub ensure_bucket_capacity :
    RateLimitConfig
    → String
    → String
    → ℕ
    → ℕ
    → List RateBucket
    → Result LimiterError (Unit {0}) × List RateBucket
unfolding load_or_create update_capacity capacity_after_429
ensure_bucket_capacity config endpoint_id operation capacity now rows =
    adjust_loaded config endpoint_id operation capacity now
      (load_or_create endpoint_id operation capacity now rows)

-- `capacity_for_workers`
abbrev pub capacity_for_workers : RateLimitConfig → ℕ → Result RateError ℕ
capacity_for_workers config worker_count =
    dynamic_capacity config.base_limit worker_count config.per_worker_limit

-- `retry_after_s > remaining_wait_s`
abbrev pub is_over : RateLimitConfig → ℕ → ℕ → RateBucket → ℕ → Bool
is_over config deadline monotonic b w =
    ltb (deadline * b.capacity * refill_divisor)
      (w * config.refill_window + monotonic * b.capacity * refill_divisor)

abbrev pub Tried : Type 0
Tried = Ending × List RateBucket

abbrev pub wait_or :
    RateLimitConfig
    → ℕ
    → ℕ
    → RateBucket
    → Result RateError (Option ℕ)
    → (List RateBucket → Tried)
    → List RateBucket
    → Tried
wait_or config deadline monotonic b (err e) next rows = (failed (of_rate e), rows)
wait_or config deadline monotonic b (ok none) next rows = (limited none, rows)
wait_or config deadline monotonic b (ok (some w)) next rows =
    if is_over config deadline monotonic b w then (limited (some w), rows) else next rows

abbrev pub after_consume :
    RateLimitConfig → ℕ → ℕ → ℕ → Ran (RateBucket × Bool) → (List RateBucket → Tried) → Tried
after_consume config amount deadline monotonic (err e, rows) next = (failed (of_store e), rows)
after_consume config amount deadline monotonic (ok (b, true), rows) next = (granted b, rows)
after_consume config amount deadline monotonic (ok (b, false), rows) next =
    wait_or config deadline monotonic b
      (seconds_until_available b.tokens b.capacity amount refill_divisor) next rows

-- The loop of `acquire`.
unfoldable pub attempts :
    RateLimitConfig → String → String → ℕ → ℕ → List Turn → List RateBucket → Tried
unfolding perform_all atomic_refill_consume seconds_until_available
attempts config endpoint_id operation amount deadline [] rows = (waiting, rows)
attempts config endpoint_id operation amount deadline (t ∷ ts) rows =
    after_consume config amount deadline t.monotonic
      (atomic_refill_consume endpoint_id operation amount t.now
        (perform_all endpoint_id operation t.others rows).1)
      (attempts config endpoint_id operation amount deadline ts)

abbrev pub start_loop :
    Result LimiterError (Unit {0}) × List RateBucket → (List RateBucket → Tried) → Tried
start_loop (err e, rows) loop = (failed e, rows)
start_loop (ok _, rows) loop = loop rows

abbrev pub acquire_at :
    RateLimitConfig
    → String
    → String
    → ℕ
    → ℕ
    → ℕ
    → List Turn
    → Result RateError ℕ
    → List RateBucket
    → Tried
acquire_at config endpoint_id operation amount now monotonic turns (err e) rows =
    (failed (of_rate e), rows)
acquire_at config endpoint_id operation amount now monotonic turns (ok capacity) rows =
    start_loop (ensure_bucket_capacity config endpoint_id operation capacity now rows)
      (attempts config endpoint_id operation amount (monotonic + config.max_local_wait) turns)

unfoldable pub acquire :
    RateLimitConfig → String → String → ℕ → ℕ → ℕ → ℕ → List Turn → List RateBucket → Tried
unfolding ensure_bucket_capacity attempts dynamic_capacity
acquire config endpoint_id operation worker_count amount now monotonic turns rows =
    if amount == 0
    then (failed bad_tokens, rows)
    else acquire_at config endpoint_id operation amount now monotonic turns
        (capacity_for_workers config worker_count) rows

abbrev note_at :
    String
    → String
    → ℕ
    → Result RateError ℕ
    → List RateBucket
    → Result LimiterError (Unit {0}) × List RateBucket
note_at endpoint_id operation now (err e) rows = (err (of_rate e), rows)
note_at endpoint_id operation now (ok half) rows =
    lift (record_429 endpoint_id operation (some half) now rows)

abbrev note_ensured :
    String
    → String
    → ℕ
    → ℕ
    → Result LimiterError (Unit {0}) × List RateBucket
    → Result LimiterError (Unit {0}) × List RateBucket
note_ensured endpoint_id operation now target (err e, rows) = (err e, rows)
note_ensured endpoint_id operation now target (ok _, rows) =
    note_at endpoint_id operation now (halved_capacity target) rows

abbrev note_target :
    RateLimitConfig
    → String
    → String
    → ℕ
    → Result RateError ℕ
    → List RateBucket
    → Result LimiterError (Unit {0}) × List RateBucket
note_target config endpoint_id operation now (err e) rows = (err (of_rate e), rows)
note_target config endpoint_id operation now (ok target) rows =
    note_ensured endpoint_id operation now target
      (ensure_bucket_capacity config endpoint_id operation target now rows)

-- `record_429` of the limiter.
pub limiter_record_429 :
    RateLimitConfig
    → String
    → String
    → ℕ
    → ℕ
    → List RateBucket
    → Result LimiterError (Unit {0}) × List RateBucket
limiter_record_429 config endpoint_id operation worker_count now rows =
    note_target config endpoint_id operation now (capacity_for_workers config worker_count) rows
