-- ===== src/Tests/Limits.antt =====
-- Tests of the rate limits (src/pitwall/rate_limits/algorithm.py).
use pitwall_gpu_broker.RateLimits.Algorithm.{TokenBucket, retry_after, try_consume}
use pitwall_gpu_broker.RateLimits.Algorithm.Bucket.{
  IsValid, Operation, consume_at, resize_at, run_operations, refilled, grants_bounded, wait_exact,
}
use pitwall_gpu_broker.Prelude.{
  Returns, ℕ, ◌+◌, ◌*◌, ◌≤◌, ◌<◌, ◌≡◌, ◌↔◌, true, none, some, List, [], ◌∷◌, arith,
}

abbrev bucket : TokenBucket
bucket = record { capacity = 4; tokens = 10; last_refilled_at = 100; refill_window = 10 }

bucket-IsValid : IsValid bucket
bucket-IsValid = record {
  capacity_positive = omega arith;
  window_positive = omega arith;
  bounded = omega arith;
}

abbrev operations : List Operation
operations = consume_at 10 101 ∷ consume_at 10 101 ∷ resize_at 2 102 ∷ []

grants_bounded_example :
    Returns
      (run_operations bucket operations)
      (λ (granted, b'). IsValid b' × (granted + b'.tokens ≤ 10 + refilled 4 100 operations))
grants_bounded_example =
    grants_bounded bucket operations bucket-IsValid (omega arith, (omega arith, (omega arith, tt)))

wait_exact_example : Returns (retry_after bucket 20) (λ wait.
    Returns (try_consume bucket 20 103) (λ (granted, _).
      ((granted ≡ true) ↔ ((20 ≤ 4 * 10) × ((w : ℕ) → wait ≡ some w → w ≤ 3 * 4)))
      × ((wait ≡ none) ↔ (4 * 10 < 20))))
wait_exact_example = wait_exact bucket 20 3 bucket-IsValid (omega arith)
