-- ===== src/Tests/Limiters.antt =====
-- Tests of the bucket store and of the limiter (src/pitwall/rate_limits).
use pitwall_gpu_broker.RateLimits.Algorithm.{
  seconds_until_available, dynamic_capacity, capacity_after_429, halved_capacity,
}
use pitwall_gpu_broker.RateLimits.Store.{
  RateBucket, load, refilled, atomic_refill_consume, load_or_create, update_capacity,
  negative_tokens, record_429,
}
use pitwall_gpu_broker.RateLimits.Store.Kept.{Kept}
use pitwall_gpu_broker.RateLimits.Store.Grants.{
  Request, consume, note_429, set_capacity, ensure, perform, perform_all, last_time, store_bounded,
}
use pitwall_gpu_broker.RateLimits.Limiter.{
  RateLimitConfig, granted, limited, Turn, is_over, attempts, acquire, ensure_bucket_capacity,
}
use pitwall_gpu_broker.RateLimits.Limiter.Uncontended.{at_instant, two_turns}
use pitwall_gpu_broker.RateLimits.Limiter.Requests.{Accounted, acquire_accounts}
use pitwall_gpu_broker.Prelude.{ℕ, ◌-◌, ◌≡◌, refl, ◌⊎◌, true, none, some, List, [], ◌∷◌, arith, err}

-- Half a token of four, and the full bucket of another endpoint.
abbrev scarce : RateBucket
scarce = record {
  endpoint_id = "ep1";
  operation = "run";
  capacity = 4;
  tokens = 5000000;
  last_refilled_at = 1000;
  recent_429_at = none;
}

abbrev rich : RateBucket
rich = record {
  endpoint_id = "ep2";
  operation = "run";
  capacity = 2;
  tokens = 20000000;
  last_refilled_at = 2000000;
  recent_429_at = none;
}

abbrev buckets : List RateBucket
buckets = rich ∷ scarce ∷ []

abbrev requests : List (ℕ × Request)
requests =
    (1001000, consume "ep1" "run" 10000000)
    ∷ (2001000, consume "ep1" "run" 3000000)
    ∷ (2001000, consume "ep2" "run" 9000000)
    ∷ (2002000, note_429 "ep1" "run" none)
    ∷ (2003000, set_capacity "ep1" "run" 4)
    ∷ (2004000, ensure "ep3" "run" 9)
    ∷ []

took : (perform_all "ep1" "run" requests buckets).0 ≡ 3000000
unfolding perform_all perform atomic_refill_consume refilled record_429 update_capacity
    load_or_create halved_capacity
took = refl

-- A clock that is far behind the last refill.
behind :
    (atomic_refill_consume "ep1" "run" 1 0
      (record scarce { tokens = 10; last_refilled_at = 100 } ∷ [])).0
    ≡ err negative_tokens
unfolding atomic_refill_consume refilled
behind = refl

scarce-found : load "ep1" "run" buckets ≡ some scarce
scarce-found = refl

store_bounded_example :
    Kept 4 "ep1" "run"
      (last_time 1000 requests)
      scarce
      (perform_all "ep1" "run" requests buckets).0
      (perform_all "ep1" "run" requests buckets).1
store_bounded_example =
    store_bounded 4 "ep1" "run" 1000 requests buckets scarce scarce-found (omega arith)
      (omega arith) (omega arith)
      (
        omega arith,
        tt,
        (
          omega arith,
          tt,
          (omega arith, tt, (omega arith, tt, (omega arith, omega arith, (omega arith, tt, tt)))),
        ),
      )

abbrev config : RateLimitConfig
config = record {
  base_limit = 4;
  per_worker_limit = 1;
  refill_window = 10000000;
  max_local_wait = 2000000;
  capacity_rebuild_window = 60000000;
}

-- One token is there 1.25 seconds after half a token.
abbrev early : Turn
early = record { others = []; now = 1000; monotonic = 50 }

abbrev late : Turn
late = record { others = []; now = 1251000; monotonic = 1250050 }

two_turns_example :
    let r = attempts config "ep1" "run" 10000000 2000050 (early ∷ late ∷ []) buckets in
    ((c : RateBucket) × (r.0 ≡ granted c))
    ⊎ ((r.0 ≡ limited (some (10000000 - at_instant scarce 1000)))
        × (is_over config 2000050 50 scarce (10000000 - at_instant scarce 1000) ≡ true))
two_turns_example =
    two_turns config "ep1" "run" 10000000 2000050 early late [] buckets scarce scarce-found
      (omega arith) (omega arith) (omega arith) (omega arith) (omega arith) (omega arith) refl refl
      (omega arith)

-- Another caller takes what has been refilled before the first turn.
abbrev contended : List Turn
contended = record early { others = (900, consume "ep1" "run" 4000000) ∷ [] } ∷ late ∷ []

acquire_accounts_example :
    Accounted "ep1" "run" 5000000 contended buckets
      (attempts config "ep1" "run" 5000000 2000050 contended buckets)
acquire_accounts_example = acquire_accounts config "ep1" "run" 5000000 2000050 contended buckets

served :
    (acquire config "ep1" "run" 1 5000000 1000 50 contended buckets).0
    ≡ granted (record scarce { tokens = 1000000; last_refilled_at = 1251000 })
unfolding acquire attempts ensure_bucket_capacity perform_all perform atomic_refill_consume refilled
    load_or_create update_capacity seconds_until_available dynamic_capacity capacity_after_429
served = refl
