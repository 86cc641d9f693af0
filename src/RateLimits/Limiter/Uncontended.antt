-- ===== src/RateLimits/Limiter/Uncontended.antt =====
-- `acquire` of src/pitwall/rate_limits/algorithm.py where nobody else uses the bucket.
use pitwall_gpu_broker.RateLimits.Algorithm.{seconds_until_available}
use pitwall_gpu_broker.RateLimits.Store.{
  refill_divisor, RateBucket, load, put, refilled, atomic_refill_consume,
}
use pitwall_gpu_broker.RateLimits.Store.Isolation.{load-key, load-put}
use pitwall_gpu_broker.RateLimits.Store.Grants.{perform_all}
use pitwall_gpu_broker.RateLimits.Limiter.{
  RateLimitConfig, granted, limited, Turn, is_over, attempts,
}
use pitwall_gpu_broker.Prelude.{
  ℕ, ◌+◌, ◌-◌, ◌*◌, ◌≤◌, min, String, ◌≡◌, refl, ◌⊎◌, inl, inr, true, false, some, List, [], ◌∷◌,
  arith, leb, Bool-cases, ok,
}

-- The tokens that a bucket has at an instant.
abbrev pub at_instant : RateBucket → ℕ → ℕ
at_instant b now =
    min (b.capacity * refill_divisor) (b.tokens + (now - b.last_refilled_at) * b.capacity)

at-refilled :
    (b : RateBucket) (now : ℕ) → b.last_refilled_at ≤ now → refilled b now ≡ some (at_instant b now)
unfolding refilled
at-refilled b now le = ground arith

-- A bucket that was read.
abbrev pub read_at : RateBucket → ℕ → RateBucket
read_at b now = record b { tokens = at_instant b now; last_refilled_at = now }

abbrev pub taken : RateBucket → ℕ → ℕ → RateBucket
taken b amount now = record b { tokens = at_instant b now - amount; last_refilled_at = now }

longer : (w window : ℕ) → refill_divisor ≤ window → w * refill_divisor ≤ w * window
longer w window h = grind arith

-- After the time that it was told, the bucket has the amount.
ripe :
    (b : RateBucket) (amount window first second : ℕ)
    → refill_divisor ≤ window
    → amount ≤ b.capacity * refill_divisor
    → (amount - at_instant b first) * window ≤ (second - first) * b.capacity * refill_divisor
    → amount ≤ at_instant (read_at b first) second
ripe b amount window first second enough fits slept =
    let more = longer (amount - at_instant b first) window enough in omega (arith, more)

consume-granted :
    (e o : String) (amount now : ℕ) (rows : List RateBucket) (b : RateBucket)
    → load e o rows ≡ some b
    → b.last_refilled_at ≤ now
    → leb amount (at_instant b now) ≡ true
    → atomic_refill_consume e o amount now rows
      ≡ (ok (taken b amount now, true), put (taken b amount now) rows)
unfolding atomic_refill_consume
consume-granted e o amount now rows b found le enough =
    rw (found, at-refilled b now le) (rw enough refl)

consume-refused :
    (e o : String) (amount now : ℕ) (rows : List RateBucket) (b : RateBucket)
    → load e o rows ≡ some b
    → b.last_refilled_at ≤ now
    → leb amount (at_instant b now) ≡ false
    → atomic_refill_consume e o amount now rows
      ≡ (ok (read_at b now, false), put (read_at b now) rows)
unfolding atomic_refill_consume
consume-refused e o amount now rows b found le short =
    rw (found, at-refilled b now le) (rw short refl)

told_wait :
    (b : RateBucket) (amount now : ℕ)
    → 1 ≤ b.capacity
    → 1 ≤ amount
    → amount ≤ b.capacity * refill_divisor
    → leb amount (at_instant b now) ≡ false
    → seconds_until_available (at_instant b now) b.capacity amount refill_divisor
      ≡ ok (some (amount - at_instant b now))
unfolding seconds_until_available
told_wait b amount now pos some_amount fits short = ground arith

-- Where nobody else uses a bucket of a positive capacity that was last refilled no later than the
-- first turn, with an amount that fits the capacity and a refill window of at least ten seconds:
-- `acquire` ends within two turns, the second of which comes no earlier than the time that the first
-- computed. It grants the amount, or the first turn finds that this time ends after the deadline,
-- and raises `RateLimited` with it.
pub two_turns :
    (config : RateLimitConfig) (e o : String) (amount deadline : ℕ) (first second : Turn)
    (rest : List Turn) (rows : List RateBucket) (b : RateBucket)
    → load e o rows ≡ some b
    → 1 ≤ b.capacity
    → b.last_refilled_at ≤ first.now
    → first.now ≤ second.now
    → 1 ≤ amount
    → amount ≤ b.capacity * refill_divisor
    → refill_divisor ≤ config.refill_window
    → first.others ≡ []
    → second.others ≡ []
    → (amount - at_instant b first.now) * config.refill_window
      ≤ (second.now - first.now) * b.capacity * refill_divisor
    → ((c : RateBucket) × ((attempts config e o amount deadline (first ∷ second ∷ rest) rows).0
          ≡ granted c))
      ⊎ (((attempts config e o amount deadline (first ∷ second ∷ rest) rows).0
            ≡ limited (some (amount - at_instant b first.now)))
          × (is_over config deadline first.monotonic b (amount - at_instant b first.now) ≡ true))
unfolding attempts perform_all
two_turns config e o amount deadline first second rest rows b found pos le later some_amount fits
      window alone alone' slept =
    elim (Bool-cases (leb amount (at_instant b first.now))) [
      | inl enough ↦ inl (
        taken b amount first.now,
        rw (alone, consume-granted e o amount first.now rows b found le enough) refl,
      )
      | inr short ↦
          let refused = consume-refused e o amount first.now rows b found le short in
          let told = told_wait b amount first.now pos some_amount fits short in
          elim (Bool-cases
            (is_over config deadline first.monotonic b (amount - at_instant b first.now))) [
              | inl over ↦ inr (rw (alone, refused) (rw (told) (rw over refl)), over)
              | inr time ↦
                  let again =
                    load-put e o (read_at b first.now) b rows (load-key e o b rows found) found in
                  let enough : leb amount (at_instant (read_at b first.now) second.now) ≡ true =
                    let done =
                      ripe b amount config.refill_window first.now second.now window fits slept in
                    ground arith in
                  let granted_now =
                    consume-granted e o amount second.now (put (read_at b first.now) rows)
                      (read_at b first.now) again later enough in
                  inl (
                    taken (read_at b first.now) amount second.now,
                    rw (alone, refused) (rw told (rw time (rw (alone', granted_now) refl))),
                  )
            ]
    ]
