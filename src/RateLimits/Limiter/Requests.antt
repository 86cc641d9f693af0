-- ===== src/RateLimits/Limiter/Requests.antt =====
-- `acquire` of src/pitwall/rate_limits/algorithm.py as requests to the store, which other callers'
-- requests interleave with.
use pitwall_gpu_broker.RateLimits.Algorithm.{RateError, seconds_until_available}
use pitwall_gpu_broker.RateLimits.Store.{refill_divisor, RateBucket, Ran, atomic_refill_consume}
use pitwall_gpu_broker.RateLimits.Store.Grants.{Request, consume, perform, perform_all}
use pitwall_gpu_broker.RateLimits.Store.Kept.{granted_by}
use pitwall_gpu_broker.RateLimits.Limiter.{
  RateLimitConfig, Ending, granted, limited, failed, waiting, Turn, Tried, is_over, wait_or,
  after_consume, attempts,
}
use pitwall_gpu_broker.Prelude.{
  ℕ, ◌+◌, String, ◌≡◌, refl, sym, ap, ◌∙◌, inl, inr, Bool, true, false, Option, none, some, List,
  [], ◌∷◌, ◌++◌, arith, eq_iff, Bool-cases, Result, ok, err,
}

-- What `acquire` takes where it ends so.
abbrev pub takes : ℕ → Ending → ℕ
takes amount (granted b) = amount
takes amount (limited w) = 0
takes amount (failed e) = 0
takes amount waiting = 0

module _ (e o : String) (amount : ℕ) where
  -- The requests of some turns, the others' first.
  abbrev pub asked : List Turn → List (ℕ × Request)
  asked [] = []
  asked (t ∷ ts) = t.others ++ ((t.now, consume e o amount) ∷ asked ts)

  -- What the others take of the bucket in these turns.
  abbrev pub others_took : List Turn → List RateBucket → ℕ
  others_took [] rows = 0
  others_took (t ∷ ts) rows =
      let before = perform_all e o t.others rows in
      before.0 + others_took ts (atomic_refill_consume e o amount t.now before.1).1

  all-append_rows :
      (xs ys : List (ℕ × Request)) (rows : List RateBucket)
      → (perform_all e o (xs ++ ys) rows).1 ≡ (perform_all e o ys (perform_all e o xs rows).1).1
  unfolding perform_all
  all-append_rows [] ys rows = refl
  all-append_rows ((now, r) ∷ xs) ys rows = all-append_rows xs ys (perform e o now r rows).1

  all-append_total :
      (xs ys : List (ℕ × Request)) (rows : List RateBucket)
      → (perform_all e o (xs ++ ys) rows).0
        ≡ (perform_all e o xs rows).0 + (perform_all e o ys (perform_all e o xs rows).1).0
  unfolding perform_all
  all-append_total [] ys rows = omega arith
  all-append_total ((now, r) ∷ xs) ys rows =
      let rest = all-append_total xs ys (perform e o now r rows).1 in omega (arith, rest)

  own :
      (now : ℕ) (rows : List RateBucket)
      → perform e o now (consume e o amount) rows ≡ (
        granted_by amount (atomic_refill_consume e o amount now rows),
        (atomic_refill_consume e o amount now rows).1,
      )
  unfolding perform
  own now rows =
      let same_e = (eq_iff e e).1 refl in
      let same_o = (eq_iff o o).1 refl in rw (same_e, same_o) refl

  turn-rows :
      (t : Turn) (ts : List Turn) (rows : List RateBucket)
      → (perform_all e o (asked (t ∷ ts)) rows).1
        ≡ (perform_all e o
            (asked ts)
            (atomic_refill_consume e o amount t.now (perform_all e o t.others rows).1).1).1
  unfolding perform_all
  turn-rows t ts rows =
      all-append_rows t.others ((t.now, consume e o amount) ∷ asked ts) rows ∙ first
    where
      first :
          (perform_all e o
            ((t.now, consume e o amount) ∷ asked ts)
            (perform_all e o t.others rows).1).1
          ≡ (perform_all e o
              (asked ts)
              (atomic_refill_consume e o amount t.now (perform_all e o t.others rows).1).1).1
      first =
          ap (λ (x : ℕ × List RateBucket). (perform_all e o (asked ts) x.1).1)
            (own t.now (perform_all e o t.others rows).1)

  turn-total :
      (t : Turn) (ts : List Turn) (rows : List RateBucket)
      → let before = perform_all e o t.others rows in
        let r = atomic_refill_consume e o amount t.now before.1 in
        (perform_all e o (asked (t ∷ ts)) rows).0
        ≡ before.0 + (granted_by amount r + (perform_all e o (asked ts) r.1).0)
  unfolding perform_all
  turn-total t ts rows =
      all-append_total t.others ((t.now, consume e o amount) ∷ asked ts) rows
      ∙ ap (λ x. (perform_all e o t.others rows).0 + x) first
    where
      first :
          (perform_all e o
            ((t.now, consume e o amount) ∷ asked ts)
            (perform_all e o t.others rows).1).0
          ≡ granted_by amount
              (atomic_refill_consume e o amount t.now (perform_all e o t.others rows).1)
            + (perform_all e o
                (asked ts)
                (atomic_refill_consume e o amount t.now (perform_all e o t.others rows).1).1).0
      first =
          ap (λ (x : ℕ × List RateBucket). x.0 + (perform_all e o (asked ts) x.1).0)
            (own t.now (perform_all e o t.others rows).1)

-- The turns that were used, the table after them, and what was taken in them.
pub record Accounted (e o : String) (amount : ℕ) (turns : List Turn) (rows : List RateBucket)
    (r : Tried) : Type 0 where
  pub used : List Turn
  pub unused : List Turn
  pub split : turns ≡ used ++ unused
  pub table : r.1 ≡ (perform_all e o (asked e o amount used) rows).1
  pub total :
      (perform_all e o (asked e o amount used) rows).0
      ≡ others_took e o amount used rows + takes amount r.0

-- The loop of `acquire`, however other callers' requests are interleaved with its turns, is a
-- sequence of requests to the store: those of the turns that it used. It takes the amount out of
-- its bucket once where it is granted, and otherwise nothing.
pub acquire_accounts :
    (config : RateLimitConfig) (e o : String) (amount deadline : ℕ) (turns : List Turn)
    (rows : List RateBucket)
    → Accounted e o amount turns rows (attempts config e o amount deadline turns rows)
unfolding attempts perform_all
acquire_accounts config e o amount deadline [] rows = record {
  used = [];
  unused = [];
  split = refl;
  table = refl;
  total = refl;
}
acquire_accounts config e o amount deadline (t ∷ ts) rows =
    tried (λ rows'. acquire_accounts config e o amount deadline ts rows')
      (atomic_refill_consume e o amount t.now before) refl
  where
    before : List RateBucket
    before = (perform_all e o t.others rows).1

    next : List RateBucket → Tried
    next = attempts config e o amount deadline ts

    -- What the loop does after this turn.
    Later : Type 0
    Later = (rows' : List RateBucket) → Accounted e o amount ts rows' (next rows')

    -- The loop ends with this turn.
    ends :
        (r : Ran (RateBucket × Bool)) (ending : Ending)
        → atomic_refill_consume e o amount t.now before ≡ r
        → granted_by amount r ≡ takes amount ending
        → Accounted e o amount (t ∷ ts) rows (ending, r.1)
    ends r ending h same = record {
      used = t ∷ [];
      unused = ts;
      split = refl;
      table = sym (turn-rows e o amount t [] rows ∙ ap (λ x. x.1) h);
      total =
          let sum = turn-total e o amount t [] rows in
          let took = ap (granted_by amount) h in omega (arith, sum, took, same);
    }

    -- It goes on.
    goes_on :
        Later
        → (r : Ran (RateBucket × Bool)) → atomic_refill_consume e o amount t.now before ≡ r
        → granted_by amount r ≡ 0
        → Accounted e o amount (t ∷ ts) rows (next r.1)
    goes_on again r h none_taken =
        let rest = again r.1 in
        let same_rows = ap (λ (x : Ran (RateBucket × Bool)). x.1) h in
        record {
          used = t ∷ rest.used;
          unused = rest.unused;
          split = ap (λ us. t ∷ us) rest.split;
          table =
              rest.table
              ∙ sym (
                  turn-rows e o amount t rest.used rows
                  ∙ ap (λ x. (perform_all e o (asked e o amount rest.used) x).1) same_rows);
          total =
              let sum = turn-total e o amount t rest.used rows in
              let took = ap (granted_by amount) h in
              let later = rest.total in
              let same_total =
                ap (λ x. (perform_all e o (asked e o amount rest.used) x).0) same_rows in
              let same_others = ap (λ x. others_took e o amount rest.used x) same_rows in
              omega (arith, sum, took, none_taken, later, same_total, same_others);
        }

    waited :
        Later
        → (b : RateBucket) (rows' : List RateBucket) (w : Result RateError (Option ℕ))
        → atomic_refill_consume e o amount t.now before ≡ (ok (b, false), rows')
        → Accounted e o amount (t ∷ ts) rows (wait_or config deadline t.monotonic b w next rows')
    waited again b rows' (err x) h = ends (ok (b, false), rows') _ h refl
    waited again b rows' (ok none) h = ends (ok (b, false), rows') _ h refl
    waited again b rows' (ok (some w)) h =
        elim (Bool-cases (is_over config deadline t.monotonic b w)) [
          | inl over ↦ rw over (ends (ok (b, false), rows') (limited (some w)) h refl)
          | inr time ↦ rw time (goes_on again (ok (b, false), rows') h refl)
        ]

    tried :
        Later
        → (r : Ran (RateBucket × Bool)) → atomic_refill_consume e o amount t.now before ≡ r
        → Accounted e o amount
            (t ∷ ts)
            rows
            (after_consume config amount deadline t.monotonic r next)
    tried again (err x, rows') h = ends (err x, rows') _ h refl
    tried again (ok (b, true), rows') h = ends (ok (b, true), rows') _ h refl
    tried again (ok (b, false), rows') h =
        waited again b rows' (seconds_until_available b.tokens b.capacity amount refill_divisor) h
