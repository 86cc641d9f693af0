-- ===== src/RateLimits/Store.antt =====
-- src/pitwall/rate_limits/store.py: `RateBucketStore`, whose table is a list of rows with their key
-- (endpoint_id, operation). Instants are microseconds; tokens are counted in fractions of which the
-- refill of ten seconds makes one token, as in RateLimits/Algorithm.antt. The column `tokens` is
-- checked to be at least 0, and an UPDATE that breaks this raises and leaves the row. The instant
-- `now` that a method reads is an argument.

pub mod Isolation
pub mod Moves
pub mod Kept
pub mod Grants
use pitwall_gpu_broker.RateLimits.Algorithm.{RateError, halved_capacity}
use pitwall_gpu_broker.Prelude.{
  ℕ, zero, suc, ◌+◌, ◌-◌, ◌*◌, min, String, Bool, ◌&&◌, Option, none, some, List, [], ◌∷◌, ◌++◌,
  leb, ◌==◌, str_eq, if◌then◌else◌, Result, ok, err,
}

-- Ten seconds, `_REFILL_RATE_DIVISOR`.
abbrev pub refill_divisor : ℕ
refill_divisor = 10000000

pub record RateBucket : Type 0 where
  pub endpoint_id : String
  pub operation : String
  pub capacity : ℕ
  pub tokens : ℕ
  pub last_refilled_at : ℕ
  pub recent_429_at : Option ℕ

pub data StoreError : Type 0 where
  no_bucket bucket_exists negative_tokens bad_new_capacity capacity_check : StoreError
  rate : RateError → StoreError

-- What a method returns, and the table after it.
abbrev pub Ran : Type 0 → Type 0
Ran A = Result StoreError A × List RateBucket

abbrev pub has_key : String → String → RateBucket → Bool
has_key endpoint_id operation b = str_eq b.endpoint_id endpoint_id && str_eq b.operation operation

-- `load`
abbrev pub load : String → String → List RateBucket → Option RateBucket
load endpoint_id operation [] = none
load endpoint_id operation (b ∷ bs) =
    if has_key endpoint_id operation b then some b else load endpoint_id operation bs

-- `UPDATE ... WHERE endpoint_id = $1 AND operation = $2`, where the key is that of the row b.
abbrev pub put : RateBucket → List RateBucket → List RateBucket
put b [] = []
put b (c ∷ cs) = if has_key b.endpoint_id b.operation c then b ∷ cs else c ∷ put b cs

abbrev pub insert_row : RateBucket → List RateBucket → Ran RateBucket
insert_row b rows = if b.capacity == 0 then (err capacity_check, rows) else (ok b, rows ++ (b ∷ []))

abbrev or_else : Option ℕ → ℕ → ℕ
or_else none d = d
or_else (some x) d = x

abbrev create_where : Option RateBucket → RateBucket → List RateBucket → Ran RateBucket
create_where (some b) new rows = (err bucket_exists, rows)
create_where none new rows = insert_row new rows

-- `create`, with its optional tokens and instants.
pub create :
    String → String → ℕ → Option ℕ → Option ℕ → Option ℕ → ℕ → List RateBucket → Ran RateBucket
create endpoint_id operation capacity tokens last_refilled_at recent_429_at now rows =
    create_where (load endpoint_id operation rows)
      (record {
        endpoint_id = endpoint_id;
        operation = operation;
        capacity = capacity;
        tokens = or_else tokens (capacity * refill_divisor);
        last_refilled_at = or_else last_refilled_at now;
        recent_429_at = recent_429_at;
      })
      rows

abbrev pub full_bucket : String → String → ℕ → ℕ → RateBucket
full_bucket endpoint_id operation capacity now = record {
  endpoint_id = endpoint_id;
  operation = operation;
  capacity = capacity;
  tokens = capacity * refill_divisor;
  last_refilled_at = now;
  recent_429_at = none;
}

abbrev pub loaded_or : Option RateBucket → RateBucket → List RateBucket → Ran RateBucket
loaded_or (some b) new rows = if new.capacity == 0 then (err capacity_check, rows) else (ok b, rows)
loaded_or none new rows = insert_row new rows

-- `load_or_create`; the check of the capacity comes before the conflict.
unfoldable pub load_or_create : String → String → ℕ → ℕ → List RateBucket → Ran RateBucket
load_or_create endpoint_id operation capacity now rows =
    loaded_or (load endpoint_id operation rows) (full_bucket endpoint_id operation capacity now)
      rows

-- `min(capacity, tokens + elapsed_seconds * refill_rate)`, where the time may be negative; none for
-- a negative amount.
unfoldable pub refilled : RateBucket → ℕ → Option ℕ
refilled b now =
    if leb b.last_refilled_at now
    then some
        (min (b.capacity * refill_divisor) (b.tokens + (now - b.last_refilled_at) * b.capacity))
    else (let lost = (b.last_refilled_at - now) * b.capacity in
        if leb lost b.tokens
        then some (min (b.capacity * refill_divisor) (b.tokens - lost))
        else none)

abbrev pub consume_refilled :
    Option ℕ → RateBucket → ℕ → ℕ → List RateBucket → Ran (RateBucket × Bool)
consume_refilled none b amount now rows = (err negative_tokens, rows)
consume_refilled (some new_tokens) b amount now rows =
    let allowed = leb amount new_tokens in
    let updated = record b {
      tokens = if allowed then new_tokens - amount else new_tokens;
      last_refilled_at = now;
    } in
    (ok (updated, allowed), put updated rows)

abbrev pub consume_found : Option RateBucket → ℕ → ℕ → List RateBucket → Ran (RateBucket × Bool)
consume_found none amount now rows = (err no_bucket, rows)
consume_found (some b) amount now rows = consume_refilled (refilled b now) b amount now rows

unfoldable pub atomic_refill_consume :
    String → String → ℕ → ℕ → List RateBucket → Ran (RateBucket × Bool)
unfolding refilled
atomic_refill_consume endpoint_id operation amount now rows =
    consume_found (load endpoint_id operation rows) amount now rows

abbrev pub reduced : ℕ → Option ℕ → ℕ
reduced half none = half
reduced half (some c) = min half c

abbrev pub note_found :
    Result RateError ℕ → Option ℕ → RateBucket → ℕ → List RateBucket → Ran RateBucket
note_found (err e) new_capacity b now rows = (err (rate e), rows)
note_found (ok half) new_capacity b now rows =
    let capacity = reduced half new_capacity in
    let refilled_tokens =
      min (b.capacity * refill_divisor) (b.tokens + (now - b.last_refilled_at) * b.capacity) in
    let updated = record b {
      capacity = capacity;
      tokens = min (capacity * refill_divisor) refilled_tokens;
      last_refilled_at = now;
      recent_429_at = some now;
    } in
    (ok updated, put updated rows)

abbrev pub note_loaded : Option RateBucket → Option ℕ → ℕ → List RateBucket → Ran RateBucket
note_loaded none new_capacity now rows = (err no_bucket, rows)
note_loaded (some b) new_capacity now rows =
    note_found (halved_capacity b.capacity) new_capacity b now rows

-- `record_429`; a negative time counts as none.
unfoldable pub record_429 : String → String → Option ℕ → ℕ → List RateBucket → Ran RateBucket
unfolding halved_capacity
record_429 endpoint_id operation (some zero) now rows = (err bad_new_capacity, rows)
record_429 endpoint_id operation (some (suc c)) now rows =
    note_loaded (load endpoint_id operation rows) (some (suc c)) now rows
record_429 endpoint_id operation none now rows =
    note_loaded (load endpoint_id operation rows) none now rows

abbrev pub resize_refilled : Option ℕ → RateBucket → ℕ → ℕ → List RateBucket → Ran RateBucket
resize_refilled none b new_capacity now rows = (err negative_tokens, rows)
resize_refilled (some refilled_tokens) b new_capacity now rows =
    let updated = record b {
      capacity = new_capacity;
      tokens = min (new_capacity * refill_divisor) refilled_tokens;
      last_refilled_at = now;
    } in
    (ok updated, put updated rows)

abbrev pub resize_found : Option RateBucket → ℕ → ℕ → List RateBucket → Ran RateBucket
resize_found none new_capacity now rows = (err no_bucket, rows)
resize_found (some b) new_capacity now rows =
    resize_refilled (refilled b now) b new_capacity now rows

unfoldable pub update_capacity : String → String → ℕ → ℕ → List RateBucket → Ran RateBucket
unfolding refilled
update_capacity endpoint_id operation new_capacity now rows =
    if new_capacity == 0
    then (err bad_new_capacity, rows)
    else resize_found (load endpoint_id operation rows) new_capacity now rows

abbrev persist_found : Option RateBucket → RateBucket → List RateBucket → Ran RateBucket
persist_found none b rows = (err no_bucket, rows)
persist_found (some old) b rows =
    if b.capacity == 0 then (err capacity_check, rows) else (ok b, put b rows)

pub persist : RateBucket → List RateBucket → Ran RateBucket
persist b rows = persist_found (load b.endpoint_id b.operation rows) b rows
