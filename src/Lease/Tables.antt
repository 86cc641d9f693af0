-- ===== src/Lease/Tables.antt =====
-- The tables that the lease mutations of src/pitwall/db/repository.py read and write, and the
-- transactions on them. Times are in seconds.
use pitwall_gpu_broker.Prelude.{ℕ, String, Bool, Option, List, Result, ok, err}
use pitwall_gpu_broker.Prelude.Dict.{Dict}

-- The columns of `pitwall.leases` that the mutations read or write.
pub record LeaseRow : Type 0 where
  pub id : String
  pub state : String
  pub expires_at : ℕ
  pub renewal_policy : String
  pub auto_teardown_on_expiry : Bool

-- `pitwall.lease_mutation_idempotency`, whose primary key is the idempotency key.
pub record Reservation : Type 0 where
  pub lease_id : String
  pub operation : String
  pub request_hash : String
  pub actor : String

-- The JSON objects that the audit stores before and after a mutation.
pub data AuditChange : Type 0 where
  renewed : ℕ → ℕ → ℕ → AuditChange
  patched : Option (String × String) → Option (Bool × Bool) → AuditChange

-- `pitwall.config_audit`
pub record AuditRow : Type 0 where
  pub actor : String
  pub entity_id : String
  pub change : AuditChange
  pub change_reason : Option String

pub record Db : Type 0 where
  pub leases : Dict LeaseRow
  pub mutation_keys : Dict Reservation
  pub config_audit : List AuditRow

pub data MutationError : Type 0 where
  state_error : String → String → MutationError
  expiry_limit : String → MutationError
  idempotency_error : String → MutationError
  assertion_error : MutationError

pub record LeaseMutationResult : Type 0 where
  pub lease : LeaseRow
  pub replayed : Bool

-- What runs inside a transaction: writes stay in the state until the end.
abbrev pub Tx : Type 0 → Type 0
Tx A = Db → Result MutationError A × Db

infixl 5 ◌>>=◌ ◌>>◌
abbrev pub ◌>>=◌ : {A B : Type 0} → Tx A → (A → Tx B) → Tx B
◌>>=◌ m f db = let (r, db') = m db in elim r [ ok a ↦ f a db' | err e ↦ (err e, db') ]

abbrev pub ◌>>◌ : {A B : Type 0} → Tx A → Tx B → Tx B
m >> k = m >>= λ _. k

abbrev pub pure : {A : Type 0} → A → Tx A
pure a db = (ok a, db)

abbrev pub raise : {A : Type 0} → MutationError → Tx A
raise e db = (err e, db)

-- `async with conn.transaction()`: an exception undoes what the block wrote.
abbrev pub transaction : {A : Type 0} → Tx A → Tx A
transaction m db = let (r, db') = m db in elim r [ ok a ↦ (ok a, db') | err e ↦ (err e, db) ]
