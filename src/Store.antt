-- ===== src/Store.antt =====
-- The database that the program keeps its state in (internal/db/migrations/sqlite/001_init.sql), the
-- types of internal/service/driver.go, and statements as state passing with errors.
use stevy.Base.{ℕ, Bool, Option, none, some, List}
use stevy.Base.Text.{Text, codes}

-- Times are natural numbers: those of a stored row count the units of the database's clock
-- (seconds in SQLite, microseconds in PostgreSQL), those of Go count nanoseconds.
pub data Status : Type 0 where
  pending scheduled available running retryable cancelled discarded completed : Status

-- The text that the status column holds.
unfoldable pub status_text : Status → Text
status_text pending = codes "pending"
status_text scheduled = codes "scheduled"
status_text available = codes "available"
status_text running = codes "running"
status_text retryable = codes "retryable"
status_text cancelled = codes "cancelled"
status_text discarded = codes "discarded"
status_text completed = codes "completed"

-- A row of the table `jobs`. JSON columns hold their text; `errors` its entries' texts.
pub record Job : Type 0 where
  pub id : Text
  pub queue : Text
  pub kind : Text
  pub status : Status
  pub priority : ℕ
  pub attempt : ℕ
  pub max_attempts : ℕ
  pub progress : ℕ
  pub payload : Text
  pub metadata : Text
  pub result : Option Text
  pub errors : List Text
  pub attempted_by : List Text
  pub created_at : ℕ
  pub scheduled_at : ℕ
  pub attempted_at : Option ℕ
  pub finalized_at : Option ℕ
  pub lock_expires_at : Option ℕ

-- A row of the table `queues`.
pub record QueueEntry : Type 0 where
  pub name : Text
  pub paused_at : Option ℕ
  pub created_at : ℕ
  pub updated_at : ℕ

-- A row of the table `workers`.
pub record Worker : Type 0 where
  pub id : Text
  pub name : Text
  pub key_hash : Text
  pub key_prefix : Text
  pub created_by : Option Text
  pub created_at : ℕ
  pub last_seen_at : Option ℕ

-- A row of the table `users`.
pub record User : Type 0 where
  pub id : Text
  pub google_id : Text
  pub email : Text
  pub name : Text
  pub created_at : ℕ

-- A row of the table `api_keys`.
pub record ApiKey : Type 0 where
  pub id : Text
  pub user_id : Text
  pub label : Text
  pub key_hash : Text
  pub key_prefix : Text
  pub created_at : ℕ
  pub last_used_at : Option ℕ

-- The tables.
pub record Store : Type 0 where
  pub users : List User
  pub api_keys : List ApiKey
  pub jobs : List Job
  pub queues : List QueueEntry
  pub workers : List Worker

-- What a call meets outside the program: the database's clock, the readings of Go's clock in their
-- order, the statements that fail, in their order, with the failure's text, the new ULID if there is
-- entropy for it, and the rows that other transactions have locked.
pub record Env : Type 0 where
  pub now : ℕ
  pub go_now : ℕ → ℕ
  pub fault : ℕ → Option Text
  pub new_id : Option Text
  pub is_locked : Text → Bool

pub data Error : Type 0 where
  not_found : Error  -- ErrNotFound
  wrong_state : Error  -- ErrWrongState
  constraint : Error  -- a violated key or check, or a value out of its column's range
  no_entropy : Error  -- `ulid.New` failed
  bad_json : Error  -- the database's JSON functions refused a text
  failed : Text → Error  -- any other failure of a statement

pub data Result {ℓ} (A : Type ℓ) : Type ℓ where
  ok : A → Result A
  err : Error → Result A

-- A call changes the store and returns a value or an error. What was written before an error stays.
abbrev pub M : Type 0 → Type 0
M A = Store → Result A × Store

abbrev pub pure : {A : Type 0} → A → M A
pure a s = (ok a, s)

abbrev pub throw : {A : Type 0} → Error → M A
throw e s = (err e, s)

-- What follows a call: an error is passed on.
abbrev pub continue : {A B : Type 0} → (A → M B) → Result A × Store → Result B × Store
continue f (ok a, s) = f a s
continue f (err e, s) = (err e, s)

infixl 5 ◌>>=◌ ◌>>◌
abbrev pub ◌>>=◌ : {A B : Type 0} → M A → (A → M B) → M B
◌>>=◌ m f s = continue f (m s)

abbrev pub ◌>>◌ : {B : Type 0} → M (Unit {0}) → M B → M B
m >> k = m >>= λ _. k

-- One SQL statement: it fails and changes nothing, or it runs.
abbrev pub exec : {A : Type 0} → Option Text → M A → M A
exec none statement s = statement s
exec (some m) statement s = (err (failed m), s)

-- What `scan` of a row gives to the services: internal/service/driver.go. Times in nanoseconds.
pub record JobRow : Type 0 where
  pub id : Text
  pub queue : Text
  pub kind : Text
  pub status : Text
  pub priority : ℕ
  pub attempt : ℕ
  pub max_attempts : ℕ
  pub progress : ℕ
  pub payload : Text
  pub metadata : Text
  pub result : Option Text
  pub errors : List Text
  pub created_at : ℕ
  pub scheduled_at : ℕ
  pub attempted_at : Option ℕ
  pub finalized_at : Option ℕ

pub record JobStatusRow : Type 0 where
  pub id : Text
  pub status : Text
  pub progress : ℕ
  pub errors : List Text

pub record CreateOpts : Type 0 where
  pub queue : Text
  pub kind : Text
  pub payload : Text
  pub metadata : Text
  pub max_attempts : ℕ
  pub priority : ℕ
  pub scheduled_at : Option ℕ
  pub pending : Bool
