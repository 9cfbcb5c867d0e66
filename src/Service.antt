-- ===== src/Service.antt =====
-- internal/service/job.go and queue.go: the RPC handlers over a driver. A handler returns a message
-- or a Connect error code.
pub mod Backoff
pub mod Jobs
pub mod Queues
pub mod Bounds
pub mod Delays
pub mod Overflow
pub mod Stats
pub mod Replies
use stevy.Base.{Bool, true, false, if◌then◌else◌, ◌==◌, List, []}
use stevy.Base.Text.{Text, text_eq}
use stevy.Store.{
  Store, Error, not_found, wrong_state, constraint, no_entropy, bad_json, failed, Result, ok, err,
  M,
}

-- The codes that the handlers send; `panicked` is a handler that a panic ends.
pub data Code : Type 0 where
  invalid_argument missing failed_precondition internal panicked : Code

pub data Reply {ℓ} (A : Type ℓ) : Type ℓ where
  reply : A → Reply A
  refuse : Code → Reply A

abbrev pub Rpc : Type 0 → Type 0
Rpc A = Store → Reply A × Store

abbrev pub answer : {A : Type 0} → A → Rpc A
answer a s = (reply a, s)

abbrev pub reject : {A : Type 0} → Code → Rpc A
reject c s = (refuse c, s)

abbrev pub then_rpc : {A B : Type 0} → (A → Rpc B) → Reply A × Store → Reply B × Store
then_rpc f (reply a, s) = f a s
then_rpc f (refuse c, s) = (refuse c, s)

infixl 5 ◌>>=◌ ◌>>◌
abbrev pub ◌>>=◌ : {A B : Type 0} → Rpc A → (A → Rpc B) → Rpc B
◌>>=◌ m f s = then_rpc f (m s)

abbrev pub ◌>>◌ : {B : Type 0} → Rpc (Unit {0}) → Rpc B → Rpc B
m >> k = m >>= λ _. k

-- `mapErr`
unfoldable pub map_err : Error → Code
map_err not_found = missing
map_err wrong_state = failed_precondition
map_err constraint = internal
map_err no_entropy = internal
map_err bad_json = internal
map_err (failed m) = internal

-- `connect.NewError(connect.CodeInternal, …)`
abbrev pub to_internal : Error → Code
to_internal e = internal

-- A call of the driver whose errors become codes.
abbrev pub coded : {A : Type 0} → (Error → Code) → Result A × Store → Reply A × Store
coded f (ok a, s) = (reply a, s)
coded f (err e, s) = (refuse (f e), s)

abbrev pub call : {A : Type 0} → (Error → Code) → M A → Rpc A
call f m s = coded f (m s)

-- `parseJobID`
unfoldable pub parse_job_id : Text → Rpc Text
parse_job_id id = if id == [] then reject invalid_argument else answer id
