-- ===== src/Driver.antt =====
-- The interface `Driver` of internal/service/driver.go, as operations on the store.
pub mod Contract
pub mod ById
pub mod History
use stevy.Base.{ℕ, Option, List, [], ◌∷◌, ℤ}
use stevy.Base.Text.{Text}
use stevy.Jobs.Queries.{Counts}
use stevy.Statements.Reads.{QueueInfo, QueueSummary}
use stevy.Store.{Store, JobRow, JobStatusRow, CreateOpts, Env, M}

pub record Driver : Type 0 where
  pub create_job : Env → CreateOpts → M JobRow
  pub claim_job : Env → Text → Text → M (Option JobRow)
  pub complete_job : Env → Text → Text → M (Unit {0})
  pub fail_job : Env → Text → Text → ℤ → M (Unit {0})
  pub heartbeat_job : Env → Text → Option ℤ → M (Unit {0})
  pub cancel_job : Env → Text → M (Unit {0})
  pub promote_job : Env → Text → M (Unit {0})
  pub get_job : Env → Text → M JobRow
  pub get_job_status : Env → Text → M JobStatusRow
  pub queue_info : Env → Text → M QueueInfo
  pub list_queues : Env → M (List QueueSummary)
  pub pause_queue : Env → Text → M (Unit {0})
  pub resume_queue : Env → Text → M (Unit {0})
  pub list_jobs : Env → Text → Text → ℤ → Text → M (List JobRow)
  pub job_counts_by_status : Env → M Counts
  pub promote_scheduled_jobs : Env → ℤ → M ℕ
  pub fail_expired_jobs : Env → ℤ → M ℕ

-- A call of an operation that writes.
pub data Call : Type 0 where
  create : CreateOpts → Call
  claim : Text → Text → Call
  complete : Text → Text → Call
  fail : Text → Text → ℤ → Call
  heartbeat : Text → Option ℤ → Call
  cancel : Text → Call
  promote : Text → Call
  pause : Text → Call
  resume : Text → Call
  promote_scheduled : ℤ → Call
  fail_expired : ℤ → Call

-- The store after a call.
abbrev pub step : Driver → Env → Call → Store → Store
step d e (create o) s = (d.create_job e o s).1
step d e (claim queue worker) s = (d.claim_job e queue worker s).1
step d e (complete id result) s = (d.complete_job e id result s).1
step d e (fail id msg backoff) s = (d.fail_job e id msg backoff s).1
step d e (heartbeat id progress) s = (d.heartbeat_job e id progress s).1
step d e (cancel id) s = (d.cancel_job e id s).1
step d e (promote id) s = (d.promote_job e id s).1
step d e (pause name) s = (d.pause_queue e name s).1
step d e (resume name) s = (d.resume_queue e name s).1
step d e (promote_scheduled limit) s = (d.promote_scheduled_jobs e limit s).1
step d e (fail_expired limit) s = (d.fail_expired_jobs e limit s).1

-- Calls in the order in which the database runs them.
abbrev pub run : Driver → List (Env × Call) → Store → Store
run d [] s = s
run d ((e, c) ∷ cs) s = run d cs (step d e c s)
