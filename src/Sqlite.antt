-- ===== src/Sqlite.antt =====
-- internal/service/driver_sqlite.go: the operations of `SQLiteDriver` that change jobs or queues.
-- SQLite's clock counts seconds. The JSON functions of SQLite and the format of a time are
-- parameters. Each statement means what its text says; a statement that the engine refuses is one
-- whose `fault` is set, and stands for the grammar's refusals too.
pub mod Reads
pub mod Contract
pub mod Outcomes
use stevy.Base.{
  ℕ, zero, suc, ◌+◌, ◌*◌, ◌/◌, Bool, true, false, Option, none, some, List, [], ◌∷◌, ltb, leb,
  filter, if◌then◌else◌, ◌==◌, ℤ, pos, negsuc,
}
use stevy.Base.Text.{Text, codes, text_eq}
use stevy.Store.{
  Status, pending, scheduled, available, status_text, Job, JobRow, Env, CreateOpts, Error,
  constraint, no_entropy, bad_json, Result, ok, err, M, pure, throw, ◌>>=◌, ◌>>◌, exec,
}
use stevy.Jobs.{
  complete_row, fail_row, expire_row, heartbeat_row, progress_fits, promote_row, cancel_row,
  release_row, where_running, where_pending, where_not_terminal, where_expired, where_due,
}
use stevy.Jobs.Select.{due_before, lock_before, pick, limit_or}
use stevy.JsonString.{nat_eq, build_error_entry}
use stevy.Statements.{
  map_option, update_jobs, update_checked, insert_job, require_rows, require_row, claim_jobs,
  update_picked, or_time, initial_status, new_job, with_new_id, touch_queue, pause_entry,
  resume_entry, touch_worker,
}

abbrev pub second : ℕ
second = 1000000000

pub record Config : Type 0 where
  pub lock_duration : ℕ  -- nanoseconds
  pub json : Text → Option Text  -- SQLite's `json(…)`; none where it raises an error
  pub format_time : ℕ → Text  -- `Format(time.RFC3339Nano)`

-- `datetime('now', '+' || n || ' seconds')`, NULL past the year 9999.
abbrev pub last_second : ℕ
last_second = 253402300799

abbrev pub datetime_plus : ℕ → ℕ → Option ℕ
datetime_plus now n = if leb (now + n) last_second then some (now + n) else none

-- `(backoffMs + 999) / 1000`, which rounds to 0, put into the modifier; `+-1 seconds` is none, and
-- the result is NULL.
unfoldable pub retry_time : ℕ → ℤ → Option ℕ
retry_time now (pos ms) = datetime_plus now ((ms + 999) / 1000)
retry_time now (negsuc k) = if ltb k 1998 then datetime_plus now 0 else none

-- `scanJobRowSqlite`; the times' texts name whole seconds, which `parseTime` reads back.
unfoldable pub scan_job_row : Job → JobRow
scan_job_row r = record {
  id = r.id;
  queue = r.queue;
  kind = r.kind;
  status = status_text r.status;
  priority = r.priority;
  attempt = r.attempt;
  max_attempts = r.max_attempts;
  progress = r.progress;
  payload = r.payload;
  metadata = r.metadata;
  result = r.result;
  errors = r.errors;
  created_at = r.created_at * second;
  scheduled_at = r.scheduled_at * second;
  attempted_at = map_option (λ t. t * second) r.attempted_at;
  finalized_at = map_option (λ t. t * second) r.finalized_at;
}

-- An entry that is no JSON fails the statement if it has a row to write to.
abbrev pub refuse_rows : List Job → M ℕ
refuse_rows [] = pure 0
refuse_rows (r ∷ rs) = throw bad_json

module _ (cfg : Config) where
  -- `int64(d.lockDuration.Seconds())`
  unfoldable pub lock_seconds : ℕ
  lock_seconds = cfg.lock_duration / second

  unfoldable pub create_job : Env → CreateOpts → M JobRow
  unfolding touch_queue insert_job new_job scan_job_row
  create_job e o = do
    exec (e.fault 0) (touch_queue e.now o.queue)
    let at = or_time o.scheduled_at (e.go_now 0)
    let status = initial_status o.pending (ltb (e.go_now 1) at)
    with_new_id e.new_id λ id. do
      row ← exec (e.fault 1) (insert_job (new_job e.now (at / second) id status o))
      pure (scan_job_row row)

  unfoldable pub claim_job : Env → Text → Text → M (Option JobRow)
  unfolding lock_seconds touch_worker claim_jobs scan_job_row
  claim_job e queue worker = do
    exec (e.fault 0) (touch_worker e.now worker)
    row ← exec (e.fault 1) (claim_jobs (λ _. false) e.now (e.now + lock_seconds) worker queue)
    pure (map_option scan_job_row row)

  unfoldable pub complete_job : Env → Text → Text → M (Unit {0})
  unfolding update_jobs where_running complete_row
  complete_job e id result = do
    n ← exec (e.fault 0) (update_jobs (where_running id) (complete_row e.now result))
    require_rows n

  -- What SQLite checks of a failed job's row: the entry's JSON, and that `scheduled_at` is not NULL.
  abbrev pub check_failed : Option Text → Option ℕ → Job → Option Error
  check_failed none at r = some bad_json
  check_failed (some entry) (some at) r = none
  check_failed (some entry) none r = if leb r.max_attempts r.attempt then none else some constraint

  abbrev pub or_empty : Option Text → Text
  or_empty none = []
  or_empty (some t) = t

  unfoldable pub fail_job : Env → Text → Text → ℤ → M (Unit {0})
  unfolding update_checked where_running fail_row retry_time build_error_entry
  fail_job e id msg backoff = do
    let entry = cfg.json (build_error_entry (cfg.format_time (e.go_now 0)) msg)
    let at = retry_time e.now backoff
    row ← exec (e.fault 0) (
        update_checked (check_failed entry at) (where_running id)
          (fail_row e.now (or_time at 0) (or_empty entry)))
    require_row row

  abbrev pub check_progress : Option ℤ → Job → Option Error
  check_progress progress r = if progress_fits progress then none else some constraint

  unfoldable pub heartbeat_job : Env → Text → Option ℤ → M (Unit {0})
  unfolding lock_seconds update_checked where_running heartbeat_row progress_fits
  heartbeat_job e id progress = do
    row ← exec (e.fault 0) (
        update_checked (check_progress progress) (where_running id)
          (heartbeat_row (e.now + lock_seconds) progress))
    require_row row

  -- The statement on a backlog: with an entry that SQLite's `json` refuses it fails if it has a row.
  abbrev pub expire_all : Env → ℕ → Option Text → M ℕ
  expire_all e n (some text) =
      update_picked lock_before (where_expired e.now) n (expire_row e.now text)
  expire_all e n none = λ s. refuse_rows (pick lock_before (where_expired e.now) n s.jobs) s

  unfoldable pub fail_expired_jobs : Env → ℤ → M ℕ
  unfolding pick where_expired expire_row update_picked lock_before build_error_entry limit_or
  fail_expired_jobs e limit =
      let entry = build_error_entry (cfg.format_time (e.go_now 0)) (codes "job lock expired") in
      exec (e.fault 0) (expire_all e (limit_or 1000 limit) (cfg.json entry))

  unfoldable pub promote_job : Env → Text → M (Unit {0})
  unfolding update_jobs where_pending promote_row
  promote_job e id = do
    n ← exec (e.fault 0) (update_jobs (where_pending id) (promote_row e.now))
    require_rows n

  unfoldable pub cancel_job : Env → Text → M (Unit {0})
  unfolding update_jobs where_not_terminal cancel_row
  cancel_job e id = do
    n ← exec (e.fault 0) (update_jobs (where_not_terminal id) (cancel_row e.now))
    require_rows n

  unfoldable pub promote_scheduled_jobs : Env → ℤ → M ℕ
  unfolding update_picked due_before where_due release_row limit_or
  promote_scheduled_jobs e limit =
      exec (e.fault 0)
        (update_picked due_before (where_due e.now) (limit_or 1000 limit) release_row)

  unfoldable pub pause_queue : Env → Text → M (Unit {0})
  unfolding pause_entry
  pause_queue e name = exec (e.fault 0) (pause_entry e.now name)

  unfoldable pub resume_queue : Env → Text → M (Unit {0})
  unfolding resume_entry
  resume_queue e name = exec (e.fault 0) (resume_entry e.now name)
