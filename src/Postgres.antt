-- ===== src/Postgres.antt =====
-- internal/service/driver_pg.go: the operations of `PGDriver` that change jobs or queues.
-- PostgreSQL's clock counts microseconds. Rows that other transactions hold are skipped where the
-- statement says SKIP LOCKED. The JSON text of an error entry is a parameter.
pub mod Reads
pub mod Contract
pub mod Claims
pub mod Attempts
pub mod Sequence
pub mod Outcomes
pub mod Created
pub mod Listing
pub mod Shuffled
pub mod Ready
pub mod Overlap
use stevy.Base.{
  ℕ, zero, suc, ◌+◌, ◌-◌, ◌*◌, ◌/◌, ◌^◌, Bool, true, false, ◌&&◌, not, Option, none, some, List, [],
  ◌∷◌, ltb, leb, if◌then◌else◌, ℤ, pos, negsuc,
}
use stevy.Base.Text.{Text, codes}
use stevy.Store.{
  status_text, Job, JobRow, Env, CreateOpts, Error, constraint, no_entropy, M, pure, throw, ◌>>=◌,
  ◌>>◌, exec,
}
use stevy.Jobs.{
  complete_row, fail_row, expire_row, heartbeat_row, progress_fits, promote_row, cancel_row,
  release_row, where_running, where_pending, where_not_terminal, where_expired, where_due,
}
use stevy.Jobs.Select.{due_before, lock_before, pick, limit_or}
use stevy.Statements.{
  map_option, update_jobs, update_checked, update_returning, insert_job, require_rows, require_row,
  claim_jobs, update_picked, or_time, initial_status, new_job, with_new_id, touch_queue,
  pause_entry, resume_entry, touch_worker,
}

pub record Config : Type 0 where
  pub lock_duration : ℕ  -- nanoseconds
  pub entry : ℕ → Text → Text  -- `jsonb_build_object('at', …, 'message', …)`

-- `scanJobRowPG`
unfoldable pub scan_job_row : Job → JobRow
scan_job_row r = record {
  id = r.id;
  queue = r.queue;
  kind = r.kind;
  status = status_text r.status;
  priority = r.priority;
  attempt = r.attempt;
  max_attempts = r.max_attempts;
  progress = r.progress;
  payload = r.payload;
  metadata = r.metadata;
  result = r.result;
  errors = r.errors;
  created_at = r.created_at * 1000;
  scheduled_at = r.scheduled_at * 1000;
  attempted_at = map_option (λ t. t * 1000) r.attempted_at;
  finalized_at = map_option (λ t. t * 1000) r.finalized_at;
}

-- `NOW() + ($3::int || ' milliseconds')::interval`; a value past int4 is refused.
unfoldable pub retry_time : ℕ → ℤ → Option ℕ
retry_time now (pos ms) = if ltb ms (2 ^ 31) then some (now + ms * 1000) else none
retry_time now (negsuc k) = if ltb k (2 ^ 31) then some (now - (k + 1) * 1000) else none

module _ (cfg : Config) where
  -- `d.lockDuration.Milliseconds()` in microseconds
  unfoldable pub lock_micros : ℕ
  lock_micros = cfg.lock_duration / 1000000 * 1000

  unfoldable pub create_job : Env → CreateOpts → M JobRow
  unfolding touch_queue insert_job new_job scan_job_row
  create_job e o = do
    exec (e.fault 0) (touch_queue e.now o.queue)
    let at = or_time o.scheduled_at (e.go_now 0)
    let status = initial_status o.pending (ltb (e.go_now 1) at)
    with_new_id e.new_id λ id. do
      row ← exec (e.fault 1) (insert_job (new_job e.now (at / 1000) id status o))
      pure (scan_job_row row)

  unfoldable pub claim_job : Env → Text → Text → M (Option JobRow)
  unfolding lock_micros touch_worker claim_jobs scan_job_row
  claim_job e queue worker = do
    exec (e.fault 0) (touch_worker e.now worker)
    row ← exec (e.fault 1) (claim_jobs e.is_locked e.now (e.now + lock_micros) worker queue)
    pure (map_option scan_job_row row)

  unfoldable pub complete_job : Env → Text → Text → M (Unit {0})
  unfolding update_jobs where_running complete_row
  complete_job e id result = do
    n ← exec (e.fault 0) (update_jobs (where_running id) (complete_row e.now result))
    require_rows n

  unfoldable pub fail_job : Env → Text → Text → ℤ → M (Unit {0})
  unfolding update_returning where_running fail_row retry_time
  fail_job e id msg backoff = elim (retry_time e.now backoff) [
    | none ↦ throw constraint
    | some at ↦ do
      row ←
          exec (e.fault 0)
            (update_returning (where_running id) (fail_row e.now at (cfg.entry e.now msg)))
      require_row row
  ]

  abbrev pub check_progress : Option ℤ → Job → Option Error
  check_progress progress r = if progress_fits progress then none else some constraint

  unfoldable pub heartbeat_job : Env → Text → Option ℤ → M (Unit {0})
  unfolding lock_micros update_checked where_running heartbeat_row progress_fits
  heartbeat_job e id progress = do
    row ← exec (e.fault 0) (
        update_checked (check_progress progress) (where_running id)
          (heartbeat_row (e.now + lock_micros) progress))
    require_row row

  unfoldable pub fail_expired_jobs : Env → ℤ → M ℕ
  unfolding where_expired expire_row update_picked lock_before limit_or
  fail_expired_jobs e limit = exec (e.fault 0) (
      update_picked lock_before (λ r. where_expired e.now r && not (e.is_locked r.id))
        (limit_or 1000 limit) (expire_row e.now (cfg.entry e.now (codes "job lock expired"))))

  unfoldable pub promote_job : Env → Text → M (Unit {0})
  unfolding update_jobs where_pending promote_row
  promote_job e id = do
    n ← exec (e.fault 0) (update_jobs (where_pending id) (promote_row e.now))
    require_rows n

  unfoldable pub cancel_job : Env → Text → M (Unit {0})
  unfolding update_jobs where_not_terminal cancel_row
  cancel_job e id = do
    n ← exec (e.fault 0) (update_jobs (where_not_terminal id) (cancel_row e.now))
    require_rows n

  unfoldable pub promote_scheduled_jobs : Env → ℤ → M ℕ
  unfolding update_picked due_before where_due release_row limit_or
  promote_scheduled_jobs e limit = exec (e.fault 0) (
      update_picked due_before (λ r. where_due e.now r && not (e.is_locked r.id))
        (limit_or 1000 limit) release_row)

  unfoldable pub pause_queue : Env → Text → M (Unit {0})
  unfolding pause_entry
  pause_queue e name = exec (e.fault 0) (pause_entry e.now name)

  unfoldable pub resume_queue : Env → Text → M (Unit {0})
  unfolding resume_entry
  resume_queue e name = exec (e.fault 0) (resume_entry e.now name)
