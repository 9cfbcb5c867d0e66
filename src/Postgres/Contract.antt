-- ===== src/Postgres/Contract.antt =====
-- `PGDriver` (internal/service/driver_pg.go) as a `Driver`, and its calls one by one.
use stevy.Base.{ℕ, ◌+◌, ◌≡◌, inl, inr, Bool, true, ◌&&◌, not, Option, none, ℤ, arith, Option-cases}
use stevy.Base.Text.{Text}
use stevy.Store.{Job, Store, Env, CreateOpts, ◌>>=◌, exec}
use stevy.Driver.{
  Driver, Call, create, claim, complete, fail, heartbeat, cancel, promote, pause, resume,
  promote_scheduled, fail_expired, step,
}
use stevy.Driver.Contract.{IsDriver}
use stevy.Jobs.{fail_row, progress_fits, where_running}
use stevy.Jobs.Keys.{Distinct}
use stevy.Jobs.Reached.{
  complete_row-id, fail_row-id, expire_row-id, heartbeat_row-id, promote_row-id, cancel_row-id,
  release_row-id, complete_reached, fail_reached, heartbeat_reached, expire_reached,
  promote_reached, cancel_reached, release_reached,
}
use stevy.Statements.{map_option, update_returning, require_row, pause_entry, resume_entry}
use stevy.Statements.Keeps.{
  KeepsFrom, KeepsFrom-refl, Keeps, Keeps-of_same, bind_same-Keeps, exec-Keeps, update_jobs-Keeps,
  update_checked-Keeps, update_returning-Keeps, update_picked-Keeps,
}
use stevy.Statements.Valid.{
  new_job-IsValid, create-Keeps, claim-Keeps, pause_entry-SameJobs, resume_entry-SameJobs,
  require_rows-SameJobs, require_row-SameJobs,
}
use stevy.Postgres.{
  Config, scan_job_row, create_job, claim_job, complete_job, fail_job, heartbeat_job,
  fail_expired_jobs, retry_time, promote_job, cancel_job, promote_scheduled_jobs, pause_queue,
  resume_queue, check_progress, lock_micros,
}
use stevy.Postgres.Reads.{
  get_job, get_job_status, list_jobs, job_counts_by_status, queue_info, list_queues,
}

-- `NewPGDriver`
abbrev pub pg_driver : Config → Driver
pg_driver cfg = record {
  create_job = create_job cfg;
  claim_job = claim_job cfg;
  complete_job = complete_job cfg;
  fail_job = fail_job cfg;
  heartbeat_job = heartbeat_job cfg;
  cancel_job = cancel_job cfg;
  promote_job = promote_job cfg;
  get_job = get_job;
  get_job_status = get_job_status;
  queue_info = queue_info;
  list_queues = list_queues;
  pause_queue = pause_queue cfg;
  resume_queue = resume_queue cfg;
  list_jobs = list_jobs;
  job_counts_by_status = job_counts_by_status;
  promote_scheduled_jobs = promote_scheduled_jobs cfg;
  fail_expired_jobs = fail_expired_jobs cfg;
}

skip_locked : (a b : Bool) → (a && not b) ≡ true → a ≡ true
skip_locked a b h = ground arith

module _ (cfg : Config) (e : Env) where
  complete_job-Keeps : (id result : Text) → Keeps (complete_job cfg e id result)
  unfolding complete_job
  complete_job-Keeps id result =
      bind_same-Keeps _ _
        (exec-Keeps (e.fault 0) _
          (update_jobs-Keeps _ _ (complete_row-id e.now result) (complete_reached id e.now result)))
        require_rows-SameJobs

  promote_job-Keeps : (id : Text) → Keeps (promote_job cfg e id)
  unfolding promote_job
  promote_job-Keeps id =
      bind_same-Keeps _ _
        (exec-Keeps (e.fault 0) _
          (update_jobs-Keeps _ _ (promote_row-id e.now) (promote_reached id e.now)))
        require_rows-SameJobs

  cancel_job-Keeps : (id : Text) → Keeps (cancel_job cfg e id)
  unfolding cancel_job
  cancel_job-Keeps id =
      bind_same-Keeps _ _
        (exec-Keeps (e.fault 0) _
          (update_jobs-Keeps _ _ (cancel_row-id e.now) (cancel_reached id e.now)))
        require_rows-SameJobs

  failed_at :
      (id msg : Text) (at : ℕ)
      → Keeps (do
        row ←
            exec
              (e.fault 0)
              (update_returning (where_running id) (fail_row e.now at (cfg.entry e.now msg)))
        require_row row)
  failed_at id msg at =
      bind_same-Keeps (exec (e.fault 0) (update_returning _ _)) require_row
        (exec-Keeps (e.fault 0) _
          (update_returning-Keeps _ _ (fail_row-id e.now at _) (fail_reached id e.now at _)))
        require_row-SameJobs

  fail_job-Keeps : (id msg : Text) (backoff : ℤ) → Keeps (fail_job cfg e id msg backoff)
  unfolding fail_job
  fail_job-Keeps id msg backoff = elim (Option-cases (retry_time e.now backoff)) [
    | inl too_far ↦ λ s d. rw (too_far, fail_job) (KeepsFrom-refl s.jobs d)
    | inr (at, e') ↦ λ s d. rw (e', fail_job) (failed_at id msg at s d)
  ]

  progress_checked :
      (progress : Option ℤ) (x : Job)
      → check_progress cfg progress x ≡ none
      → progress_fits progress ≡ true
  progress_checked progress x h = ground arith

  heartbeat_job-Keeps : (id : Text) (p : Option ℤ) → Keeps (heartbeat_job cfg e id p)
  unfolding heartbeat_job
  heartbeat_job-Keeps id p =
      bind_same-Keeps _ _
        (exec-Keeps (e.fault 0) _ (
          update_checked-Keeps _ _ _ (heartbeat_row-id (e.now + lock_micros cfg) p)
            (λ x good. λ r. heartbeat_reached id _ p r (progress_checked p x good))))
        require_row-SameJobs

  promote_scheduled_jobs-Keeps : (limit : ℤ) → Keeps (promote_scheduled_jobs cfg e limit)
  unfolding promote_scheduled_jobs
  promote_scheduled_jobs-Keeps limit = exec-Keeps (e.fault 0) _ (
      update_picked-Keeps _ _ _ _ release_row-id
        (λ r h. release_reached e.now r (skip_locked _ (e.is_locked r.id) h)))

  fail_expired_jobs-Keeps : (limit : ℤ) → Keeps (fail_expired_jobs cfg e limit)
  unfolding fail_expired_jobs
  fail_expired_jobs-Keeps limit = exec-Keeps (e.fault 0) _ (
      update_picked-Keeps _ _ _ _ (expire_row-id e.now _)
        (λ r h. expire_reached e.now _ r (skip_locked _ (e.is_locked r.id) h)))

  pause_queue-Keeps : (name : Text) → Keeps (pause_queue cfg e name)
  unfolding pause_queue
  pause_queue-Keeps name =
      exec-Keeps (e.fault 0) (pause_entry e.now name)
        (Keeps-of_same (pause_entry e.now name) (pause_entry-SameJobs e.now name))

  resume_queue-Keeps : (name : Text) → Keeps (resume_queue cfg e name)
  unfolding resume_queue
  resume_queue-Keeps name =
      exec-Keeps (e.fault 0) (resume_entry e.now name)
        (Keeps-of_same (resume_entry e.now name) (resume_entry-SameJobs e.now name))

  create_job-Keeps : (o : CreateOpts) → Keeps (create_job cfg e o)
  unfolding create_job
  create_job-Keeps o =
      create-Keeps (e.fault 0) (e.fault 1) e.now o.queue e.new_id _ scan_job_row
        (λ id. new_job-IsValid e.now _ id o.pending _ o)

  claim_job-Keeps : (queue worker : Text) → Keeps (claim_job cfg e queue worker)
  unfolding claim_job
  claim_job-Keeps queue worker =
      claim-Keeps (e.fault 0) (e.fault 1) e.is_locked e.now (e.now + lock_micros cfg) worker queue
        (map_option scan_job_row)

-- Any call of `PGDriver`, whatever fails on the way, on a table with distinct ids: the ids
-- stay distinct, no job goes away, each job makes at most one step (its status along an edge, its
-- attempts with a claim only, nothing if it is final, valid if it was valid), and a new job is valid.
pub pg_driver-KeepsFrom :
    (cfg : Config) (e : Env) (c : Call) (s : Store)
    → Distinct s.jobs
    → KeepsFrom s.jobs (step (pg_driver cfg) e c s).jobs
pg_driver-KeepsFrom cfg e (create o) = create_job-Keeps cfg e o
pg_driver-KeepsFrom cfg e (claim queue worker) = claim_job-Keeps cfg e queue worker
pg_driver-KeepsFrom cfg e (complete id result) = complete_job-Keeps cfg e id result
pg_driver-KeepsFrom cfg e (fail id msg backoff) = fail_job-Keeps cfg e id msg backoff
pg_driver-KeepsFrom cfg e (heartbeat id p) = heartbeat_job-Keeps cfg e id p
pg_driver-KeepsFrom cfg e (cancel id) = cancel_job-Keeps cfg e id
pg_driver-KeepsFrom cfg e (promote id) = promote_job-Keeps cfg e id
pg_driver-KeepsFrom cfg e (pause name) = pause_queue-Keeps cfg e name
pg_driver-KeepsFrom cfg e (resume name) = resume_queue-Keeps cfg e name
pg_driver-KeepsFrom cfg e (promote_scheduled limit) = promote_scheduled_jobs-Keeps cfg e limit
pg_driver-KeepsFrom cfg e (fail_expired limit) = fail_expired_jobs-Keeps cfg e limit

pub pg_driver-IsDriver : (cfg : Config) → IsDriver (pg_driver cfg)
pg_driver-IsDriver cfg = record { keeps = pg_driver-KeepsFrom cfg }
