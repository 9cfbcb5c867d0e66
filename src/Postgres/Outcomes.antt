-- ===== src/Postgres/Outcomes.antt =====
-- What each operation of `PGDriver` on the job of an id comes to.
use stevy.Base.{
  ℕ, ◌+◌, ◌*◌, ◌^◌, ◌≤◌, ◌<◌, ◌≡◌, ◌⊎◌, [], ◌∷◌, ◌++◌, true, false, not, none, some, ltb, pos,
  arith,
}
use stevy.Base.Text.{Text}
use stevy.Jobs.{
  where_running, where_pending, where_not_terminal, is_running, is_pending, is_terminal,
  complete_row, fail_row, promote_row, cancel_row,
}
use stevy.Driver.ById.{IsById, counted_call}
use stevy.Jobs.Keys.{Distinct}
use stevy.Postgres.Contract.{pg_driver}
use stevy.Jobs.Reached.{complete_row-id, fail_row-id, promote_row-id, cancel_row-id}
use stevy.Postgres.{Config, complete_job, fail_job, promote_job, cancel_job}
use stevy.Statements.ById.{ChangesById, count_call-ChangesById, row_call-ChangesById}
use stevy.Store.{retryable, discarded, Job, Store, Env, constraint, err}

module _ (cfg : Config) (e : Env) (s : Store) (d : Distinct s.jobs) (runs : e.fault 0 ≡ none) where
  -- With distinct ids and a statement that does not fail, `CompleteJob` completes the job of the id if
  -- it runs, sets its result and time, and changes no other job, queue or worker; if there is no such
  -- job or it does not run, it is `ErrWrongState` and nothing changes.
  complete_job-ChangesById :
      (id result : Text)
      → ChangesById id is_running (complete_row e.now result) s (complete_job cfg e id result s)
  unfolding complete_job
  complete_job-ChangesById id result = rw runs (
      count_call-ChangesById id is_running (complete_row e.now result)
        (complete_row-id e.now result) s d)

  -- With distinct ids and a statement that does not fail, `PromoteJob` makes a pending job available,
  -- or scheduled if its time is to come, and changes no other job, queue or worker; if the id has no
  -- pending job, it is `ErrWrongState` and nothing changes.
  promote_job-ChangesById :
      (id : Text) → ChangesById id is_pending (promote_row e.now) s (promote_job cfg e id s)
  unfolding promote_job
  promote_job-ChangesById id =
      rw runs (count_call-ChangesById id is_pending (promote_row e.now) (promote_row-id e.now) s d)

  -- With distinct ids and a statement that does not fail, `CancelJob` cancels a job that is not
  -- completed, discarded or cancelled, keeps its final time if it has one, and changes no other job,
  -- queue or worker; if the id has no such job, it is `ErrWrongState` and nothing changes.
  cancel_job-ChangesById :
      (id : Text)
      → ChangesById id (λ st. not (is_terminal st)) (cancel_row e.now) s (cancel_job cfg e id s)
  unfolding cancel_job
  cancel_job-ChangesById id = rw runs (
      count_call-ChangesById id (λ st. not (is_terminal st)) (cancel_row e.now)
        (cancel_row-id e.now) s d)

  -- With distinct ids, a statement that does not fail and a backoff from 0 to below 2^31 ms, `FailJob`
  -- makes of a running job what `fail_row` says, with the backoff added to the time, and changes no
  -- other job, queue or worker; if the id has no running job, it is `ErrWrongState` and nothing
  -- changes.
  pub fail_job-ChangesById :
      (id msg : Text) (ms : ℕ)
      → ms < 2 ^ 31
      → ChangesById id is_running
          (fail_row e.now (e.now + ms * 1000) (cfg.entry e.now msg))
          s
          (fail_job cfg e id msg (pos ms) s)
  unfolding fail_job
  fail_job-ChangesById id msg ms h =
      let fits : ltb ms (2 ^ 31) ≡ true = ground arith in
      rw (fits, fail_job)
        (rw runs (
          row_call-ChangesById id is_running
            (fail_row e.now (e.now + ms * 1000) (cfg.entry e.now msg))
            (fail_row-id e.now (e.now + ms * 1000) (cfg.entry e.now msg)) s d))

-- On PostgreSQL, with distinct ids, `CompleteJob` changes exactly a running job of the id, `PromoteJob`
-- exactly a pending one and `CancelJob` exactly one that is not completed, discarded or cancelled, and
-- no other job, queue or worker; where there is none, each is `ErrWrongState` and nothing changes. If
-- the statement fails, nothing changes either.
pub pg_driver-IsById : (cfg : Config) → IsById (pg_driver cfg)
unfolding complete_job promote_job cancel_job where_running where_pending where_not_terminal
pg_driver-IsById cfg = record {
  complete = λ e id result s d.
      counted_call (e.fault 0) id is_running (complete_row e.now result)
        (complete_row-id e.now result) s d;
  promote = λ e id s d.
      counted_call (e.fault 0) id is_pending (promote_row e.now) (promote_row-id e.now) s d;
  cancel = λ e id s d.
      counted_call (e.fault 0) id (λ st. not (is_terminal st)) (cancel_row e.now)
        (cancel_row-id e.now) s d;
}

-- A backoff of 2^31 ms or more does not fit the statement's int parameter: `FailJob` is an error, and
-- whatever the job, nothing changes.
pub fail_job_overflow :
    (cfg : Config) (e : Env) (s : Store) (id msg : Text) (ms : ℕ)
    → 2 ^ 31 ≤ ms
    → fail_job cfg e id msg (pos ms) s ≡ (err constraint, s)
unfolding fail_job
fail_job_overflow cfg e s id msg ms h =
    let past : ltb ms (2 ^ 31) ≡ false = ground arith in rw (past, fail_job)

-- What `FailJob` makes of the row of a job: with its attempts used up it is discarded and final, else
-- it is retryable at the given time and not final; either way the error is added to its errors.
fail_row-outcome :
    (now at : ℕ) (entry : Text) (r : Job)
    → ((fail_row now at entry r).errors ≡ r.errors ++ (entry ∷ []))
      × (((r.max_attempts ≤ r.attempt)
            × ((fail_row now at entry r).status ≡ discarded)
            × ((fail_row now at entry r).finalized_at ≡ some now))
          ⊎ ((r.attempt < r.max_attempts)
              × ((fail_row now at entry r).status ≡ retryable)
              × ((fail_row now at entry r).scheduled_at ≡ at)
              × ((fail_row now at entry r).finalized_at ≡ none)))
unfolding fail_row
fail_row-outcome now at entry r = ground arith
