-- ===== src/Sqlite/Outcomes.antt =====
-- What the operations of `SQLiteDriver` on the job of an id come to, and which job its claim takes.
use stevy.Base.{
  inl, inr, List, [], ◌∷◌, Option-cases, ℕ, ◌+◌, ◌/◌, ◌≤◌, ◌≡◌, refl, Bool, true, false, not,
  Option, none, some, leb, pos, arith,
}
use stevy.Base.Text.{Text}
use stevy.Jobs.{
  is_running, is_pending, is_terminal, complete_row, fail_row, promote_row, cancel_row, claim_row,
  find_row, update_rows, where_running, where_pending, where_not_terminal,
}
use stevy.Driver.ById.{IsById, counted_call}
use stevy.Jobs.Keys.{Distinct}
use stevy.Sqlite.Contract.{sqlite_driver}
use stevy.Jobs.Reached.{complete_row-id, fail_row-id, promote_row-id, cancel_row-id}
use stevy.JsonString.{build_error_entry}
use stevy.Sqlite.{
  Config, last_second, lock_seconds, scan_job_row, claim_job, complete_job, fail_job, promote_job,
  cancel_job, check_failed, retry_time,
}
use stevy.Statements.{update_checked, update_returning}
use stevy.Statements.ById.{ChangesById, row_call-ChangesById}
use stevy.Statements.Claim.Call.{Takes, claim_call-Takes}
use stevy.Store.{Job, JobRow, Store, Env, Error, ok}

-- On SQLite, where no row is locked, a claim that returns a row took the first job, by priority, then
-- time, then id, of a queue that is not paused, of those that are available and due. The job now runs
-- with one more attempt and a lock that ends after the lock duration in whole seconds, the returned
-- row shows it so, and no other job changed. The ids are distinct beforehand.
lite_claim_job-Takes :
    (cfg : Config) (e : Env) (queue worker : Text) (s s' : Store)
    → Distinct s.jobs
    → (row : JobRow) → claim_job cfg e queue worker s ≡ (ok (some row), s')
    → (r : Job) × Takes (λ _. false) e.now (e.now + lock_seconds cfg) worker queue s s' r
      × (row ≡ scan_job_row (claim_row e.now (e.now + lock_seconds cfg) worker r))
unfolding claim_job
lite_claim_job-Takes cfg e queue worker s s' d row h =
    claim_call-Takes scan_job_row (λ _. false) e.now (e.now + lock_seconds cfg) worker queue
      (e.fault 0) (e.fault 1) s s' row d h

update_rows-none :
    (test : Job → Bool) (change : Job → Job) (rows : List Job)
    → find_row test rows ≡ none
    → update_rows test change rows ≡ rows
unfolding find_row update_rows
update_rows-none test change [] h = refl
update_rows-none test change (r ∷ rows) h = ground (arith, update_rows-none test change rows)

-- A check that lets every row pass.
unchecked :
    (check : Job → Option Error) (test : Job → Bool) (change : Job → Job) (s : Store)
    → ((r : Job) → check r ≡ none)
    → update_checked check test change s ≡ update_returning test change s
unfolding update_checked update_returning
unchecked check test change s h = elim (Option-cases (find_row test s.jobs)) [
  | inl f ↦ let kept = update_rows-none test change s.jobs f in rw (f, update_checked, kept) refl
  | inr (r, f) ↦ rw (f, update_checked) (rw (h r) (rw (update_returning, f) refl))
]

-- On SQLite, with distinct ids, `CompleteJob` changes exactly a running job of the id, `PromoteJob`
-- exactly a pending one and `CancelJob` exactly one that is not completed, discarded or cancelled, as
-- on PostgreSQL; where there is none, each is `ErrWrongState` and nothing changes. If the statement
-- fails, nothing changes either.
pub sqlite_driver-IsById : (cfg : Config) → IsById (sqlite_driver cfg)
unfolding complete_job promote_job cancel_job where_running where_pending where_not_terminal
sqlite_driver-IsById cfg = record {
  complete = λ e id result s d.
      counted_call (e.fault 0) id is_running (complete_row e.now result)
        (complete_row-id e.now result) s d;
  promote = λ e id s d.
      counted_call (e.fault 0) id is_pending (promote_row e.now) (promote_row-id e.now) s d;
  cancel = λ e id s d.
      counted_call (e.fault 0) id (λ st. not (is_terminal st)) (cancel_row e.now)
        (cancel_row-id e.now) s d;
}

module _ (cfg : Config) (e : Env) (s : Store) (d : Distinct s.jobs) (runs : e.fault 0 ≡ none)
    (id : Text) where
  -- On SQLite, with distinct ids, a statement that does not fail, an entry that its JSON accepts and a
  -- time of the retry up to the year 9999, `FailJob` makes of a running job what `fail_row` says, with
  -- the backoff rounded up to whole seconds, and changes no other job, queue or worker; if the id has
  -- no running job, it is `ErrWrongState` and nothing changes.
  pub lite_fail_job-ChangesById :
      (msg entry : Text) (ms : ℕ)
      → cfg.json (build_error_entry (cfg.format_time (e.go_now 0)) msg) ≡ some entry
      → e.now + (ms + 999) / 1000 ≤ last_second
      → ChangesById id is_running
          (fail_row e.now (e.now + (ms + 999) / 1000) entry)
          s
          (fail_job cfg e id msg (pos ms) s)
  unfolding fail_job retry_time
  lite_fail_job-ChangesById msg entry ms json fits =
      let at = e.now + (ms + 999) / 1000 in
      let in_time : leb at last_second ≡ true = ground arith in
      let same =
        unchecked (check_failed cfg (some entry) (some at)) (where_running id)
          (fail_row e.now at entry) s (λ r. refl) in
      rw (json, runs, in_time)
        (rw same (
          row_call-ChangesById id is_running (fail_row e.now at entry) (fail_row-id e.now at entry)
            s d))
