-- ===== src/Postgres/Claims.antt =====
-- `PGDriver.ClaimJob`: which job it takes.
use stevy.Base.{ℕ, ◌+◌, ◌≡◌, refl, ◌⊎◌, true, false, none, some, All}
use stevy.Base.Text.{Text}
use stevy.Jobs.{claim_row}
use stevy.Jobs.Keys.{Distinct}
use stevy.Postgres.{Config, scan_job_row, claim_job, lock_micros}
use stevy.Statements.{is_paused}
use stevy.Statements.Claim.{is_claimable}
use stevy.Statements.Claim.Call.{Takes, claim_call-Takes, claim_call-idle}
use stevy.Store.{Job, JobRow, Store, Env, ok}

module _ (cfg : Config) (e : Env) (queue worker : Text) (s s' : Store) (d : Distinct s.jobs) where
  -- A claim that returns a row did so on a queue that is not paused. It took the first job, by
  -- priority, then time, then id, of those of the queue that are available, due and not locked. The
  -- job now runs with one more attempt and a lock that ends after the lock duration in whole
  -- milliseconds, the returned row shows it so, and no other job changed. The ids are distinct beforehand.
  pub claim_job-Takes :
      (row : JobRow)
      → claim_job cfg e queue worker s ≡ (ok (some row), s')
      → (r : Job) × Takes e.is_locked e.now (e.now + lock_micros cfg) worker queue s s' r
        × (row ≡ scan_job_row (claim_row e.now (e.now + lock_micros cfg) worker r))
  unfolding claim_job
  claim_job-Takes row h =
      claim_call-Takes scan_job_row e.is_locked e.now (e.now + lock_micros cfg) worker queue
        (e.fault 0) (e.fault 1) s s' row d h

  -- A claim that returns nothing and no error found the queue paused, or no job of it that is
  -- available, due and not locked, and changed no job. The ids are distinct beforehand.
  pub claim_job-idle :
      claim_job cfg e queue worker s ≡ (ok none, s')
      → ((is_paused queue s.queues ≡ true)
          ⊎ All (λ x. is_claimable e.is_locked e.now queue x ≡ false) s.jobs)
        × (s'.jobs ≡ s.jobs)
  unfolding claim_job
  claim_job-idle h =
      claim_call-idle scan_job_row e.is_locked e.now (e.now + lock_micros cfg) worker queue
        (e.fault 0) (e.fault 1) s s' d h

pub scan_job_row-id :
    (now lock : ℕ) (worker : Text) (r : Job)
    → (scan_job_row (claim_row now lock worker r)).id ≡ r.id
unfolding scan_job_row claim_row
scan_job_row-id now lock worker r = refl
