-- ===== src/Tests/Attempts.antt =====
-- Claims after one another at concrete inputs.
use stevy.Base.{◌+◌, ◌≤◌, ◌<◌, ◌≡◌, refl, false, some, List, [], ◌∷◌, map, take, pos}
use stevy.Base.Sort.{sort}
use stevy.Base.Text.{codes, text_discrete, text_eq}
use stevy.Driver.{Call, fail, promote_scheduled, run}
use stevy.Driver.History.{IsSound}
use stevy.Jobs.{
  find_row, update_rows, claim_row, fail_row, release_row, where_claimable, where_running,
  where_due,
}
use stevy.Jobs.Select.{claims_before, due_before, pick, ids, in_ids, limit_or}
use stevy.Postgres.{
  scan_job_row, claim_job, fail_job, promote_scheduled_jobs, retry_time, lock_micros,
}
use stevy.Postgres.Attempts.{claim_job-attempts}
use stevy.Postgres.Contract.{pg_driver}
use stevy.Postgres.Sequence.{claim_each, claim_each-sort}
use stevy.Statements.{
  is_paused, claim_jobs, touch_worker, update_returning, update_picked, update_jobs,
}
use stevy.Statements.Claim.Sequence.{claimable}
use stevy.Store.{Job, Store, Env, ok}
use stevy.Tests.{no_fault, pg, waiting, tables, mail, mail-Distinct}
use stevy.Tests.Histories.{waiting-IsValid}

mail_runs : is_paused (codes "mail") mail.queues ≡ false
unfolding is_paused
mail_runs = refl

claim_each-sort_example :
    claim_each pg no_fault (codes "mail") (codes "w") 3 mail
    ≡ map
        (λ r. scan_job_row (claim_row 1000 (1000 + lock_micros pg) (codes "w") r))
        (take 3 (
          claimable (λ _. false) 1000 (1000 + lock_micros pg) (codes "w") (codes "mail") mail.jobs))
claim_each-sort_example =
    claim_each-sort pg no_fault (codes "mail") (codes "w") refl refl 3 mail mail-Distinct mail_runs

abbrev one_job : Store
one_job = tables (waiting (codes "01A") 1 ∷ [])

one_job-IsSound : IsSound one_job
unfolding find_row
one_job-IsSound = record { valid = (waiting-IsValid (codes "01A") 1, tt); distinct = (refl, tt) }

abbrev later : Env
later = record no_fault { now = 2000 }

-- The worker fails, and the scheduler releases the job.
abbrev between : List (Env × Call)
between =
    (no_fault, fail (codes "01A") (codes "no") (pos 0)) ∷ (later, promote_scheduled (pos 1000)) ∷ []

abbrev at_first : Job
at_first = claim_row 1000 (1000 + 300000000) (codes "w") (waiting (codes "01A") 1)

abbrev at_second : Job
at_second =
    claim_row 2000 (2000 + 300000000) (codes "v")
      (release_row (fail_row 1000 1000 (codes "no") at_first))

first :
    claim_job pg no_fault (codes "mail") (codes "w") one_job
    ≡ (ok (some (scan_job_row at_first)), tables (at_first ∷ []))
unfolding claim_job lock_micros claim_jobs touch_worker claim_row scan_job_row where_claimable
    claims_before update_returning find_row update_rows pick ids in_ids is_paused text_discrete sort
first = refl

second :
    claim_job pg later
      (codes "mail")
      (codes "v")
      (run (pg_driver pg) between (tables (at_first ∷ [])))
    ≡ (ok (some (scan_job_row at_second)), tables (at_second ∷ []))
unfolding claim_job lock_micros claim_jobs touch_worker claim_row scan_job_row where_claimable
    claims_before update_returning find_row update_rows pick ids in_ids is_paused text_discrete sort
    fail_job fail_row retry_time where_running promote_scheduled_jobs update_picked update_jobs
    release_row where_due due_before limit_or
second = refl

same_job : (scan_job_row at_second).id ≡ (scan_job_row at_first).id
unfolding scan_job_row claim_row release_row fail_row
same_job = refl

claim_job-attempts_example :
    ((scan_job_row at_first).attempt < (scan_job_row at_second).attempt)
    × ((scan_job_row at_second).attempt ≤ (scan_job_row at_second).max_attempts)
    × ((scan_job_row at_second).max_attempts ≡ (scan_job_row at_first).max_attempts)
claim_job-attempts_example =
    claim_job-attempts pg no_fault later (codes "mail") (codes "mail") (codes "w") (codes "v")
      between one_job (tables (at_first ∷ [])) (tables (at_second ∷ [])) (scan_job_row at_first)
      (scan_job_row at_second) one_job-IsSound first second same_job
