-- ===== src/Postgres/Sequence.antt =====
-- Claims of one queue after one another, on PostgreSQL.
use stevy.Base.{
  ℕ, zero, suc, ◌+◌, ◌≡◌, refl, ◌∙◌, ap, false, Option, none, some, List, [], ◌∷◌, map, take,
  take-all, arith,
}
use stevy.Base.Text.{Text}
use stevy.Jobs.{update_rows, has_id, claim_row}
use stevy.Jobs.Keys.{Distinct}
use stevy.Postgres.{Config, scan_job_row, claim_job, lock_micros}
use stevy.Statements.{is_paused, touch_worker}
use stevy.Statements.Claim.{claim_jobs-taken_first}
use stevy.Statements.Claim.Sequence.{claimable, claimable-rest, claimed-Distinct}
use stevy.Store.{Job, JobRow, Store, Env, Result, ok, err}

-- The rows that a number of calls return, one after the other.
abbrev pub row_and : Result (Option JobRow) → List JobRow → List JobRow
row_and (ok (some row)) rows = row ∷ rows
row_and (ok none) rows = rows
row_and (err x) rows = rows

unfoldable pub claim_each : Config → Env → Text → Text → ℕ → Store → List JobRow
claim_each cfg e queue worker zero s = []
claim_each cfg e queue worker (suc n) s =
    let (o, s') = claim_job cfg e queue worker s in row_and o (claim_each cfg e queue worker n s')

module _ (cfg : Config) (e : Env) (queue worker : Text) (runs : e.fault 0 ≡ none)
    (runs' : e.fault 1 ≡ none) where
  abbrev waiting : Store → List Job
  waiting s = claimable e.is_locked e.now (e.now + lock_micros cfg) worker queue s.jobs

  claim_each-from_list :
      (n : ℕ) (s : Store)
      → Distinct s.jobs
      → is_paused queue s.queues ≡ false
      → (xs : List Job) → waiting s ≡ xs
      → claim_each cfg e queue worker n s
        ≡ map (λ r. scan_job_row (claim_row e.now (e.now + lock_micros cfg) worker r)) (take n xs)
  unfolding claim_each claim_job touch_worker
  claim_each-from_list zero s d u xs e' = refl
  claim_each-from_list (suc n) s d u [] e' =
      let t = (touch_worker e.now worker s).1 in
      let first =
        claim_jobs-taken_first e.is_locked e.now (e.now + lock_micros cfg) worker queue t d u []
          e' in
      rw (runs, runs', first)
        (claim_each-from_list n t d u [] e'
          ∙ ap (map (λ r. scan_job_row (claim_row e.now (e.now + lock_micros cfg) worker r)))
              (take-all n [] (omega arith)))
  claim_each-from_list (suc n) s d u (r ∷ rest) e' =
      let t = (touch_worker e.now worker s).1 in
      let now = e.now in
      let lock = e.now + lock_micros cfg in
      let first = claim_jobs-taken_first e.is_locked now lock worker queue t d u (r ∷ rest) e' in
      let t' : Store = record t {
        jobs = update_rows (has_id r.id) (claim_row now lock worker) s.jobs;
      } in
      rw (runs, runs', first)
        (ap (◌∷◌ (scan_job_row (claim_row now lock worker r))) (
          claim_each-from_list n t' (claimed-Distinct e.is_locked now lock worker queue s.jobs r d)
            u rest (claimable-rest e.is_locked now lock worker queue s.jobs r rest d e')))

  -- Calls of `ClaimJob` on a queue that is not paused return, one after the other, the jobs of the
  -- queue that are available, due and not locked, in the order priority, time, id, each once and as it
  -- runs then, until there are none, if the calls meet no failure and read one time of the database.
  -- The ids are distinct beforehand.
  pub claim_each-sort :
      (n : ℕ) (s : Store)
      → Distinct s.jobs
      → is_paused queue s.queues ≡ false
      → claim_each cfg e queue worker n s
        ≡ map
            (λ r. scan_job_row (claim_row e.now (e.now + lock_micros cfg) worker r))
            (take n (waiting s))
  claim_each-sort n s d u = claim_each-from_list n s d u (waiting s) refl
