-- ===== src/Postgres/Shuffled.antt =====
-- Two databases whose tables `jobs` hold the same rows in different orders, before `PGDriver`.
use mathlib.Core.List.{Permᴰ}
use stevy.Base.{
  ℕ, ◌≡◌, refl, sym, ap, inl, inr, Bool, Option, none, some, List, ℤ, not, ◌&&◌, map, Bool-cases,
  Option-cases, filter, take, ◌+◌,
}
use stevy.Base.Sort.{sort}
use stevy.Base.Text.{Text}
use stevy.Jobs.{find_row, has_id, claim_row, update_rows, where_claimable}
use stevy.Jobs.Keys.{Distinct}
use stevy.Jobs.Select.{claims_before, pick, ids, in_ids, limit_or}
use stevy.Jobs.Shuffled.{
  pick-Permᴰ, list_rows-Permᴰ, find_row-first-Permᴰ, find_row-id-Permᴰ, update_rows-Permᴰ,
}
use stevy.Postgres.{Config, claim_job, scan_job_row, lock_micros}
use stevy.Postgres.Reads.{get_job, list_jobs}
use stevy.Statements.{claim_jobs, is_paused, touch_worker, touch_workers, map_option}
use stevy.Statements.Reads.{select_row, select_rows}
use stevy.Store.{Job, Store, Env, Result, ok, err, M, pure, continue, exec}

-- The same answer, and a store that differs in the order of its jobs at most.
abbrev pub IsLevel : {A : Type 0} → Result A × Store → Result A × Store → Type 0
IsLevel a b = (rows : List Job) × (b ≡ (a.0, record a.1 { jobs = rows })) × Permᴰ a.1.jobs rows

mapped :
    {A B : Type 0} (f : A → B) (a b : Result A × Store)
    → IsLevel a b
    → IsLevel (continue (λ x. pure (f x)) a) (continue (λ x. pure (f x)) b)
mapped f (ok x, t) b (rows, e, p) = rw e (rows, refl, p)
mapped f (err x, t) b (rows, e, p) = rw e (rows, refl, p)

executed :
    {A : Type 0} (m : Option Text) (call : M A) (s : Store) (rows : List Job)
    → Permᴰ s.jobs rows
    → IsLevel (call s) (call (record s { jobs = rows }))
    → IsLevel (exec m call s) (exec m call (record s { jobs = rows }))
executed none call s rows p h = h
executed (some m) call s rows p h = (rows, refl, p)

claim_jobs-IsLevel :
    (is_locked : Text → Bool) (now lock : ℕ) (worker queue : Text) (s : Store) (rows : List Job)
    → Distinct s.jobs
    → Permᴰ s.jobs rows
    → IsLevel
        (claim_jobs is_locked now lock worker queue s)
        (claim_jobs is_locked now lock worker queue (record s { jobs = rows }))
unfolding claim_jobs pick
claim_jobs-IsLevel is_locked now lock worker queue s rows d p =
    let test : Job → Bool = λ r. where_claimable queue now r && not (is_locked r.id) in
    elim (Bool-cases (is_paused queue s.queues)) [
      | inl e ↦ rw e (rows, refl, p)
      | inr e ↦
          let change = claim_row now lock worker in
          let first = sort claims_before (filter test s.jobs) in
          let found = find_row-first-Permᴰ s.jobs d first p in
          rw (e, sym (pick-Permᴰ s.jobs d test 1 p))
            (
              update_rows (in_ids (ids (take 1 first))) change rows,
              ap
                  (λ r. (
                    ok (map_option change r),
                    record s { jobs = update_rows (in_ids (ids (take 1 first))) change rows },
                  ))
                  (sym found),
              update_rows-Permᴰ (in_ids (ids (take 1 first))) change p,
            )
    ]

claim_job-Permᴰ :
    (cfg : Config) (e : Env) (queue worker : Text) (s : Store) (rows : List Job)
    → Distinct s.jobs
    → Permᴰ s.jobs rows
    → IsLevel
        (claim_job cfg e queue worker s)
        (claim_job cfg e queue worker (record s { jobs = rows }))
unfolding claim_job touch_worker
claim_job-Permᴰ cfg e queue worker s rows d p = elim (Option-cases (e.fault 0)) [
  | inr (m, f) ↦ rw f (rows, refl, p)
  | inl f ↦ rw f (
      let t = record s { workers = touch_workers e.now worker s.workers } in
      mapped (map_option scan_job_row) _ _ (
        executed (e.fault 1) _ t rows p
          (claim_jobs-IsLevel e.is_locked e.now (e.now + lock_micros cfg) worker queue t rows d p)))
]

list_jobs-Permᴰ :
    (e : Env) (queue status after : Text) (limit : ℤ) (s : Store) (rows : List Job)
    → Distinct s.jobs
    → Permᴰ s.jobs rows
    → IsLevel
        (list_jobs e queue status limit after s)
        (list_jobs e queue status limit after (record s { jobs = rows }))
unfolding list_jobs select_rows
list_jobs-Permᴰ e queue status after limit s rows d p = executed (e.fault 0) _ s rows p (
  rows,
  ap (λ found. (ok (map scan_job_row found), record s { jobs = rows }))
      (sym (list_rows-Permᴰ s.jobs d queue status after (limit_or 50 limit) p)),
  p,
)

row_or_none :
    (id : Text) (s : Store) (rows : List Job) (found : Option Job)
    → find_row (has_id id) s.jobs ≡ found
    → find_row (has_id id) rows ≡ found
    → Permᴰ s.jobs rows
    → IsLevel (select_row scan_job_row id s) (select_row scan_job_row id (record s { jobs = rows }))
unfolding select_row
row_or_none id s rows none f g p = rw (f, select_row) (rw (g, select_row) (rows, refl, p))
row_or_none id s rows (some r) f g p = rw (f, select_row) (rw (g, select_row) (rows, refl, p))

get_job-Permᴰ :
    (e : Env) (id : Text) (s : Store) (rows : List Job)
    → Distinct s.jobs
    → Permᴰ s.jobs rows
    → IsLevel (get_job e id s) (get_job e id (record s { jobs = rows }))
unfolding get_job
get_job-Permᴰ e id s rows d p =
    executed (e.fault 0) _ s rows p
      (row_or_none id s rows _ refl (sym (find_row-id-Permᴰ s.jobs d id p)) p)

-- On two databases whose tables `jobs` hold the same rows, with distinct ids, in different orders, and
-- which agree in all else: `ClaimJob`, `ListJobs` and `GetJob` answer the same, errors included, and
-- leave databases that differ in the order of their jobs at most.
pub pg_driver-Permᴰ :
    (cfg : Config) (e : Env) (s : Store) (rows : List Job)
    → Distinct s.jobs
    → Permᴰ s.jobs rows
    → (queue worker status after id : Text) (limit : ℤ)
    → let t : Store = record s { jobs = rows } in
      IsLevel (claim_job cfg e queue worker s) (claim_job cfg e queue worker t)
      × IsLevel (list_jobs e queue status limit after s) (list_jobs e queue status limit after t)
      × IsLevel (get_job e id s) (get_job e id t)
pg_driver-Permᴰ cfg e s rows d p queue worker status after id limit = (
  claim_job-Permᴰ cfg e queue worker s rows d p,
  list_jobs-Permᴰ e queue status after limit s rows d p,
  get_job-Permᴰ e id s rows d p,
)
