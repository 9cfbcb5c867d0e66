-- ===== src/Postgres/Listing.antt =====
-- The pages of `PGDriver.ListJobs`.
use stevy.Base.{
  length-take-le, length-map, ℕ, zero, suc, ◌≤◌, ◌≡◌, ◌⊎◌, true, none, List, [], ◌∷◌, map, take,
  length, filter, filter-holds, All, All-map, All-take, ℤ, arith,
}
use stevy.Base.Sort.{sort, All-sort}
use stevy.Base.Sort.Order.{IsSorted, sort-IsSorted}
use stevy.Base.Text.{Text, text_eq, text_lt}
use stevy.Jobs.Order.{newer-IsOrder}
use stevy.Jobs.Queries.{where_listed, list_rows}
use stevy.Jobs.Select.{newer, limit_or}
use stevy.Postgres.{scan_job_row}
use stevy.Postgres.Reads.{list_jobs}
use stevy.Statements.Reads.{select_rows}
use stevy.Store.{Job, JobRow, Store, Env, ok}

-- A row is what the request asks for: an empty condition allows any.
pub record IsListed (queue status after : Text) (r : JobRow) : Type 0 where
  pub queue_fits : (queue ≡ []) ⊎ (r.queue ≡ queue)
  pub status_fits : (status ≡ []) ⊎ (r.status ≡ status)
  pub below : (after ≡ []) ⊎ (text_lt r.id after ≡ true)

-- No row stands behind one with a smaller id.
abbrev pub NewestFirst : List JobRow → Type 0
NewestFirst rows = IsSorted (λ a b. text_lt b.id a.id) rows

IsSorted-take : (n : ℕ) (xs : List Job) → IsSorted newer xs → IsSorted newer (take n xs)
IsSorted-take zero xs h = tt
IsSorted-take (suc n) [] h = tt
IsSorted-take (suc n) (x ∷ xs) h = (All-take _ n xs h.0, IsSorted-take n xs h.1)

All-scan :
    (P : JobRow → Type 0) (xs : List Job)
    → All (λ x. P (scan_job_row x)) xs
    → All P (map scan_job_row xs)
All-scan P [] h = tt
All-scan P (x ∷ xs) h = (h.0, All-scan P xs h.1)

scanned-NewestFirst : (xs : List Job) → IsSorted newer xs → NewestFirst (map scan_job_row xs)
unfolding scan_job_row newer
scanned-NewestFirst [] h = tt
scanned-NewestFirst (x ∷ xs) h = (All-scan _ xs h.0, scanned-NewestFirst xs h.1)

listed :
    (queue status after : Text) (r : Job)
    → where_listed queue status after r ≡ true
    → IsListed queue status after (scan_job_row r)
unfolding where_listed scan_job_row
listed queue status after r h = record {
  queue_fits = ground arith;
  status_fits = ground arith;
  below = ground arith;
}

-- If the query does not fail, `ListJobs` returns at most as many rows as the limit (50 if it is not
-- positive), newest first, each with the queue, the status and an id below the one that the request
-- names, where an empty text names none, and changes nothing.
pub list_jobs-page :
    (e : Env) (queue status after : Text) (limit : ℤ) (s : Store)
    → e.fault 0 ≡ none
    → (rows : List JobRow) × (list_jobs e queue status limit after s ≡ (ok rows, s))
      × (length rows ≤ limit_or 50 limit)
      × NewestFirst rows
      × All (IsListed queue status after) rows
unfolding list_jobs select_rows list_rows
list_jobs-page e queue status after limit s runs =
    let test = where_listed queue status after in
    let sorted = sort newer (filter test s.jobs) in
    let page = take (limit_or 50 limit) sorted in
    (
      map scan_job_row page,
      rw runs,
      omega (arith, length-map scan_job_row page, length-take-le (limit_or 50 limit) sorted),
      scanned-NewestFirst page
          (IsSorted-take _ sorted (sort-IsSorted newer newer-IsOrder (filter test s.jobs))),
      All-scan _ page (
          All-take _ (limit_or 50 limit) sorted (
            All-sort newer _ _
              (All-map _ _ (λ r h. listed queue status after r h) _ (filter-holds test s.jobs)))),
    )
