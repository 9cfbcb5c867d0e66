-- ===== src/Web/Visits.antt =====
-- The jobs that a signed-in user sees who follows the links of the jobs page.
use stevy.Base.{
  suc, ◌≡◌, refl, sym, ◌∙◌, ap, Bool, ◌&&◌, Option, none, some, List, [], ◌∷◌, map, length, filter,
  All, All-filter, length-filter-le, arith,
}
use stevy.Base.Sort.{sort, All-sort, length-sort}
use stevy.Base.Sort.Order.{sort-IsSorted, sort-filter}
use stevy.Base.Text.{Text, codes, text_eq, text_discrete}
use stevy.Jobs.Keys.{Distinct}
use stevy.Jobs.Once.{sorted-Falling, Distinct-Once, Once-filter, Once-sort}
use stevy.Jobs.Order.{newer-IsOrder}
use stevy.Jobs.Queries.{where_listed, list_rows}
use stevy.Jobs.Select.{newer}
use stevy.Postgres.{Config, scan_job_row}
use stevy.Postgres.Contract.{pg_driver}
use stevy.Postgres.Reads.{list_jobs}
use stevy.Statements.Reads.{select_rows}
use stevy.Store.{Job, User, Store, Env}
use stevy.Web.{current_user}
use stevy.Web.Pages.{JobListRow, Formats, list_row, shown, next_cursor_of, filter_of, index}
use stevy.Web.Paging.{view_of, follow, below, IsNamed, fetched, follow-rest}

filter-both :
    (p q r : Job → Bool)
    → ((x : Job) → r x ≡ (q x && p x))
    → (rows : List Job) → filter p (filter q rows) ≡ filter r rows
filter-both p q r e [] = refl
filter-both p q r e (x ∷ rows) = ground (arith, e x, filter-both p q r e rows)

where_listed-below :
    (status after : Text) (r : Job)
    → where_listed [] status after r ≡ (where_listed [] status [] r && below after r)
unfolding where_listed
where_listed-below status [] r = ground arith
where_listed-below status (c ∷ t) r = ground arith

everything : (rows : List Job) → filter (below []) rows ≡ rows
everything [] = refl
everything (r ∷ rows) = ap (◌∷◌ r) (everything rows)

-- The jobs that the page lists with a filter, newest first.
abbrev pub listed_jobs : Text → Store → List Job
listed_jobs status s = sort newer (filter (where_listed [] (filter_of status) []) s.jobs)

listed_jobs-below :
    (status after : Text) (s : Store)
    → sort newer (filter (where_listed [] (filter_of status) after) s.jobs)
      ≡ filter (below after) (listed_jobs status s)
listed_jobs-below status after s =
    ap (sort newer)
      (sym (filter-both (below after) _ _ (where_listed-below (filter_of status) after) s.jobs))
    ∙ sort-filter newer newer-IsOrder (below after) _

module _ (f : Formats) (sign : Text → Text) (w : Config) (e e' e'' : Env) (hostname status : Text)
    (cookie : Option Text) (s : Store) (u : User)
    (signed_in : current_user sign e cookie s ≡ (some u, s)) (runs : e'.fault 0 ≡ none) where
  -- The page after a cursor, which changes nothing.
  abbrev pub page_after : Text → Option (List JobListRow × Text)
  page_after after =
      view_of (index f sign (pg_driver w) e e' e'' hostname cookie (codes "/") status after s).0

  page_after-fetched :
      (after : Text)
      → page_after after
        ≡ some (
          map (list_row f) (shown (fetched (filter (below after) (listed_jobs status s)))),
          next_cursor_of (fetched (filter (below after) (listed_jobs status s))),
        )
  unfolding index list_jobs select_rows list_rows text_discrete
  page_after-fetched after = rw signed_in (rw runs (rw (listed_jobs-below status after s) refl))

  -- If the jobs' ids differ and are not empty, a signed-in user whom the database does not fail, and who
  -- follows the links of the jobs page from the first page on, comes to a last page after at most one
  -- page more than there are jobs, and has then seen each job that the filter keeps once, newest first.
  pub follow-index :
      Distinct s.jobs
      → All IsNamed s.jobs
      → follow page_after (suc (length s.jobs)) []
        ≡ some (map (list_row f) (map scan_job_row (listed_jobs status s)))
  follow-index distinct named =
      let test = where_listed [] (filter_of status) [] in
      let once = Once-sort newer _ (Once-filter test s.jobs (Distinct-Once s.jobs distinct)) in
      let all = listed_jobs status s in
      follow-rest f page_after all
        (sorted-Falling all (sort-IsSorted newer newer-IsOrder (filter test s.jobs)) once)
        page_after-fetched (suc (length s.jobs)) [] all [] refl (everything all)
        (All-sort newer IsNamed (filter test s.jobs) (All-filter IsNamed test s.jobs named))
        (omega (arith, length-sort newer (filter test s.jobs), length-filter-le test s.jobs))
