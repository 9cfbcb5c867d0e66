-- ===== src/Postgres/Created.antt =====
-- `CreateJob` and `GetJob` of internal/service/driver_pg.go.
use stevy.Base.{
  ◌≡◌, refl, sym, ap, inl, inr, Option, none, some, List, [], ◌∷◌, ◌++◌, arith, Option-cases,
}
use stevy.Base.Text.{Text, text_eq}
use stevy.Jobs.{find_row, has_id}
use stevy.Postgres.{Config, create_job, scan_job_row}
use stevy.Postgres.Reads.{get_job}
use stevy.Statements.{insert_job}
use stevy.Statements.Reads.{select_row}
use stevy.Store.{Job, JobRow, Store, Env, CreateOpts, Result, ok, pure, exec, continue}

pub find_row-append :
    (r : Job) (rows : List Job)
    → find_row (has_id r.id) rows ≡ none
    → find_row (has_id r.id) (rows ++ (r ∷ [])) ≡ some r
unfolding find_row has_id
find_row-append r [] h = ground arith
find_row-append r (x ∷ rows) h = ground (arith, find_row-append r rows)

scan_job_row-id : (r : Job) → (scan_job_row r).id ≡ r.id
unfolding scan_job_row
scan_job_row-id r = refl

module _ (e' : Env) (runs : e'.fault 0 ≡ none) where
  inserted :
      (r : Job) (f : Option Text) (s s' : Store) (row : JobRow)
      → continue (λ x. pure (scan_job_row x)) (exec f (insert_job r) s) ≡ (ok row, s')
      → get_job e' row.id s' ≡ (ok row, s')
  unfolding insert_job get_job select_row
  inserted r (some m) s s' row h = absurd (ground arith)
  inserted r none s s' row h = elim (Option-cases (find_row (has_id r.id) s.jobs)) [
    | inr (old, e) ↦ absurd (ground arith)
    | inl fresh ↦
        let new : Store = record s { jobs = s.jobs ++ (r ∷ []) } in
        let h' : ◌≡◌ {A = Result JobRow × Store} (ok (scan_job_row r), new) (ok row, s') =
          rw (fresh, insert_job) at h in
        let same : scan_job_row r ≡ row = ground (arith, ap (λ o. o.0) h') in
        let after : new ≡ s' = ap (λ o. o.1) h' in
        rw (sym same, sym after)
          (rw (scan_job_row-id r) (rw runs (rw (find_row-append r s.jobs fresh, select_row))))
  ]

  -- A job that `CreateJob` has returned is read back by `GetJob`, field by field, with the id that was
  -- returned, if the query does not fail.
  pub get_job-create_job :
      (cfg : Config) (e : Env) (o : CreateOpts) (s s' : Store) (row : JobRow)
      → create_job cfg e o s ≡ (ok row, s')
      → get_job e' row.id s' ≡ (ok row, s')
  unfolding create_job
  get_job-create_job cfg e o s s' row h = elim (Option-cases (e.fault 0)) [
    | inr (m, f) ↦ absurd (ground arith)
    | inl f ↦ elim (Option-cases e.new_id) [
      | inl i ↦ absurd (ground arith)
      | inr (id, i) ↦ inserted _ (e.fault 1) _ s' row (rw (f, i) at h)
    ]
  ]
