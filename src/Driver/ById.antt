-- ===== src/Driver/ById.antt =====
-- What the handlers may assume of a driver's calls on the job of an id.
use stevy.Base.{Bool, ◌≡◌, refl, not, Option, none, some}
use stevy.Base.Text.{Text}
use stevy.Driver.{Driver}
use stevy.Jobs.{is_running, is_pending, is_terminal, complete_row, promote_row, cancel_row}
use stevy.Jobs.Keys.{Distinct}
use stevy.Jobs.ById.{where_id}
use stevy.Statements.{update_jobs, require_rows}
use stevy.Statements.ById.{ChangesById, count_call-ChangesById}
use stevy.Store.{Status, Job, Store, Env, Result, err, failed, exec, ◌>>=◌}

-- A statement that fails changes nothing; one that does not changes the job of the id.
abbrev pub CallById :
    Option Text → Text → (Status → Bool) → (Job → Job) → Store → Result (Unit {0}) × Store → Type 0
CallById none id passes change s o = ChangesById id passes change s o
CallById (some m) id passes change s o = o ≡ (err (failed m), s)

-- `CompleteJob` is for running jobs, `PromoteJob` for pending ones, `CancelJob` for those that are not
-- final.
pub record IsById (d : Driver) : Type 0 where
  pub complete :
      (e : Env) (id result : Text) (s : Store)
      → Distinct s.jobs
      → CallById
          (e.fault 0)
          id
          is_running
          (complete_row e.now result)
          s
          (d.complete_job e id result s)
  pub promote :
      (e : Env) (id : Text) (s : Store)
      → Distinct s.jobs
      → CallById (e.fault 0) id is_pending (promote_row e.now) s (d.promote_job e id s)
  pub cancel :
      (e : Env) (id : Text) (s : Store)
      → Distinct s.jobs
      → CallById
          (e.fault 0)
          id
          (λ st. not (is_terminal st))
          (cancel_row e.now)
          s
          (d.cancel_job e id s)

-- A call that is one statement which counts the rows.
pub counted_call :
    (fault : Option Text) (id : Text) (passes : Status → Bool) (change : Job → Job)
    → ((r : Job) → (change r).id ≡ r.id)
    → (s : Store) → Distinct s.jobs
    → CallById fault id passes change s
        ((do n ← exec fault (update_jobs (where_id id passes) change); require_rows n) s)
counted_call none id passes change keeps s d = count_call-ChangesById id passes change keeps s d
counted_call (some m) id passes change keeps s d = refl
