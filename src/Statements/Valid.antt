-- ===== src/Statements/Valid.antt =====
-- A new job is valid, and the statements on `queues` and `workers` leave the jobs alone.
use stevy.Base.{ℕ, zero, suc, refl, Bool, true, false, Option, none, some, arith}
use stevy.Base.Text.{Text}
use stevy.Store.{Job, CreateOpts, pure, exec, ◌>>=◌, ◌>>◌}
use stevy.JsonString.{nat_eq}
use stevy.Jobs.Moves.{IsValid}
use stevy.Statements.{
  new_job, initial_status, with_new_id, insert_job, claim_jobs, require_rows, require_row,
  touch_queue, touch_worker, pause_entry, resume_entry,
}
use stevy.Statements.Keeps.{
  KeepsFrom-refl, Keeps, SameJobs, same_bind-Keeps, bind_same-Keeps, exec-Keeps, exec-SameJobs,
  insert_job-Keeps, claim_jobs-Keeps,
}

pub new_job-IsValid :
    (now at : ℕ) (id : Text) (is_pending is_later : Bool) (o : CreateOpts)
    → IsValid (new_job now at id (initial_status is_pending is_later) o)
unfolding new_job
new_job-IsValid now at id true later o = ground arith
new_job-IsValid now at id false true o = ground arith
new_job-IsValid now at id false false o = ground arith

pub touch_queue-SameJobs : (now : ℕ) (name : Text) → SameJobs (touch_queue now name)
unfolding touch_queue
touch_queue-SameJobs now name s = refl

pub touch_worker-SameJobs : (now : ℕ) (id : Text) → SameJobs (touch_worker now id)
unfolding touch_worker
touch_worker-SameJobs now id s = refl

pub pause_entry-SameJobs : (now : ℕ) (name : Text) → SameJobs (pause_entry now name)
unfolding pause_entry
pause_entry-SameJobs now name s = refl

pub resume_entry-SameJobs : (now : ℕ) (name : Text) → SameJobs (resume_entry now name)
unfolding resume_entry
resume_entry-SameJobs now name s = refl

pub require_rows-SameJobs : (n : ℕ) → SameJobs (require_rows n)
require_rows-SameJobs zero s = refl
require_rows-SameJobs (suc n) s = refl

pub require_row-SameJobs : (r : Option Job) → SameJobs (require_row r)
require_row-SameJobs none s = refl
require_row-SameJobs (some r) s = refl

insert_with_id-Keeps :
    {A : Type 0} (f1 : Option Text) (row : Text → Job) (scan : Job → A)
    → ((id : Text) → IsValid (row id))
    → (new : Option Text)
    → Keeps (with_new_id new λ id. do r ← exec f1 (insert_job (row id)); pure (scan r))
insert_with_id-Keeps f1 row scan valid none s d = KeepsFrom-refl s.jobs d
insert_with_id-Keeps f1 row scan valid (some id) s d =
    bind_same-Keeps (exec f1 (insert_job (row id))) (λ r. pure (scan r))
      (exec-Keeps f1 (insert_job (row id)) (insert_job-Keeps (row id) (valid id))) (λ r s. refl) s d

-- The parts of every `CreateJob`.
pub create-Keeps :
    {A : Type 0} (f0 f1 : Option Text) (now : ℕ) (queue : Text) (new : Option Text)
    (row : Text → Job) (scan : Job → A)
    → ((id : Text) → IsValid (row id))
    → Keeps (do
      exec f0 (touch_queue now queue)
      with_new_id new λ id. do r ← exec f1 (insert_job (row id)); pure (scan r))
create-Keeps f0 f1 now queue new row scan valid =
    same_bind-Keeps (exec f0 (touch_queue now queue))
      (λ _. with_new_id new λ id. do r ← exec f1 (insert_job (row id)); pure (scan r))
      (exec-SameJobs f0 (touch_queue now queue) (touch_queue-SameJobs now queue))
      (λ _. insert_with_id-Keeps f1 row scan valid new)

-- Those of every `ClaimJob`.
pub claim-Keeps :
    {A : Type 0} (f0 f1 : Option Text) (is_locked : Text → Bool) (now lock : ℕ)
    (worker queue : Text) (scan : Option Job → A)
    → Keeps (do
      exec f0 (touch_worker now worker)
      r ← exec f1 (claim_jobs is_locked now lock worker queue)
      pure (scan r))
claim-Keeps f0 f1 is_locked now lock worker queue scan =
    same_bind-Keeps (exec f0 (touch_worker now worker))
      (λ _. do r ← exec f1 (claim_jobs is_locked now lock worker queue); pure (scan r))
      (exec-SameJobs f0 (touch_worker now worker) (touch_worker-SameJobs now worker))
      (λ _.
        bind_same-Keeps (exec f1 (claim_jobs is_locked now lock worker queue)) (λ r. pure (scan r))
          (exec-Keeps f1 (claim_jobs is_locked now lock worker queue)
            (claim_jobs-Keeps is_locked now lock worker queue))
          (λ r s. refl))
