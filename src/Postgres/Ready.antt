-- ===== src/Postgres/Ready.antt =====
-- A job that `CreateJob` of internal/service/driver_pg.go made, and the claims after it.
use stevy.Base.{
  ◌≡◌, refl, sym, ap, ◌∙◌, inl, inr, ◌≤◌, ◌*◌, Bool, true, false, ◌⊎◌, subst, Option, none, some,
  List, [], ◌∷◌, ◌++◌, All, arith, Option-cases, Bool-cases,
}
use stevy.Base.Text.{Text, codes}
use stevy.Jobs.{find_row, has_id, where_claimable, is_available}
use stevy.Jobs.Keys.{Distinct, Distinct-append}
use stevy.Postgres.{Config, create_job, claim_job, scan_job_row}
use stevy.Postgres.Claims.{claim_job-idle}
use stevy.Postgres.Created.{find_row-append}
use stevy.Statements.{insert_job, is_paused, claim_jobs, touch_worker}
use stevy.Statements.Claim.{is_claimable}
use stevy.Store.{
  Job, JobRow, Store, Env, CreateOpts, Result, ok, pure, exec, continue, available, pending,
  scheduled, running, retryable, cancelled, discarded, completed, status_text, Status,
}

-- A row of the table behind one that was returned.
record IsStoredAs (row : JobRow) (s : Store) : Type 0 where
  job : Job
  shown : scan_job_row job ≡ row
  there : find_row (has_id job.id) s.jobs ≡ some job
  distinct : Distinct s.jobs

or_first : Job → Option Job → Job
or_first x none = x
or_first x (some r) = r

some_injective : {x r : Job} → some x ≡ some r → x ≡ r
unfolding or_first
some_injective {x = x} e = ap (or_first x) e

All-find_row :
    (P : Job → Type 0) (test : Job → Bool) (rows : List Job) (r : Job)
    → All P rows
    → find_row test rows ≡ some r
    → P r
unfolding find_row
All-find_row P test [] r h e = absurd (ground arith)
All-find_row P test (x ∷ rows) r h e = elim (Bool-cases (test x)) [
  | inl t ↦ subst P (some_injective (rw t at e)) h.0
  | inr t ↦ All-find_row P test rows r h.1 (rw t at e)
]

inserted :
    (r : Job) (f : Option Text) (s s' : Store) (row : JobRow)
    → Distinct s.jobs
    → continue (λ x. pure (scan_job_row x)) (exec f (insert_job r) s) ≡ (ok row, s')
    → IsStoredAs row s'
unfolding insert_job
inserted r (some m) s s' row d h = absurd (ground arith)
inserted r none s s' row d h = elim (Option-cases (find_row (has_id r.id) s.jobs)) [
  | inr (old, e) ↦ absurd (ground arith)
  | inl fresh ↦
      let new : Store = record s { jobs = s.jobs ++ (r ∷ []) } in
      let h' : ◌≡◌ {A = Result JobRow × Store} (ok (scan_job_row r), new) (ok row, s') =
        rw (fresh, insert_job) at h in
      let after : new ≡ s' = ap (λ o. o.1) h' in
      record {
        job = r;
        shown = ground (arith, ap (λ o. o.0) h');
        there = rw (sym after) (find_row-append r s.jobs fresh);
        distinct = rw (sym after) (Distinct-append s.jobs r d fresh);
      }
]

created :
    (cfg : Config) (e : Env) (o : CreateOpts) (s s' : Store) (row : JobRow)
    → Distinct s.jobs
    → create_job cfg e o s ≡ (ok row, s')
    → IsStoredAs row s'
unfolding create_job
created cfg e o s s' row d h = elim (Option-cases (e.fault 0)) [
  | inr (m, f) ↦ absurd (ground arith)
  | inl f ↦ elim (Option-cases e.new_id) [
    | inl i ↦ absurd (ground arith)
    | inr (id, i) ↦ inserted _ (e.fault 1) _ s' row d (rw (f, i) at h)
  ]
]

from_text : (x : Status) → status_text x ≡ codes "available" → is_available x ≡ true
unfolding status_text
from_text available h = refl
from_text pending h = absurd (ground arith)
from_text scheduled h = absurd (ground arith)
from_text running h = absurd (ground arith)
from_text retryable h = absurd (ground arith)
from_text cancelled h = absurd (ground arith)
from_text discarded h = absurd (ground arith)
from_text completed h = absurd (ground arith)

claimable :
    (e : Env) (r : Job)
    → (scan_job_row r).status ≡ codes "available"
    → (scan_job_row r).scheduled_at ≤ e.now * 1000
    → e.is_locked (scan_job_row r).id ≡ false
    → is_claimable e.is_locked e.now (scan_job_row r).queue r ≡ true
unfolding scan_job_row where_claimable
claimable e r status due free = ground (arith, from_text r.status status)

answered :
    (cfg : Config) (e : Env) (queue worker : Text) (s : Store)
    → e.fault 0 ≡ none
    → e.fault 1 ≡ none
    → (x : Option JobRow) × (t : Store) × (claim_job cfg e queue worker s ≡ (ok x, t))
unfolding claim_job claim_jobs touch_worker
answered cfg e queue worker s f f' = elim (Bool-cases (is_paused queue s.queues)) [
  | inl p ↦ rw (f, f', p) (_, _, refl)
  | inr p ↦ rw (f, f', p) (_, _, refl)
]

some_of :
    (o : Result (Option JobRow) × Store) (x : Option JobRow) (t : Store)
    → o ≡ (ok x, t)
    → ¬ (x ≡ none)
    → (got : JobRow) × (o.0 ≡ ok (some got))
some_of o none t e some_row = absurd (some_row refl)
some_of o (some got) t e some_row = (got, ap (λ y. y.0) e)

not_idle :
    (test : Job → Bool) (row : JobRow) (s : Store) (stored : IsStoredAs row s) (paused : Bool)
    → paused ≡ false
    → test stored.job ≡ true
    → ¬ ((paused ≡ true) ⊎ All (λ x. test x ≡ false) s.jobs)
not_idle test row s stored paused resumed passes (inl p) = cc
not_idle test row s stored paused resumed passes (inr all) =
    let refused = All-find_row (λ x. test x ≡ false) _ s.jobs stored.job all stored.there in cc

-- After `CreateJob` has returned a row that is available, a call of `ClaimJob` for its queue returns a
-- job, if the row's time has come, the row is not locked, the queue is not paused and the claim's two
-- statements do not fail. The ids are distinct beforehand.
pub claim_job-create_job :
    (cfg : Config) (e e' : Env) (o : CreateOpts) (worker : Text) (s s' : Store) (row : JobRow)
    → Distinct s.jobs
    → create_job cfg e o s ≡ (ok row, s')
    → row.status ≡ codes "available"
    → row.scheduled_at ≤ e'.now * 1000
    → is_paused row.queue s'.queues ≡ false
    → e'.is_locked row.id ≡ false
    → e'.fault 0 ≡ none
    → e'.fault 1 ≡ none
    → (got : JobRow) × ((claim_job cfg e' row.queue worker s').0 ≡ ok (some got))
claim_job-create_job cfg e e' o worker s s' row d h status due resumed free f f' =
    let stored = created cfg e o s s' row d h in
    let ready : is_claimable e'.is_locked e'.now row.queue stored.job ≡ true =
      subst
        (λ x.
          x.status ≡ codes "available"
          → x.scheduled_at ≤ e'.now * 1000
          → e'.is_locked x.id ≡ false
          → is_claimable e'.is_locked e'.now x.queue stored.job ≡ true)
        stored.shown (claimable e' stored.job) status due free in
    let (x, t, e) = answered cfg e' row.queue worker s' f f' in
    some_of _ x t e (λ nothing.
      let (why, same) =
        claim_job-idle cfg e' row.queue worker s' t stored.distinct
          (e ∙ ap (λ y. (ok y, t)) nothing) in
      not_idle _ row s' stored _ resumed ready why)
