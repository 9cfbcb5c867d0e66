-- ===== src/Scheduler/Pass.antt =====
-- What the statements of a scheduler pass do to running jobs, on PostgreSQL.
use stevy.Base.{
  ℕ, ◌≤◌, ◌≡◌, inl, inr, Bool, true, false, ◌&&◌, not, none, some, List, [], ◌∷◌, All, All-map,
  count, pos, arith, Bool-cases, Option-cases,
}
use stevy.Base.Text.{Text, text_eq}
use stevy.Jobs.{
  is_running, update_rows, find_row, has_id, where_expired, where_due, expire_row, release_row,
  fail_row,
}
use stevy.Jobs.Keys.{Distinct, in_ids-pick}
use stevy.Jobs.Reached.{release_row-id}
use stevy.Jobs.Select.{lock_before, due_before, limit_or}
use stevy.Postgres.{Config, fail_expired_jobs, promote_scheduled_jobs}
use stevy.Postgres.Contract.{pg_driver}
use stevy.Scheduler.{run_scheduler}
use stevy.Scheduler.Expiry.{picks-All}
use stevy.Statements.{update_picked, update_jobs}
use stevy.Store.{Job, Store, Env}

module _ (test : Job → Bool) (change : Job → Job) where
  All-update_rows :
      (Q : Job → Type 0) (rows : List Job)
      → All (λ r. (test r ≡ true → Q (change r)) × (test r ≡ false → Q r)) rows
      → All Q (update_rows test change rows)
  unfolding update_rows
  All-update_rows Q [] h = tt
  All-update_rows Q (r ∷ rows) h = elim (Bool-cases (test r)) [
    | inl e ↦ rw e (h.0.0 e, All-update_rows Q rows h.1)
    | inr e ↦ rw e (h.0.1 e, All-update_rows Q rows h.1)
  ]

  find_row-kept :
      ((r : Job) → (change r).id ≡ r.id)
      → (rows : List Job) (id : Text) (r : Job)
      → All (λ x. is_running x.status ≡ true → test x ≡ false) rows
      → find_row (has_id id) rows ≡ some r
      → is_running r.status ≡ true
      → find_row (has_id id) (update_rows test change rows) ≡ some r
  unfolding update_rows find_row has_id
  find_row-kept keeps [] id r h f u = f
  find_row-kept keeps (x ∷ rows) id r h f u =
      ground (arith, keeps x, find_row-kept keeps rows id r h.1)

expire_row-expired :
    (now : ℕ) (entry : Text) (r : Job) → where_expired now (expire_row now entry r) ≡ false
unfolding expire_row fail_row where_expired
expire_row-expired now entry r = ground arith

still_locked :
    (now : ℕ) (locked : Bool) (r : Job) (b : Bool)
    → ((where_expired now r && not locked) ≡ true → b ≡ true)
    → locked ≡ false
    → b ≡ false
    → where_expired now r ≡ false
still_locked now locked r b h l e = ground arith

-- If the statement does not fail, no job is locked by another transaction and at most 1000 jobs run
-- past their lock, then after the scheduler's call of `FailExpiredJobs` none does.
fail_expired_jobs-clears :
    (cfg : Config) (e : Env) (s : Store)
    → e.fault 0 ≡ none
    → ((id : Text) → e.is_locked id ≡ false)
    → count (λ r. where_expired e.now r && not (e.is_locked r.id)) s.jobs ≤ 1000
    → All (λ r. where_expired e.now r ≡ false) (fail_expired_jobs cfg e (pos 1000) s).1.jobs
unfolding fail_expired_jobs update_picked update_jobs limit_or
fail_expired_jobs-clears cfg e s runs free few =
    let test = λ (r : Job). where_expired e.now r && not (e.is_locked r.id) in
    let picked = picks-All lock_before test 1000 s.jobs few in
    rw runs (
      All-update_rows _ _ _ s.jobs (
        All-map _ _
          (λ r h. (
            (λ p. expire_row-expired e.now _ r),
            λ p. still_locked e.now (e.is_locked r.id) r _ h (free r.id) p,
          ))
          s.jobs picked))

not_due :
    (now : ℕ) (locked : Bool) (r : Job) (b : Bool)
    → (b ≡ true → (where_due now r && not locked) ≡ true)
    → is_running r.status ≡ true
    → b ≡ false
unfolding where_due
not_due now locked r b h u = ground arith

-- A pass over HTTP leaves every running job as it is, also one whose lock has expired, whatever fails
-- on the way. The ids are distinct beforehand.
pub run_scheduler-running :
    (cfg : Config) (e : Env) (s : Store) (id : Text) (r : Job)
    → Distinct s.jobs
    → find_row (has_id id) s.jobs ≡ some r
    → is_running r.status ≡ true
    → find_row (has_id id) (run_scheduler (pg_driver cfg) e s).1.jobs ≡ some r
unfolding run_scheduler promote_scheduled_jobs update_picked update_jobs limit_or
run_scheduler-running cfg e s id r d f u = elim (Option-cases (e.fault 0)) [
  | inl runs ↦ rw runs (
      find_row-kept _ release_row release_row-id s.jobs id r
        (All-map _ _ (λ x h w. not_due e.now (e.is_locked x.id) x _ h w) s.jobs
          (in_ids-pick due_before _ 1000 s.jobs d))
        f u)
  | inr (m, fails) ↦ rw fails f
]
