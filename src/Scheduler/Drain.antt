-- ===== src/Scheduler/Drain.antt =====
-- The ticks of the scheduler against a backlog, on PostgreSQL: of jobs that run past their locks, and
-- of jobs whose time has come.
use stevy.Base.{
  ℕ, ◌-◌, ◌*◌, ◌≤◌, ◌<◌, ◌≡◌, inl, inr, Bool, true, false, ◌&&◌, not, none, List, [], ◌∷◌, All,
  count, length, pos, arith, Option-cases,
}
use stevy.Base.Sort.Order.{IsOrder}
use stevy.Base.Text.{Text}
use stevy.Driver.{promote_scheduled, fail_expired}
use stevy.Jobs.{where_expired, where_due, expire_row, release_row, fail_row}
use stevy.Jobs.Keys.{Distinct}
use stevy.Jobs.Select.{lock_before, due_before, limit_or}
use stevy.Postgres.{Config, fail_expired_jobs, promote_scheduled_jobs}
use stevy.Postgres.Contract.{pg_driver, pg_driver-KeepsFrom}
use stevy.Scheduler.{tick, ticks}
use stevy.Scheduler.Backlog.{count-update_picked, count-update_rows-le}
use stevy.Statements.{update_picked, update_jobs}
use stevy.Store.{Job, Store, Env}

lock_before-IsOrder : IsOrder lock_before
unfolding lock_before
lock_before-IsOrder = record { asym = λ a b h. ground arith; not_trans = λ a b c h k. ground arith }

-- A call that meets no failure and no lock of another transaction, at or after a time.
abbrev pub IsCalm : ℕ → Env → Type 0
IsCalm t e = (e.fault 0 ≡ none) × ((id : Text) → e.is_locked id ≡ false) × (t ≤ e.now)

expired_later :
    (t : ℕ) (e : Env) (r : Job)
    → IsCalm t e
    → where_expired t r ≡ true
    → (where_expired e.now r && not (e.is_locked r.id)) ≡ true
unfolding where_expired
expired_later t e r (runs, free, later) h = let f = free r.id in ground arith

earlier_lock :
    (t now : ℕ) (locked : Bool) (x y : Job)
    → (where_expired now x && not locked) ≡ true
    → lock_before y x ≡ false
    → where_expired t y ≡ true
    → where_expired t x ≡ true
unfolding where_expired lock_before
earlier_lock t now locked x y h f g = ground arith

failed_not_expired :
    (t now : ℕ) (entry : Text) (r : Job) → where_expired t (expire_row now entry r) ≡ false
unfolding expire_row fail_row where_expired
failed_not_expired t now entry r = ground arith

released_not_expired : (t : ℕ) (r : Job) → where_expired t (release_row r) ≡ false
unfolding release_row where_expired
released_not_expired t r = ground arith

-- How many jobs run past a lock that ended before the time.
abbrev pub overdue : ℕ → Store → ℕ
overdue t s = count (where_expired t) s.jobs

fail_expired_jobs-overdue :
    (cfg : Config) (t : ℕ) (e : Env) (s : Store)
    → IsCalm t e
    → Distinct s.jobs
    → overdue t (fail_expired_jobs cfg e (pos 1000) s).1 ≤ overdue t s - 1000
unfolding fail_expired_jobs update_picked update_jobs limit_or
fail_expired_jobs-overdue cfg t e s calm d =
    let test = λ (r : Job). where_expired e.now r && not (e.is_locked r.id) in
    rw calm.0 (
      count-update_picked lock_before lock_before-IsOrder (where_expired t) test
        (λ x y h f g. earlier_lock t e.now (e.is_locked x.id) x y h f g)
        (λ r h. expired_later t e r calm h) _ (failed_not_expired t e.now _) 1000 s.jobs d)

promote_scheduled_jobs-overdue :
    (cfg : Config) (t : ℕ) (e : Env) (s : Store)
    → overdue t (promote_scheduled_jobs cfg e (pos 1000) s).1 ≤ overdue t s
unfolding promote_scheduled_jobs update_picked update_jobs limit_or
promote_scheduled_jobs-overdue cfg t e s = elim (Option-cases (e.fault 0)) [
  | inl runs ↦
      rw runs (count-update_rows-le (where_expired t) _ release_row (released_not_expired t) s.jobs)
  | inr (m, fails) ↦ rw fails (omega arith)
]

-- Each tick of the scheduler fails 1000 of the jobs that run past a lock that ended before a time, or
-- all of them if there are fewer: if the clock of the database shows that time or later and its calls
-- of `FailExpiredJobs` meet no failure and no locked row, the ticks leave no more of these jobs than
-- there were less 1000 for each tick. A call of `PromoteScheduledJobs` may fail. The ids are distinct
-- beforehand.
pub ticks-overdue :
    (cfg : Config) (t : ℕ) (es : List (Env × Env)) (s : Store)
    → Distinct s.jobs
    → All (λ calls. IsCalm t calls.1) es
    → overdue t (ticks (pg_driver cfg) es s) ≤ overdue t s - 1000 * length es
unfolding ticks tick
ticks-overdue cfg t [] s d calm = omega arith
ticks-overdue cfg t ((e, e') ∷ es) s d calm =
    let promoted = (promote_scheduled_jobs cfg e (pos 1000) s).1 in
    let failed = (fail_expired_jobs cfg e' (pos 1000) promoted).1 in
    let d' = (pg_driver-KeepsFrom cfg e (promote_scheduled (pos 1000)) s d).1 in
    let d'' = (pg_driver-KeepsFrom cfg e' (fail_expired (pos 1000)) promoted d').1 in
    let kept = promote_scheduled_jobs-overdue cfg t e s in
    let fewer = fail_expired_jobs-overdue cfg t e' promoted calm.0 d' in
    let rest = ticks-overdue cfg t es failed d'' calm.1 in omega arith

due_before-IsOrder : IsOrder due_before
unfolding due_before
due_before-IsOrder = record { asym = λ a b h. ground arith; not_trans = λ a b c h k. ground arith }

due_later :
    (t : ℕ) (e : Env) (r : Job)
    → IsCalm t e
    → where_due t r ≡ true
    → (where_due e.now r && not (e.is_locked r.id)) ≡ true
unfolding where_due
due_later t e r (runs, free, later) h = let f = free r.id in ground arith

earlier_time :
    (t now : ℕ) (locked : Bool) (x y : Job)
    → (where_due now x && not locked) ≡ true
    → due_before y x ≡ false
    → where_due t y ≡ true
    → where_due t x ≡ true
unfolding where_due due_before
earlier_time t now locked x y h f g = ground arith

released_not_due : (t : ℕ) (r : Job) → where_due t (release_row r) ≡ false
unfolding release_row where_due
released_not_due t r = ground arith

failed_not_due :
    (t now : ℕ) (entry : Text) → t < now → (r : Job) → where_due t (expire_row now entry r) ≡ false
unfolding expire_row fail_row where_due
failed_not_due t now entry later r = ground arith

-- How many jobs wait whose time came by the given time.
abbrev pub due : ℕ → Store → ℕ
due t s = count (where_due t) s.jobs

promote_scheduled_jobs-due :
    (cfg : Config) (t : ℕ) (e : Env) (s : Store)
    → IsCalm t e
    → Distinct s.jobs
    → due t (promote_scheduled_jobs cfg e (pos 1000) s).1 ≤ due t s - 1000
unfolding promote_scheduled_jobs update_picked update_jobs limit_or
promote_scheduled_jobs-due cfg t e s calm d =
    let test = λ (r : Job). where_due e.now r && not (e.is_locked r.id) in
    rw calm.0 (
      count-update_picked due_before due_before-IsOrder (where_due t) test
        (λ x y h f g. earlier_time t e.now (e.is_locked x.id) x y h f g)
        (λ r h. due_later t e r calm h) release_row (released_not_due t) 1000 s.jobs d)

fail_expired_jobs-due :
    (cfg : Config) (t : ℕ) (e : Env) (s : Store)
    → t < e.now
    → due t (fail_expired_jobs cfg e (pos 1000) s).1 ≤ due t s
unfolding fail_expired_jobs update_picked update_jobs limit_or
fail_expired_jobs-due cfg t e s later = elim (Option-cases (e.fault 0)) [
  | inl runs ↦
      rw runs (count-update_rows-le (where_due t) _ _ (failed_not_due t e.now _ later) s.jobs)
  | inr (m, fails) ↦ rw fails (omega arith)
]

-- Each tick of the scheduler releases 1000 of the scheduled and retryable jobs whose time came by a
-- given time, or all of them if there are fewer: if its calls of `PromoteScheduledJobs` come at that
-- time or later and meet no failure and no locked row, and those of `FailExpiredJobs` come later, the
-- ticks leave no more of these jobs than there were less 1000 for each tick. A call of `FailExpiredJobs`
-- may fail. The ids are distinct beforehand.
pub ticks-due :
    (cfg : Config) (t : ℕ) (es : List (Env × Env)) (s : Store)
    → Distinct s.jobs
    → All (λ calls. IsCalm t calls.0 × (t < calls.1.now)) es
    → due t (ticks (pg_driver cfg) es s) ≤ due t s - 1000 * length es
unfolding ticks tick
ticks-due cfg t [] s d calm = omega arith
ticks-due cfg t ((e, e') ∷ es) s d calm =
    let promoted = (promote_scheduled_jobs cfg e (pos 1000) s).1 in
    let failed = (fail_expired_jobs cfg e' (pos 1000) promoted).1 in
    let d' = (pg_driver-KeepsFrom cfg e (promote_scheduled (pos 1000)) s d).1 in
    let d'' = (pg_driver-KeepsFrom cfg e' (fail_expired (pos 1000)) promoted d').1 in
    let fewer = promote_scheduled_jobs-due cfg t e s calm.0.0 d in
    let kept = fail_expired_jobs-due cfg t e' promoted calm.0.1 in
    let rest = ticks-due cfg t es failed d'' calm.1 in omega arith
