-- ===== src/Postgres/Overlap.antt =====
-- Two claims at the same time on PostgreSQL: the second sees the rows as they were before the first,
-- and skips the row that the first holds.
use stevy.Base.{
  ℕ, ◌+◌, ◌≡◌, refl, sym, ap, ◌∙◌, inl, inr, Bool, true, false, ◌||◌, not, Option, none, some, List,
  [], ◌∷◌, filter, subst, arith, Bool-cases, Option-cases, ◌==◌,
}
use stevy.Base.Sort.{sort}
use stevy.Base.Text.{Text, text_eq}
use stevy.Jobs.{has_id, claim_row, where_claimable}
use stevy.Jobs.Keys.{Distinct}
use stevy.Jobs.Select.{claims_before}
use stevy.Postgres.{Config, scan_job_row, claim_job, lock_micros}
use stevy.Postgres.Claims.{claim_job-Takes, scan_job_row-id}
use stevy.Statements.{is_paused, touch_worker, claim_jobs}
use stevy.Statements.Claim.{is_claimable, claim_jobs-taken_first}
use stevy.Statements.Claim.Sequence.{filter-update_rows, claimed-Distinct}
use stevy.Store.{Job, JobRow, Store, Env, Result, ok, err, failed}

-- The environment in which one more row is locked.
abbrev pub holding : Text → Env → Env
holding id e = record e { is_locked = λ i. (i == id) || e.is_locked i }

never_claimable :
    (is_locked : Text → Bool) (now now' lock : ℕ) (worker queue : Text) (x : Job)
    → is_claimable is_locked now queue (claim_row now' lock worker x) ≡ false
unfolding claim_row where_claimable
never_claimable is_locked now now' lock worker queue x = ground arith

filter-holding :
    (id : Text) (e : Env) (queue : Text) (rows : List Job)
    → filter (is_claimable (holding id e).is_locked e.now queue) rows
      ≡ filter (λ x. not (has_id id x)) (filter (is_claimable e.is_locked e.now queue) rows)
unfolding has_id
filter-holding id e queue [] = refl
filter-holding id e queue (x ∷ rows) = ground (arith, filter-holding id e queue rows)

module _ (cfg : Config) (e : Env) (queue worker : Text) where
  abbrev choices : (Text → Bool) → List Job → List Job
  choices is_locked rows = sort claims_before (filter (is_claimable is_locked e.now queue) rows)

  abbrev answer : List Job → Result (Option JobRow)
  answer [] = ok none
  answer (r ∷ rest) = ok (some (scan_job_row (claim_row e.now (e.now + lock_micros cfg) worker r)))

  claim_job-answer :
      (is_locked : Text → Bool) (s : Store)
      → Distinct s.jobs
      → is_paused queue s.queues ≡ false
      → e.fault 0 ≡ none
      → e.fault 1 ≡ none
      → (xs : List Job) → choices is_locked s.jobs ≡ xs
      → (claim_job cfg (record e { is_locked = is_locked }) queue worker s).0 ≡ answer xs
  unfolding claim_job touch_worker
  claim_job-answer is_locked s d u f f' [] same =
      let t = (touch_worker e.now worker s).1 in
      rw
        (
          f,
          f',
          claim_jobs-taken_first is_locked e.now (e.now + lock_micros cfg) worker queue t d u []
              same,
        )
        refl
  claim_job-answer is_locked s d u f f' (r ∷ rest) same =
      let t = (touch_worker e.now worker s).1 in
      rw
        (
          f,
          f',
          claim_jobs-taken_first is_locked e.now (e.now + lock_micros cfg) worker queue t d u
              (r ∷ rest) same,
        )
        refl

  claim_job-paused :
      (is_locked : Text → Bool) (s : Store)
      → is_paused queue s.queues ≡ true
      → e.fault 0 ≡ none
      → e.fault 1 ≡ none
      → (claim_job cfg (record e { is_locked = is_locked }) queue worker s).0 ≡ ok none
  unfolding claim_job touch_worker claim_jobs
  claim_job-paused is_locked s p f f' = rw (f, f', p) refl

  first_fails :
      (is_locked : Text → Bool) (s : Store) (m : Text)
      → e.fault 0 ≡ some m
      → (claim_job cfg (record e { is_locked = is_locked }) queue worker s).0 ≡ err (failed m)
  unfolding claim_job
  first_fails is_locked s m f = rw f refl

  second_fails :
      (is_locked : Text → Bool) (s : Store) (m : Text)
      → e.fault 0 ≡ none
      → e.fault 1 ≡ some m
      → (claim_job cfg (record e { is_locked = is_locked }) queue worker s).0 ≡ err (failed m)
  unfolding claim_job touch_worker
  second_fails is_locked s m f f' = rw (f, f') refl

  -- Claims that have the same choices on queues that are paused alike answer the same.
  same_answer :
      (locked locked' : Text → Bool) (s t : Store)
      → Distinct s.jobs
      → Distinct t.jobs
      → t.queues ≡ s.queues
      → choices locked s.jobs ≡ choices locked' t.jobs
      → (claim_job cfg (record e { is_locked = locked }) queue worker s).0
        ≡ (claim_job cfg (record e { is_locked = locked' }) queue worker t).0
  same_answer locked locked' s t d d' q same = elim (Option-cases (e.fault 0)) [
    | inr (m, f) ↦ first_fails locked s m f ∙ sym (first_fails locked' t m f)
    | inl f ↦ elim (Option-cases (e.fault 1)) [
      | inr (m, f') ↦ second_fails locked s m f f' ∙ sym (second_fails locked' t m f f')
      | inl f' ↦ elim (Bool-cases (is_paused queue s.queues)) [
        | inl p ↦
            claim_job-paused locked s p f f'
            ∙ sym (claim_job-paused locked' t (ap (is_paused queue) q ∙ p) f f')
        | inr p ↦
            claim_job-answer locked s d p f f' _ same
            ∙ sym (claim_job-answer locked' t d' (ap (is_paused queue) q ∙ p) f f' _ refl)
      ]
    ]
  ]

claim_job-queues :
    (cfg : Config) (e : Env) (queue worker : Text) (s : Store)
    → (claim_job cfg e queue worker s).1.queues ≡ s.queues
unfolding claim_job touch_worker claim_jobs
claim_job-queues cfg e queue worker s = elim (Option-cases (e.fault 0)) [
  | inr (m, f) ↦ rw f refl
  | inl f ↦ elim (Option-cases (e.fault 1)) [
    | inr (m, f') ↦ rw (f, f') refl
    | inl f' ↦ elim (Bool-cases (is_paused queue s.queues)) [
      | inl p ↦ rw (f, f', p) refl
      | inr p ↦ rw (f, f', p) refl
    ]
  ]
]

-- A claim that overlaps one which took a row, so that it sees the rows from before and skips the row
-- that the other holds, answers as it would after the other, errors and none included: it takes the
-- job that comes first of those that the other leaves. The ids are distinct beforehand.
pub claim_job-overlap :
    (cfg : Config) (e e' : Env) (queue queue' worker worker' : Text) (s t : Store) (row : JobRow)
    → Distinct s.jobs
    → claim_job cfg e queue worker s ≡ (ok (some row), t)
    → (claim_job cfg (holding row.id e') queue' worker' s).0 ≡ (claim_job cfg e' queue' worker' t).0
claim_job-overlap cfg e e' queue queue' worker worker' s t row d h =
    let (r, takes, shown) = claim_job-Takes cfg e queue worker s t d row h in
    let lock = e.now + lock_micros cfg in
    let change = claim_row e.now lock worker in
    let test = is_claimable e'.is_locked e'.now queue' in
    let id : row.id ≡ r.id =
      ap (λ (x : JobRow). x.id) shown ∙ scan_job_row-id e.now lock worker r in
    let distinct : Distinct t.jobs =
      subst Distinct (sym takes.jobs)
        (claimed-Distinct e.is_locked e.now lock worker queue s.jobs r d) in
    let left : filter test t.jobs ≡ filter (λ x. not (has_id r.id x)) (filter test s.jobs) =
      ap (filter test) takes.jobs
      ∙ filter-update_rows test (has_id r.id) change
          (never_claimable e'.is_locked e'.now e.now lock worker queue') s.jobs in
    let held = filter-holding row.id e' queue' s.jobs in
    let same =
      held ∙ (ap (λ i. filter (λ x. not (has_id i x)) (filter test s.jobs)) id ∙ sym left) in
    same_answer cfg e' queue' worker' (holding row.id e').is_locked e'.is_locked s t d distinct
      (sym (ap (λ o. o.1.queues) h) ∙ claim_job-queues cfg e queue worker s)
      (ap (sort claims_before) same)
