-- ===== src/Statements/Keeps.antt =====
-- Calls that move the table `jobs` by steps of its rows and keep its ids distinct.
use stevy.Base.{
  ℕ, ◌≡◌, refl, sym, ◌∙◌, inl, inr, Bool, true, ◌&&◌, not, Option, none, some, List, All, All-map,
  All-All, arith, subst, Bool-cases, Option-cases,
}
use stevy.Base.Text.{Text}
use stevy.Store.{Job, Store, Error, Result, ok, err, M, continue, ◌>>=◌, exec}
use stevy.Jobs.{update_rows, find_row, has_id, claim_row, where_claimable}
use stevy.Jobs.Keys.{
  Distinct, in_ids-pick, update_rows-Moves, update_rows-Distinct, Distinct-append,
}
use stevy.Jobs.Moves.{IsValid, RowStep, Moves, Moves-refl, Moves-append}
use stevy.Jobs.Select.{claims_before, pick, ids, in_ids}
use stevy.Jobs.Steps.{claim_row-RowStep}
use stevy.Statements.{
  update_jobs, update_returning, update_checked, insert_job, claim_jobs, is_paused, update_picked,
}

abbrev pub KeepsFrom : List Job → List Job → Type 0
KeepsFrom rows rows' = Moves rows rows' × Distinct rows'

abbrev pub Keeps : {A : Type 0} → M A → Type 0
Keeps m = (s : Store) → Distinct s.jobs → KeepsFrom s.jobs (m s).1.jobs

abbrev pub SameJobs : {A : Type 0} → M A → Type 0
SameJobs m = (s : Store) → (m s).1.jobs ≡ s.jobs

pub KeepsFrom-refl : (rows : List Job) → Distinct rows → KeepsFrom rows rows
KeepsFrom-refl rows d = (Moves-refl rows, d)

pub Keeps-of_same : {A : Type 0} (m : M A) → SameJobs m → Keeps m
Keeps-of_same m same s d = subst (KeepsFrom s.jobs) (sym (same s)) (KeepsFrom-refl s.jobs d)

continue_cases {ℓ} :
    {A B : Type 0} (P : Result B × Store → Type ℓ) (f : A → M B) (o : Result A × Store)
    → ((a : A) → P (f a o.1))
    → ((e : Error) → P (err e, o.1))
    → P (continue f o)
continue_cases P f (ok a, s) good bad = good a
continue_cases P f (err e, s) good bad = bad e

pub bind-SameJobs :
    {A B : Type 0} (m : M A) (f : A → M B)
    → SameJobs m
    → ((a : A) → SameJobs (f a))
    → SameJobs (m >>= f)
bind-SameJobs m f hm hf s =
    continue_cases (λ o. o.1.jobs ≡ s.jobs) f (m s) (λ a. hf a (m s).1 ∙ hm s) (λ e. hm s)

-- A call that leaves the jobs alone, then one that keeps them.
pub same_bind-Keeps :
    {A B : Type 0} (m : M A) (f : A → M B) → SameJobs m → ((a : A) → Keeps (f a)) → Keeps (m >>= f)
same_bind-Keeps m f hm hf s d =
    continue_cases (λ o. KeepsFrom s.jobs o.1.jobs) f (m s)
      (λ a.
        subst (λ rows. KeepsFrom rows (f a (m s).1).1.jobs) (hm s)
          (hf a (m s).1 (subst Distinct (sym (hm s)) d)))
      (λ e. Keeps-of_same m hm s d)

-- A call that keeps the jobs, then one that leaves them alone.
pub bind_same-Keeps :
    {A B : Type 0} (m : M A) (f : A → M B) → Keeps m → ((a : A) → SameJobs (f a)) → Keeps (m >>= f)
bind_same-Keeps m f hm hf s d =
    continue_cases (λ o. KeepsFrom s.jobs o.1.jobs) f (m s)
      (λ a. subst (KeepsFrom s.jobs) (sym (hf a (m s).1)) (hm s d)) (λ e. hm s d)

pub exec-Keeps : {A : Type 0} (fault : Option Text) (m : M A) → Keeps m → Keeps (exec fault m)
exec-Keeps none m h s d = h s d
exec-Keeps (some t) m h s d = KeepsFrom-refl s.jobs d

pub exec-SameJobs :
    {A : Type 0} (fault : Option Text) (m : M A) → SameJobs m → SameJobs (exec fault m)
exec-SameJobs none m h s = h s
exec-SameJobs (some t) m h s = refl

-- The statements.
module _ (test : Job → Bool) (change : Job → Job) (keeps : (r : Job) → (change r).id ≡ r.id) where
  update_rows-KeepsFrom :
      (rows : List Job)
      → Distinct rows
      → All (λ r. test r ≡ true → RowStep r (change r)) rows
      → KeepsFrom rows (update_rows test change rows)
  update_rows-KeepsFrom rows d h =
      (update_rows-Moves test change rows h, update_rows-Distinct test change keeps rows d)

  module _ (steps : (r : Job) → test r ≡ true → RowStep r (change r)) where
    pub update_jobs-Keeps : Keeps (update_jobs test change)
    unfolding update_jobs
    update_jobs-Keeps s d = update_rows-KeepsFrom s.jobs d (All-All steps s.jobs)

    pub update_returning-Keeps : Keeps (update_returning test change)
    unfolding update_returning
    update_returning-Keeps s d = update_rows-KeepsFrom s.jobs d (All-All steps s.jobs)

pub insert_job-Keeps : (r : Job) → IsValid r → Keeps (insert_job r)
unfolding insert_job
insert_job-Keeps r v s d = elim (Option-cases (find_row (has_id r.id) s.jobs)) [
  | inl fresh ↦ rw (fresh, insert_job) (Moves-append s.jobs r v, Distinct-append s.jobs r d fresh)
  | inr (old, e) ↦ rw (e, insert_job) (KeepsFrom-refl s.jobs d)
]

pub update_checked-Keeps :
    (check : Job → Option Error) (test : Job → Bool) (change : Job → Job)
    → ((r : Job) → (change r).id ≡ r.id)
    → ((x : Job) → check x ≡ none → (r : Job) → test r ≡ true → RowStep r (change r))
    → Keeps (update_checked check test change)
unfolding update_checked
update_checked-Keeps check test change keeps steps s d =
    elim (Option-cases (find_row test s.jobs)) [
      | inl none-Found ↦ rw (none-Found, update_checked) (KeepsFrom-refl s.jobs d)
      | inr (x, found) ↦ elim (Option-cases (check x)) [
        | inl good ↦
            rw (found, update_checked)
              (rw (good, update_checked)
                (update_returning-Keeps test change keeps (steps x good) s d))
        | inr (e, bad) ↦
            rw (found, update_checked) (rw (bad, update_checked) (KeepsFrom-refl s.jobs d))
      ]
    ]

-- An update of the rows that a query picks.
module _ (before : Job → Job → Bool) (test : Job → Bool) (limit : ℕ) (change : Job → Job) where
  module _ (keeps : (r : Job) → (change r).id ≡ r.id)
      (steps : (r : Job) → test r ≡ true → RowStep r (change r)) where
    picked-KeepsFrom :
        (rows : List Job)
        → Distinct rows
        → KeepsFrom rows (update_rows (in_ids (ids (pick before test limit rows))) change rows)
    picked-KeepsFrom rows d =
        update_rows-KeepsFrom _ change keeps rows d
          (All-map _ _ (λ r h e. steps r (h e)) rows (in_ids-pick before test limit rows d))

    pub update_picked-Keeps : Keeps (update_picked before test limit change)
    unfolding update_picked
    update_picked-Keeps s d = picked-KeepsFrom s.jobs d

pub claim_row-id :
    (now lock : ℕ) (worker : Text) (r : Job) → (claim_row now lock worker r).id ≡ r.id
unfolding claim_row
claim_row-id now lock worker r = refl

claim_row_steps :
    (is_locked : Text → Bool) (now lock : ℕ) (worker queue : Text) (r : Job)
    → (where_claimable queue now r && not (is_locked r.id)) ≡ true
    → RowStep r (claim_row now lock worker r)
unfolding where_claimable
claim_row_steps is_locked now lock worker queue r h =
    claim_row-RowStep now lock worker r (ground arith)

pub claim_jobs-Keeps :
    (is_locked : Text → Bool) (now lock : ℕ) (worker queue : Text)
    → Keeps (claim_jobs is_locked now lock worker queue)
unfolding claim_jobs
claim_jobs-Keeps is_locked now lock worker queue s d =
    elim (Bool-cases (is_paused queue s.queues)) [
      | inl paused ↦ rw paused (KeepsFrom-refl s.jobs d)
      | inr running ↦ rw running (
          picked-KeepsFrom claims_before _ 1 (claim_row now lock worker)
            (claim_row-id now lock worker) (claim_row_steps is_locked now lock worker queue) s.jobs
            d)
    ]
