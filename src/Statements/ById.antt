-- ===== src/Statements/ById.antt =====
-- A call that updates the job of an id: what it comes to where it reaches the job, and where not.
use stevy.Base.{
  ◌≡◌, refl, ◌⊎◌, inl, inr, ◌≢◌, Bool, false, none, some, List, arith, Bool-cases, Option-cases,
}
use stevy.Base.Text.{Text}
use stevy.Jobs.{find_row, has_id, update_rows}
use stevy.Jobs.ById.{
  Target, NoTarget, where_id, find_row-where, count-where, find_row-updated, find_row-other,
  update_missed,
}
use stevy.Jobs.Keys.{Distinct}
use stevy.Statements.{update_jobs, update_returning, require_rows, require_row}
use stevy.Store.{Status, Job, Store, wrong_state, Result, ok, err, M, ◌>>=◌}

-- The call succeeds, the job of the id is now the given row, and all else is as it was.
pub record Hits (id : Text) (r' : Job) (s : Store) (o : Result (Unit {0}) × Store) : Type 0 where
  pub succeeded : o.0 ≡ ok tt
  pub becomes : find_row (has_id id) o.1.jobs ≡ some r'
  pub others : (j : Text) → j ≢ id → find_row (has_id j) o.1.jobs ≡ find_row (has_id j) s.jobs
  pub queues : o.1.queues ≡ s.queues
  pub workers : o.1.workers ≡ s.workers

-- No job has the id, or the one that has it has a status that does not pass.
abbrev pub Missed : Text → (Status → Bool) → List Job → Type 0
Missed id passes rows =
    (find_row (has_id id) rows ≡ none)
    ⊎ ((r : Job) × (find_row (has_id id) rows ≡ some r) × (passes r.status ≡ false))

-- What such a call comes to: it changes the job whose status passes, or it is `ErrWrongState` and
-- changes nothing.
abbrev pub ChangesById :
    Text → (Status → Bool) → (Job → Job) → Store → Result (Unit {0}) × Store → Type 0
ChangesById id passes change s o =
    ((r : Job) × Target id passes s.jobs r × Hits id (change r) s o)
    ⊎ (Missed id passes s.jobs × (o ≡ (err wrong_state, s)))

-- Either the job of the id is there and passes, or the call misses.
Target-or_miss :
    (id : Text) (passes : Status → Bool) (rows : List Job)
    → ((r : Job) × Target id passes rows r) ⊎ (NoTarget id passes rows × Missed id passes rows)
Target-or_miss id passes rows = elim (Option-cases (find_row (has_id id) rows)) [
  | inl e ↦ inr (λ r f. absurd (cc), inl e)
  | inr (r, e) ↦ elim (Bool-cases (passes r.status)) [
    | inl p ↦ inl (r, (e, p))
    | inr p ↦ inr (λ x f. cc, inr (r, e, p))
  ]
]

module _ (id : Text) (passes : Status → Bool) (change : Job → Job)
    (keeps : (r : Job) → (change r).id ≡ r.id) (s : Store) where
  updated : Store
  updated = record s { jobs = update_rows (where_id id passes) change s.jobs }

  abbrev count_call : M (Unit {0})
  count_call = do n ← update_jobs (where_id id passes) change; require_rows n

  abbrev row_call : M (Unit {0})
  row_call = do r ← update_returning (where_id id passes) change; require_row r

  Hits-of :
      (o : Result (Unit {0}) × Store) (r : Job)
      → Target id passes s.jobs r
      → o ≡ (ok tt, updated)
      → Hits id (change r) s o
  unfolding updated
  Hits-of o r h e = rw e (record {
    succeeded = refl;
    becomes = find_row-updated id passes change keeps s.jobs r h;
    others = find_row-other id passes change keeps s.jobs;
    queues = refl;
    workers = refl;
  })

  count_call-hit : (r : Job) → Target id passes s.jobs r → count_call s ≡ (ok tt, updated)
  unfolding update_jobs updated
  count_call-hit r h = ground (arith, count-where id passes s.jobs r h)

  count_call-miss :
      Distinct s.jobs → NoTarget id passes s.jobs → count_call s ≡ (err wrong_state, s)
  unfolding update_jobs
  count_call-miss d h =
      let (same, _, zero_rows) = update_missed id passes change keeps s.jobs d h in
      rw (zero_rows, same)

  row_call-hit : (r : Job) → Target id passes s.jobs r → row_call s ≡ (ok tt, updated)
  unfolding update_returning updated
  row_call-hit r h = rw (find_row-where id passes s.jobs r h)

  row_call-miss : Distinct s.jobs → NoTarget id passes s.jobs → row_call s ≡ (err wrong_state, s)
  unfolding update_returning
  row_call-miss d h =
      let (same, no_row, _) = update_missed id passes change keeps s.jobs d h in rw (no_row, same)

  changes_of :
      (o : Result (Unit {0}) × Store)
      → ((r : Job) → Target id passes s.jobs r → o ≡ (ok tt, updated))
      → (NoTarget id passes s.jobs → o ≡ (err wrong_state, s))
      → ChangesById id passes change s o
  changes_of o hit miss = elim (Target-or_miss id passes s.jobs) [
    | inl (r, t) ↦ inl (r, t, Hits-of o r t (hit r t))
    | inr (n, m) ↦ inr (m, miss n)
  ]

  pub count_call-ChangesById : Distinct s.jobs → ChangesById id passes change s (count_call s)
  count_call-ChangesById d = changes_of _ count_call-hit (count_call-miss d)

  pub row_call-ChangesById : Distinct s.jobs → ChangesById id passes change s (row_call s)
  row_call-ChangesById d = changes_of _ row_call-hit (row_call-miss d)
