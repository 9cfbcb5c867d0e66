-- ===== src/Statements/Claim/Call.antt =====
-- A whole `ClaimJob`: the worker is touched, a job is claimed, and the row is scanned.
use stevy.Base.{ℕ, ◌≡◌, sym, ap, ◌⊎◌, inl, inr, Bool, true, false, Option, none, some, All, arith}
use stevy.Base.Text.{Text}
use stevy.Jobs.{update_rows, has_id, claim_row}
use stevy.Jobs.Keys.{Distinct}
use stevy.Statements.{map_option, is_paused, claim_jobs, touch_worker}
use stevy.Statements.Claim.{IsFirst, is_claimable, Claimed, paused, idle, taken, claim_jobs-Claimed}
use stevy.Store.{Job, Store, Result, ok, err, failed, M, pure, continue, exec, ◌>>=◌, ◌>>◌}

-- The queue runs, the job is the first that can be claimed, and it alone changes.
pub record Takes (is_locked : Text → Bool) (now lock : ℕ) (worker queue : Text) (s s' : Store)
    (r : Job) : Type 0 where
  pub unpaused : is_paused queue s.queues ≡ false
  pub first : IsFirst (is_claimable is_locked now queue) s.jobs r
  pub jobs : s'.jobs ≡ update_rows (has_id r.id) (claim_row now lock worker) s.jobs

module _ {A : Type 0} (scan : Job → A) (is_locked : Text → Bool) (now lock : ℕ)
    (worker queue : Text) where
  abbrev pub claim_call : Option Text → Option Text → M (Option A)
  claim_call f0 f1 = do
    exec f0 (touch_worker now worker)
    row ← exec f1 (claim_jobs is_locked now lock worker queue)
    pure (map_option scan row)

  nothing_taken :
      (s s' : Store) (o : Result (Option Job) × Store) (row : A)
      → o ≡ (ok none, s)
      → ¬ (continue (λ r. pure (map_option scan r)) o ≡ (ok (some row), s'))
  nothing_taken s s' o row e h =
      let h' : ◌≡◌ {A = Result (Option A) × Store} (ok none, s) (ok (some row), s') = rw e at h in
      ground arith

  something_taken :
      (s s' : Store) (o : Result (Option Job) × Store) (row : A) (r : Job)
      → o ≡ (
        ok (some (claim_row now lock worker r)),
        record s { jobs = update_rows (has_id r.id) (claim_row now lock worker) s.jobs },
      )
      → continue (λ r'. pure (map_option scan r')) o ≡ (ok (some row), s')
      → (row ≡ scan (claim_row now lock worker r))
        × (s'.jobs ≡ update_rows (has_id r.id) (claim_row now lock worker) s.jobs)
  something_taken s s' o row r e h =
      let row' = scan (claim_row now lock worker r) in
      let s'' : Store = record s {
        jobs = update_rows (has_id r.id) (claim_row now lock worker) s.jobs;
      } in
      let h' : ◌≡◌ {A = Result (Option A) × Store} (ok (some row'), s'') (ok (some row), s') =
        rw e at h in
      (cc (ap (λ o. o.0) h'), sym (ap (λ o. o.1.jobs) h'))

  refused :
      (m : Text) (s s' : Store) (row : A)
      → ¬ (◌≡◌ {A = Result (Option A) × Store} (err (failed m), s) (ok (some row), s'))
  refused m s s' row h = ground arith

  refused_none :
      (m : Text) (s s' : Store)
      → ¬ (◌≡◌ {A = Result (Option A) × Store} (err (failed m), s) (ok none, s'))
  refused_none m s s' h = ground arith

  idle_jobs :
      (s s' : Store) (o : Result (Option Job) × Store)
      → o ≡ (ok none, s)
      → continue (λ r. pure (map_option scan r)) o ≡ (ok none, s')
      → s'.jobs ≡ s.jobs
  idle_jobs s s' o e h =
      let h' : ◌≡◌ {A = Result (Option A) × Store} (ok none, s) (ok none, s') = rw e at h in
      sym (ap (λ o. o.1.jobs) h')

  taken_not_none :
      (s s' : Store) (o : Result (Option Job) × Store) (r : Job) (t : Store)
      → o ≡ (ok (some r), t)
      → ¬ (continue (λ r'. pure (map_option scan r')) o ≡ (ok none, s'))
  taken_not_none s s' o r t e h =
      let h' : ◌≡◌ {A = Result (Option A) × Store} (ok (some (scan r)), t) (ok none, s') =
        rw e at h in
      ground arith

  outcome_idle :
      (s s' : Store) (o : Result (Option Job) × Store)
      → Claimed is_locked now lock worker queue s o
      → continue (λ r. pure (map_option scan r)) o ≡ (ok none, s')
      → ((is_paused queue s.queues ≡ true)
          ⊎ All (λ x. is_claimable is_locked now queue x ≡ false) s.jobs)
        × (s'.jobs ≡ s.jobs)
  outcome_idle s s' o (paused p e) h = (inl p, idle_jobs s s' o e h)
  outcome_idle s s' o (idle u all e) h = (inr all, idle_jobs s s' o e h)
  outcome_idle s s' o (taken r u f e) h = absurd (taken_not_none s s' o _ _ e h)

  outcome-Takes :
      (s s' : Store) (o : Result (Option Job) × Store) (row : A)
      → Claimed is_locked now lock worker queue s o
      → continue (λ r. pure (map_option scan r)) o ≡ (ok (some row), s')
      → (r : Job) × Takes is_locked now lock worker queue s s' r
        × (row ≡ scan (claim_row now lock worker r))
  outcome-Takes s s' o row (paused p e) h = absurd (nothing_taken s s' o row e h)
  outcome-Takes s s' o row (idle u all e) h = absurd (nothing_taken s s' o row e h)
  outcome-Takes s s' o row (taken r u f e) h =
      let (same, after) = something_taken s s' o row r e h in
      (r, record { unpaused = u; first = f; jobs = after }, same)

  -- A claim that returns a row took the first claimable job of a queue that is not paused.
  pub claim_call-Takes :
      (f0 f1 : Option Text) (s s' : Store) (row : A)
      → Distinct s.jobs
      → claim_call f0 f1 s ≡ (ok (some row), s')
      → (r : Job) × Takes is_locked now lock worker queue s s' r
        × (row ≡ scan (claim_row now lock worker r))
  unfolding touch_worker
  claim_call-Takes (some m) f1 s s' row d h = absurd (refused m s s' row h)
  claim_call-Takes none (some m) s s' row d h = absurd (refused m _ s' row h)
  claim_call-Takes none none s s' row d h =
      let (r, t, same) =
        outcome-Takes (touch_worker now worker s).1 s' _ row
          (claim_jobs-Claimed is_locked now lock worker queue (touch_worker now worker s).1 d) h in
      (r, record { unpaused = t.unpaused; first = t.first; jobs = t.jobs }, same)

  -- A claim that returns no row and no error found the queue paused or nothing to claim, and left
  -- the jobs as they were.
  pub claim_call-idle :
      (f0 f1 : Option Text) (s s' : Store)
      → Distinct s.jobs
      → claim_call f0 f1 s ≡ (ok none, s')
      → ((is_paused queue s.queues ≡ true)
          ⊎ All (λ x. is_claimable is_locked now queue x ≡ false) s.jobs)
        × (s'.jobs ≡ s.jobs)
  unfolding touch_worker
  claim_call-idle (some m) f1 s s' d h = absurd (refused_none m s s' h)
  claim_call-idle none (some m) s s' d h = absurd (refused_none m _ s' h)
  claim_call-idle none none s s' d h =
      outcome_idle (touch_worker now worker s).1 s' _
        (claim_jobs-Claimed is_locked now lock worker queue (touch_worker now worker s).1 d) h
