-- ===== src/Postgres/Attempts.antt =====
-- Two claims that return one job, on PostgreSQL, with any calls in between.
use stevy.Base.{
  ℕ, ◌+◌, ◌≤◌, ◌<◌, ◌≡◌, refl, sym, ◌∙◌, ap, subst, inl, inr, Bool, true, some, List, [], ◌∷◌, All,
  arith, Bool-cases,
}
use stevy.Base.Text.{Text}
use stevy.Driver.{Driver, Call, claim, run}
use stevy.Driver.History.{IsSound, Found, run-IsSound, run-Became}
use stevy.Jobs.{find_row, update_rows, has_id, claim_row, where_claimable}
use stevy.Jobs.Moves.{IsValid, is_open}
use stevy.Postgres.{Config, scan_job_row, claim_job, lock_micros}
use stevy.Postgres.Claims.{claim_job-Takes}
use stevy.Postgres.Contract.{pg_driver, pg_driver-IsDriver}
use stevy.Statements.Claim.{is_claimable}
use stevy.Store.{Job, JobRow, Store, Env, ok}

Found-All :
    (P : Job → Type 0) (rows : List Job) (id : Text) (r : Job) → All P rows → Found rows id r → P r
unfolding find_row
Found-All P [] id r h f = absurd (ground arith)
Found-All P (x ∷ rows) id r h f = elim (Bool-cases (has_id id x)) [
  | inl e ↦ let same : x ≡ r = ground arith in subst P same h.0
  | inr e ↦ Found-All P rows id r h.1 (ground arith)
]

Found-update_rows :
    (change : Job → Job) (id : Text)
    → ((x : Job) → has_id id (change x) ≡ has_id id x)
    → (rows : List Job) (r : Job) → Found rows id r
    → Found (update_rows (has_id id) change rows) id (change r)
unfolding find_row update_rows
Found-update_rows change id keeps [] r f = absurd (ground arith)
Found-update_rows change id keeps (x ∷ rows) r f =
    ground (arith, keeps x, Found-update_rows change id keeps rows r)

claim_row-has_id :
    (now lock : ℕ) (worker id : Text) (x : Job)
    → has_id id (claim_row now lock worker x) ≡ has_id id x
unfolding claim_row has_id
claim_row-has_id now lock worker id x = refl

-- What a claim shows of the job that it took.
record IsShown (now lock : ℕ) (worker : Text) (r : Job) (row : JobRow) : Type 0 where
  same_id : row.id ≡ r.id
  attempt : row.attempt ≡ r.attempt + 1
  limit : row.max_attempts ≡ r.max_attempts
  counted : (claim_row now lock worker r).attempt ≡ r.attempt + 1
  kept : (claim_row now lock worker r).max_attempts ≡ r.max_attempts

shown :
    (now lock : ℕ) (worker : Text) (r : Job) (row : JobRow)
    → row ≡ scan_job_row (claim_row now lock worker r)
    → IsShown now lock worker r row
unfolding claim_row scan_job_row
shown now lock worker r row e = record {
  same_id = ap (λ (x : JobRow). x.id) e;
  attempt = ap (λ (x : JobRow). x.attempt) e;
  limit = ap (λ (x : JobRow). x.max_attempts) e;
  counted = refl;
  kept = refl;
}

claimable_open :
    (is_locked : Text → Bool) (now : ℕ) (queue : Text) (r : Job)
    → is_claimable is_locked now queue r ≡ true
    → is_open r.status ≡ true
unfolding where_claimable
claimable_open is_locked now queue r h = ground arith

Found-same : (rows : List Job) (id : Text) (x y : Job) → Found rows id x → Found rows id y → x ≡ y
Found-same rows id x y f g = cc

module _ (cfg : Config) where
  abbrev driver : Driver
  driver = pg_driver cfg

  -- A job that was claimed, after any calls.
  record IsLater (row : JobRow) (x : Job) : Type 0 where
    attempts : row.attempt ≤ x.attempt
    limit : x.max_attempts ≡ row.max_attempts

  claimed-IsSound :
      (e : Env) (queue worker : Text) (cs : List (Env × Call)) (s t : Store) (row : JobRow)
      → IsSound s
      → claim_job cfg e queue worker s ≡ (ok (some row), t)
      → IsSound (run driver cs t)
  claimed-IsSound e queue worker cs s t row sound h =
      let contract = pg_driver-IsDriver cfg in
      run-IsSound driver contract cs t (
        subst IsSound (ap (λ o. o.1) h)
          (run-IsSound driver contract ((e, claim queue worker) ∷ []) s sound))

  claimed-IsLater :
      (e : Env) (queue worker : Text) (cs : List (Env × Call)) (s t : Store) (row : JobRow)
      → IsSound s
      → claim_job cfg e queue worker s ≡ (ok (some row), t)
      → (x : Job) × Found (run driver cs t).jobs row.id x × IsLater row x
  claimed-IsLater e queue worker cs s t row sound h =
      let (r, takes, first) = claim_job-Takes cfg e queue worker s t sound.distinct row h in
      let lock = e.now + lock_micros cfg in
      let once = shown e.now lock worker r row first in
      let at_t : Found t.jobs r.id (claim_row e.now lock worker r) =
        subst (λ rows. Found rows r.id (claim_row e.now lock worker r)) (sym takes.jobs)
          (Found-update_rows (claim_row e.now lock worker) r.id
            (claim_row-has_id e.now lock worker r.id) s.jobs r takes.first.found) in
      let distinct = (claimed-IsSound e queue worker [] s t row sound h).distinct in
      let (x, at_x, became) =
        run-Became driver (pg_driver-IsDriver cfg) cs t r.id _ distinct at_t in
      (
        x,
        subst (λ i. Found (run driver cs t).jobs i x) (sym once.same_id) at_x,
        record {
          attempts = subst (λ n. n ≤ x.attempt) (once.counted ∙ sym once.attempt) became.attempts;
          limit = became.same_max_attempts ∙ (once.kept ∙ sym once.limit);
        },
      )

  -- If a job is claimed twice, whatever calls come in between, the second claim is a later attempt, and
  -- no attempt goes past the job's limit, which stays the same. So no two workers hold one attempt, and
  -- no job is claimed more often than its limit allows. Every job is valid and the ids are distinct
  -- beforehand.
  pub claim_job-attempts :
      (e e' : Env) (queue queue' worker worker' : Text) (cs : List (Env × Call)) (s t t' : Store)
      (row row' : JobRow)
      → IsSound s
      → claim_job cfg e queue worker s ≡ (ok (some row), t)
      → claim_job cfg e' queue' worker' (run driver cs t) ≡ (ok (some row'), t')
      → row'.id ≡ row.id
      → (row.attempt < row'.attempt)
        × (row'.attempt ≤ row'.max_attempts)
        × (row'.max_attempts ≡ row.max_attempts)
  claim_job-attempts e e' queue queue' worker worker' cs s t t' row row' sound h h' same =
      let (x, at_x, later) = claimed-IsLater e queue worker cs s t row sound h in
      let sound_u = claimed-IsSound e queue worker cs s t row sound h in
      let (r', takes, second) =
        claim_job-Takes cfg e' queue' worker' (run driver cs t) t' sound_u.distinct row' h' in
      let twice = shown e'.now (e'.now + lock_micros cfg) worker' r' row' second in
      let at_r' : Found (run driver cs t).jobs row.id r' =
        subst (λ i. Found (run driver cs t).jobs i r') (sym twice.same_id ∙ same)
          takes.first.found in
      let one_job : x ≡ r' = Found-same (run driver cs t).jobs row.id x r' at_x at_r' in
      let valid = Found-All IsValid _ row.id r' sound_u.valid at_r' in
      let budget =
        valid.open_budget (claimable_open e'.is_locked e'.now queue' r' takes.first.passes) in
      let before : row.attempt ≤ r'.attempt =
        subst (λ y. row.attempt ≤ y.attempt) one_job later.attempts in
      let limit : r'.max_attempts ≡ row.max_attempts =
        subst (λ y. y.max_attempts ≡ row.max_attempts) one_job later.limit in
      let attempt = twice.attempt in
      let limit' = twice.limit in (omega arith, omega arith, limit' ∙ limit)
