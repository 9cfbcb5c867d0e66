-- ===== src/Jobs/Moves.antt =====
-- What a call may do to the table `jobs`: the transitions of a row, and the validity of a row.
use stevy.Base.{
  ◌+◌, ◌≤◌, ◌<◌, ◌≡◌, refl, ◌⊎◌, inr, Bool, true, false, List, [], ◌∷◌, ◌++◌, All, length, is_some,
}
use stevy.Store.{
  Status, pending, scheduled, available, running, retryable, cancelled, discarded, completed, Job,
}
use stevy.Jobs.{is_running, is_terminal}

-- The transitions of a job's status.
pub data Edge : Status → Status → Type 0 where
  stay : {s : Status} → Edge s s
  claim : Edge available running
  finish : Edge running completed
  retry : Edge running retryable
  give_up : Edge running discarded
  come_due : Edge scheduled available
  back_off_over : Edge retryable available
  promote : Edge pending available
  promote_later : Edge pending scheduled
  cancel : {s : Status} → is_terminal s ≡ false → Edge s cancelled

-- The job waits for a worker, at once or later.
abbrev pub is_open : Status → Bool
is_open pending = true
is_open scheduled = true
is_open available = true
is_open retryable = true
is_open _ = false

-- What holds of every row.
pub record IsValid (r : Job) : Type 0 where
  pub budget : r.attempt ≤ r.max_attempts
  pub open_budget : is_open r.status ≡ true → r.attempt < r.max_attempts
  pub leased : is_running r.status ≡ true → is_some r.lock_expires_at ≡ true
  pub attempted : is_running r.status ≡ true → is_some r.attempted_at ≡ true
  pub finalized : is_some r.finalized_at ≡ is_terminal r.status
  pub exhausted : r.status ≡ discarded → r.attempt ≡ r.max_attempts
  pub progressed : r.progress ≤ 100
  pub resulted : is_some r.result ≡ true → r.status ≡ completed
  pub claimed : length r.attempted_by ≡ r.attempt
  pub failed_open : is_open r.status ≡ true → length r.errors ≡ r.attempt
  pub failed_running : is_running r.status ≡ true → length r.errors + 1 ≡ r.attempt
  pub failed_all : r.status ≡ discarded → length r.errors ≡ r.attempt

-- One row before and after a call.
pub record RowStep (r r' : Job) : Type 0 where
  pub same_id : r'.id ≡ r.id
  pub same_queue : r'.queue ≡ r.queue
  pub same_kind : r'.kind ≡ r.kind
  pub same_priority : r'.priority ≡ r.priority
  pub same_max_attempts : r'.max_attempts ≡ r.max_attempts
  pub same_payload : r'.payload ≡ r.payload
  pub same_metadata : r'.metadata ≡ r.metadata
  pub edge : Edge r.status r'.status
  pub frozen : is_terminal r.status ≡ true → r' ≡ r
  pub attempts :
      ((r.status ≡ available) × (r'.status ≡ running) × (r'.attempt ≡ r.attempt + 1))
      ⊎ (r'.attempt ≡ r.attempt)
  pub valid : IsValid r → IsValid r'

-- The table before and after: each row makes a step, none goes away, and valid rows may be added
-- at the end.
pub data Moves : List Job → List Job → Type 0 where
  added : {rs : List Job} → All IsValid rs → Moves [] rs
  moved : {r r' : Job} {rs rs' : List Job} → RowStep r r' → Moves rs rs' → Moves (r ∷ rs) (r' ∷ rs')

pub RowStep-refl : (r : Job) → RowStep r r
RowStep-refl r = record {
  same_id = refl;
  same_queue = refl;
  same_kind = refl;
  same_priority = refl;
  same_max_attempts = refl;
  same_payload = refl;
  same_metadata = refl;
  edge = stay;
  frozen = λ _. refl;
  attempts = inr refl;
  valid = λ v. v;
}

pub Moves-refl : (rs : List Job) → Moves rs rs
Moves-refl [] = added tt
Moves-refl (r ∷ rs) = moved (RowStep-refl r) (Moves-refl rs)

-- A call that moves the table keeps every row valid.
pub Moves-IsValid : {rs rs' : List Job} → Moves rs rs' → All IsValid rs → All IsValid rs'
Moves-IsValid (added v) h = v
Moves-IsValid (moved st m) h = (st.valid h.0, Moves-IsValid m h.1)

pub Moves-append : (rs : List Job) (r : Job) → IsValid r → Moves rs (rs ++ (r ∷ []))
Moves-append [] r v = added (v, tt)
Moves-append (x ∷ rs) r v = moved (RowStep-refl x) (Moves-append rs r v)
