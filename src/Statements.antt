-- ===== src/Statements.antt =====
-- The statements of the drivers as calls on the store: updates of `jobs` with the number of rows or
-- the row that they return, and the statements on the tables `queues` and `workers`.
pub mod Reads
pub mod Keeps
pub mod Valid
pub mod Claim
pub mod ById
use stevy.Base.{
  ℕ, zero, suc, Bool, true, false, ◌&&◌, not, Option, none, some, List, [], ◌∷◌, ◌++◌, any, count,
  is_some, if◌then◌else◌, ◌==◌,
}
use stevy.Base.Text.{Text, codes, text_eq}
use stevy.Store.{
  Status, pending, scheduled, available, CreateOpts, Job, QueueEntry, Worker, Store, Error,
  wrong_state, constraint, no_entropy, Result, ok, err, M, pure, throw,
}
use stevy.JsonString.{nat_eq}
use stevy.Jobs.{update_rows, find_row, has_id, claim_row, where_claimable}
use stevy.Jobs.Select.{claims_before, pick, ids, in_ids}

abbrev pub map_option : {A B : Type 0} → (A → B) → Option A → Option B
map_option f none = none
map_option f (some a) = some (f a)

-- `UPDATE jobs SET change WHERE test`, with the number of rows affected.
unfoldable pub update_jobs : (Job → Bool) → (Job → Job) → M ℕ
update_jobs test change s =
    (ok (count test s.jobs), record s { jobs = update_rows test change s.jobs })

-- `UPDATE … RETURNING`, of which `QueryRow` scans the first row; none is `sql.ErrNoRows`.
unfoldable pub update_returning : (Job → Bool) → (Job → Job) → M (Option Job)
update_returning test change s = (
  ok (map_option change (find_row test s.jobs)),
  record s { jobs = update_rows test change s.jobs },
)

-- The same, with what the database checks of a row that it would write.
unfoldable pub update_checked : (Job → Option Error) → (Job → Bool) → (Job → Job) → M (Option Job)
unfolding update_returning
update_checked check test change s = elim (find_row test s.jobs) [
  | none ↦ (ok none, s)
  | some r ↦ elim (check r) [ none ↦ update_returning test change s | some e ↦ (err e, s) ]
]

-- `INSERT INTO jobs … RETURNING`: the primary key refuses an id that is there.
unfoldable pub insert_job : Job → M Job
insert_job r s = elim (find_row (has_id r.id) s.jobs) [
  | none ↦ (ok r, record s { jobs = s.jobs ++ (r ∷ []) })
  | some old ↦ (err constraint, s)
]

abbrev pub or_time : Option ℕ → ℕ → ℕ
or_time none t = t
or_time (some s) t = s

abbrev pub default_to : ℕ → ℕ → ℕ
default_to d n = if n == 0 then d else n

abbrev pub initial_status : Bool → Bool → Status
initial_status true is_later = pending
initial_status false true = scheduled
initial_status false false = available

abbrev pub default_metadata : Text → Text
default_metadata [] = codes "{}"
default_metadata (c ∷ s) = c ∷ s

-- The row of an INSERT that leaves the other columns to their defaults.
unfoldable pub new_job : ℕ → ℕ → Text → Status → CreateOpts → Job
new_job now at id status o = record {
  id = id;
  queue = o.queue;
  kind = o.kind;
  status = status;
  priority = default_to 1 o.priority;
  attempt = 0;
  max_attempts = default_to 25 o.max_attempts;
  progress = 0;
  payload = o.payload;
  metadata = default_metadata o.metadata;
  result = none;
  errors = [];
  attempted_by = [];
  created_at = now;
  scheduled_at = at;
  attempted_at = none;
  finalized_at = none;
  lock_expires_at = none;
}

-- `ulid.New(…)`, whose error ends the call.
abbrev pub with_new_id : {A : Type 0} → Option Text → (Text → M A) → M A
with_new_id none k = throw no_entropy
with_new_id (some id) k = k id

-- `if n == 0 { return ErrWrongState }`
abbrev pub require_rows : ℕ → M (Unit {0})
require_rows zero = throw wrong_state
require_rows (suc n) = pure tt

abbrev pub require_row : Option Job → M (Unit {0})
require_row none = throw wrong_state
require_row (some r) = pure tt

-- `SELECT 1 FROM queues WHERE name = ? AND paused_at IS NOT NULL`
unfoldable pub is_paused : Text → List QueueEntry → Bool
is_paused name qs = any (λ q. (q.name == name) && is_some q.paused_at) qs

-- The claim, over the rows that other transactions have not locked.
unfoldable pub claim_jobs : (Text → Bool) → ℕ → ℕ → Text → Text → M (Option Job)
unfolding update_returning
claim_jobs is_locked now lock worker queue s =
    let test = λ (r : Job). where_claimable queue now r && not (is_locked r.id) in
    if is_paused queue s.queues
    then (ok none, s)
    else update_returning (in_ids (ids (pick claims_before test 1 s.jobs)))
        (claim_row now lock worker) s

-- `UPDATE jobs SET change WHERE id IN (SELECT id … WHERE test ORDER BY before LIMIT limit)`
unfoldable pub update_picked : (Job → Job → Bool) → (Job → Bool) → ℕ → (Job → Job) → M ℕ
unfolding update_jobs
update_picked before test limit change s =
    update_jobs (in_ids (ids (pick before test limit s.jobs))) change s

abbrev pub new_queue : ℕ → Option ℕ → Text → QueueEntry
new_queue now paused name = record {
  name = name;
  paused_at = paused;
  created_at = now;
  updated_at = now;
}

-- `INSERT INTO queues … ON CONFLICT (name) DO UPDATE SET …`
abbrev pub upsert : QueueEntry → (QueueEntry → QueueEntry) → List QueueEntry → List QueueEntry
upsert new change [] = new ∷ []
upsert new change (q ∷ qs) =
    let rest = upsert new change qs in if q.name == new.name then change q ∷ qs else q ∷ rest

unfoldable pub touch_queue : ℕ → Text → M (Unit {0})
touch_queue now name s = (
  ok tt,
  record s {
    queues = upsert (new_queue now none name) (λ q. record q { updated_at = now }) s.queues;
  },
)

unfoldable pub pause_entry : ℕ → Text → M (Unit {0})
pause_entry now name s = (
  ok tt,
  record s {
    queues =
        upsert (new_queue now (some now) name)
          (λ q. record q { paused_at = some now; updated_at = now }) s.queues;
  },
)

abbrev pub resume_entries : ℕ → Text → List QueueEntry → List QueueEntry
resume_entries now name [] = []
resume_entries now name (q ∷ qs) =
    (if q.name == name then record q { paused_at = none; updated_at = now } else q)
    ∷ resume_entries now name qs

unfoldable pub resume_entry : ℕ → Text → M (Unit {0})
resume_entry now name s = (ok tt, record s { queues = resume_entries now name s.queues })

abbrev pub touch_workers : ℕ → Text → List Worker → List Worker
touch_workers now id [] = []
touch_workers now id (w ∷ ws) =
    (if w.id == id then record w { last_seen_at = some now } else w) ∷ touch_workers now id ws

-- `UPDATE workers SET last_seen_at = … WHERE id = ?`
unfoldable pub touch_worker : ℕ → Text → M (Unit {0})
touch_worker now id s = (ok tt, record s { workers = touch_workers now id s.workers })
