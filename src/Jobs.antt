-- ===== src/Jobs.antt =====
-- The SQL statements on the table `jobs`, one function for each SET clause and each WHERE clause.
-- The two drivers (internal/service/driver_sqlite.go, driver_pg.go) have the same statements and
-- differ in how they count time, so both use these.
pub mod Moves
pub mod Select
pub mod Keys
pub mod Queries
pub mod Reached
pub mod Order
pub mod ById
pub mod Once
pub mod Shuffled
pub mod Steps
use stevy.Base.{
  ℕ, suc, ◌+◌, ◌≡◌, Bool, true, false, ◌&&◌, not, Option, none, some, List, [], ◌∷◌, ◌++◌, map, ltb,
  leb, if◌then◌else◌, ◌==◌, ℤ, pos, negsuc,
}
use stevy.Base.Text.{Text, text_eq}
use stevy.Store.{
  Status, pending, scheduled, available, running, retryable, cancelled, discarded, completed, Job,
}

abbrev pub is_running : Status → Bool
is_running running = true
is_running _ = false

abbrev pub is_available : Status → Bool
is_available available = true
is_available _ = false

abbrev pub is_pending : Status → Bool
is_pending pending = true
is_pending _ = false

-- `status IN ('scheduled', 'retryable')`
abbrev pub is_delayed : Status → Bool
is_delayed scheduled = true
is_delayed retryable = true
is_delayed _ = false

-- `status IN ('completed', 'discarded', 'cancelled')`
abbrev pub is_terminal : Status → Bool
is_terminal completed = true
is_terminal discarded = true
is_terminal cancelled = true
is_terminal _ = false

-- `UPDATE jobs SET change WHERE test`
unfoldable pub update_rows : (Job → Bool) → (Job → Job) → List Job → List Job
update_rows test change [] = []
update_rows test change (r ∷ rs) = (if test r then change r else r) ∷ update_rows test change rs

-- The first row that passes a test, as `QueryRow` scans it.
unfoldable pub find_row : (Job → Bool) → List Job → Option Job
find_row test [] = none
find_row test (r ∷ rs) = let rest = find_row test rs in if test r then some r else rest

unfoldable pub has_id : Text → Job → Bool
has_id id r = r.id == id

-- The SET clauses.
unfoldable pub claim_row : ℕ → ℕ → Text → Job → Job
claim_row now lock worker r = record r {
  status = running;
  attempt = r.attempt + 1;
  attempted_at = some now;
  attempted_by = r.attempted_by ++ (worker ∷ []);
  lock_expires_at = some lock;
}

unfoldable pub complete_row : ℕ → Text → Job → Job
complete_row now result r = record r {
  status = completed;
  finalized_at = some now;
  result = some result;
}

unfoldable pub fail_row : ℕ → ℕ → Text → Job → Job
fail_row now retry_at entry r =
    if leb r.max_attempts r.attempt
    then record r { status = discarded; errors = r.errors ++ (entry ∷ []); finalized_at = some now }
    else record r {
      status = retryable;
      scheduled_at = retry_at;
      errors = r.errors ++ (entry ∷ []);
      finalized_at = none;
    }

unfoldable pub expire_row : ℕ → Text → Job → Job
unfolding fail_row
expire_row now entry r = record (fail_row now now entry r) { lock_expires_at = none }

-- The progress is written if the request has one; its range is checked by the statement.
abbrev pub progress_or : Option ℤ → ℕ → ℕ
progress_or (some (pos n)) old = n
progress_or _ old = old

unfoldable pub heartbeat_row : ℕ → Option ℤ → Job → Job
heartbeat_row lock progress r = record r {
  lock_expires_at = some lock;
  progress = progress_or progress r.progress;
}

-- `CHECK (progress >= 0 AND progress <= 100)`
unfoldable pub progress_fits : Option ℤ → Bool
progress_fits none = true
progress_fits (some (pos n)) = leb n 100
progress_fits (some (negsuc n)) = false

unfoldable pub promote_row : ℕ → Job → Job
promote_row now r = record r { status = if ltb now r.scheduled_at then scheduled else available }

abbrev pub coalesce : Option ℕ → ℕ → Option ℕ
coalesce none now = some now
coalesce (some t) now = some t

unfoldable pub cancel_row : ℕ → Job → Job
cancel_row now r = record r { status = cancelled; finalized_at = coalesce r.finalized_at now }

unfoldable pub release_row : Job → Job
release_row r = record r { status = available }

-- The WHERE clauses.
unfoldable pub where_running : Text → Job → Bool
unfolding has_id
where_running id r = has_id id r && is_running r.status

unfoldable pub where_pending : Text → Job → Bool
unfolding has_id
where_pending id r = has_id id r && is_pending r.status

unfoldable pub where_not_terminal : Text → Job → Bool
unfolding has_id
where_not_terminal id r = has_id id r && not (is_terminal r.status)

unfoldable pub where_claimable : Text → ℕ → Job → Bool
where_claimable queue now r =
    (r.queue == queue) && (is_available r.status && leb r.scheduled_at now)

-- A lock that is NULL is not below any time.
abbrev pub expires_before : Option ℕ → ℕ → Bool
expires_before none now = false
expires_before (some t) now = ltb t now

unfoldable pub where_expired : ℕ → Job → Bool
where_expired now r = is_running r.status && expires_before r.lock_expires_at now

unfoldable pub where_due : ℕ → Job → Bool
where_due now r = is_delayed r.status && leb r.scheduled_at now
