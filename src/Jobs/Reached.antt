-- ===== src/Jobs/Reached.antt =====
-- Each UPDATE keeps the id, and makes a step of every row that its WHERE clause reaches.
use stevy.Base.{ℕ, ◌≡◌, refl, true, Option, ℤ, arith}
use stevy.Base.Text.{Text}
use stevy.Store.{Job}
use stevy.Jobs.{
  complete_row, fail_row, expire_row, heartbeat_row, promote_row, cancel_row, release_row,
  progress_fits, where_running, where_pending, where_not_terminal, where_expired, where_due,
}
use stevy.Jobs.Moves.{RowStep}
use stevy.Jobs.Steps.{
  complete_row-RowStep, fail_row-RowStep, expire_row-RowStep, heartbeat_row-RowStep,
  promote_row-RowStep, cancel_row-RowStep, release_row-RowStep,
}

pub complete_row-id : (now : ℕ) (result : Text) (r : Job) → (complete_row now result r).id ≡ r.id
unfolding complete_row
complete_row-id now result r = refl

pub fail_row-id : (now at : ℕ) (entry : Text) (r : Job) → (fail_row now at entry r).id ≡ r.id
unfolding fail_row
fail_row-id now at entry r = ground arith

pub expire_row-id : (now : ℕ) (entry : Text) (r : Job) → (expire_row now entry r).id ≡ r.id
unfolding expire_row
expire_row-id now entry r = ground arith

pub heartbeat_row-id : (lock : ℕ) (p : Option ℤ) (r : Job) → (heartbeat_row lock p r).id ≡ r.id
unfolding heartbeat_row
heartbeat_row-id lock p r = refl

pub promote_row-id : (now : ℕ) (r : Job) → (promote_row now r).id ≡ r.id
unfolding promote_row
promote_row-id now r = refl

pub cancel_row-id : (now : ℕ) (r : Job) → (cancel_row now r).id ≡ r.id
unfolding cancel_row
cancel_row-id now r = refl

pub release_row-id : (r : Job) → (release_row r).id ≡ r.id
unfolding release_row
release_row-id r = refl

pub complete_reached :
    (id : Text) (now : ℕ) (result : Text) (r : Job)
    → where_running id r ≡ true
    → RowStep r (complete_row now result r)
unfolding where_running
complete_reached id now result r h = complete_row-RowStep now result r (ground arith)

pub fail_reached :
    (id : Text) (now at : ℕ) (entry : Text) (r : Job)
    → where_running id r ≡ true
    → RowStep r (fail_row now at entry r)
unfolding where_running
fail_reached id now at entry r h = fail_row-RowStep now at entry r (ground arith)

pub heartbeat_reached :
    (id : Text) (lock : ℕ) (p : Option ℤ) (r : Job)
    → progress_fits p ≡ true
    → where_running id r ≡ true
    → RowStep r (heartbeat_row lock p r)
unfolding where_running
heartbeat_reached id lock p r fits h = heartbeat_row-RowStep lock p r (ground arith) fits

pub expire_reached :
    (now : ℕ) (entry : Text) (r : Job)
    → where_expired now r ≡ true
    → RowStep r (expire_row now entry r)
unfolding where_expired
expire_reached now entry r h = expire_row-RowStep now entry r (ground arith)

pub promote_reached :
    (id : Text) (now : ℕ) (r : Job) → where_pending id r ≡ true → RowStep r (promote_row now r)
unfolding where_pending
promote_reached id now r h = promote_row-RowStep now r (ground arith)

pub cancel_reached :
    (id : Text) (now : ℕ) (r : Job) → where_not_terminal id r ≡ true → RowStep r (cancel_row now r)
unfolding where_not_terminal
cancel_reached id now r h = cancel_row-RowStep now r (ground arith)

pub release_reached : (now : ℕ) (r : Job) → where_due now r ≡ true → RowStep r (release_row r)
unfolding where_due
release_reached now r h = release_row-RowStep r (ground arith)
