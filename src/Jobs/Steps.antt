-- ===== src/Jobs/Steps.antt =====
-- Each SET clause, run where its WHERE clause holds, is a step of the row.
use stevy.Base.{ℕ, ◌≡◌, true, false, Option, length-append, arith, ℤ}
use stevy.Base.Text.{Text}
use stevy.Store.{Job}
use stevy.Jobs.{
  is_running, is_terminal, is_available, is_pending, is_delayed, claim_row, complete_row, fail_row,
  expire_row, heartbeat_row, promote_row, cancel_row, release_row, progress_fits,
}
use stevy.Jobs.Moves.{
  stay, claim, finish, retry, give_up, come_due, back_off_over, promote, promote_later, cancel,
  RowStep,
}

pub claim_row-RowStep :
    (now lock : ℕ) (worker : Text) (r : Job)
    → is_available r.status ≡ true
    → RowStep r (claim_row now lock worker r)
unfolding claim_row
claim_row-RowStep now lock worker r h = grind (arith, claim, length-append {0})

pub complete_row-RowStep :
    (now : ℕ) (result : Text) (r : Job)
    → is_running r.status ≡ true
    → RowStep r (complete_row now result r)
unfolding complete_row
complete_row-RowStep now result r h = grind (arith, finish)

pub fail_row-RowStep :
    (now retry_at : ℕ) (entry : Text) (r : Job)
    → is_running r.status ≡ true
    → RowStep r (fail_row now retry_at entry r)
unfolding fail_row
fail_row-RowStep now retry_at entry r h = grind (arith, retry, give_up, length-append {0})

pub expire_row-RowStep :
    (now : ℕ) (entry : Text) (r : Job)
    → is_running r.status ≡ true
    → RowStep r (expire_row now entry r)
unfolding expire_row
expire_row-RowStep now entry r h = grind (arith, retry, give_up, length-append {0})

pub heartbeat_row-RowStep :
    (lock : ℕ) (progress : Option ℤ) (r : Job)
    → is_running r.status ≡ true
    → progress_fits progress ≡ true
    → RowStep r (heartbeat_row lock progress r)
unfolding heartbeat_row progress_fits
heartbeat_row-RowStep lock progress r h fits = grind (arith, stay)

pub promote_row-RowStep :
    (now : ℕ) (r : Job) → is_pending r.status ≡ true → RowStep r (promote_row now r)
unfolding promote_row
promote_row-RowStep now r h = grind (arith, promote, promote_later)

pub cancel_row-RowStep :
    (now : ℕ) (r : Job) → is_terminal r.status ≡ false → RowStep r (cancel_row now r)
unfolding cancel_row
cancel_row-RowStep now r h = grind (arith, cancel)

pub release_row-RowStep : (r : Job) → is_delayed r.status ≡ true → RowStep r (release_row r)
unfolding release_row
release_row-RowStep r h = grind (arith, come_due, back_off_over)
