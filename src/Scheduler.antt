-- ===== src/Scheduler.antt =====
-- The scheduler: the body of the loop in `cmdScheduler` (cmd/stevy/main.go), and the single pass over
-- HTTP, `RunScheduler` (internal/web/web.go).
pub mod Expiry
pub mod Backlog
pub mod Drain
pub mod Pass
pub mod Calls
use stevy.Base.{ℕ, zero, suc, List, [], ◌∷◌, ◌++◌, pos}
use stevy.Driver.{Driver}
use stevy.Store.{Error, Result, ok, err, Store, Env}

-- What a tick logs.
pub data Line : Type 0 where
  promote_error fail_error : Error → Line
  promoted failed_expired : ℕ → Line

abbrev pub promote_line : Result ℕ → List Line
promote_line (err e) = promote_error e ∷ []
promote_line (ok zero) = []
promote_line (ok (suc n)) = promoted (suc n) ∷ []

abbrev pub fail_line : Result ℕ → List Line
fail_line (err e) = fail_error e ∷ []
fail_line (ok zero) = []
fail_line (ok (suc n)) = failed_expired (suc n) ∷ []

-- One tick. An error of the first call is logged, and the second call is made all the same.
unfoldable pub tick : Driver → Env → Env → Store → List Line × Store
tick d e e' s =
    let (n, s') = d.promote_scheduled_jobs e (pos 1000) s in
    let (expired, s'') = d.fail_expired_jobs e' (pos 1000) s' in
    (promote_line n ++ fail_line expired, s'')

-- Ticks until the process is told to stop.
unfoldable pub ticks : Driver → List (Env × Env) → Store → Store
unfolding tick
ticks d [] s = s
ticks d ((e, e') ∷ es) s = ticks d es (tick d e e' s).1

-- `POST /scheduler/run`: the number of promoted jobs, or the error.
unfoldable pub run_scheduler : Driver → Env → Store → Result ℕ × Store
run_scheduler d e s = d.promote_scheduled_jobs e (pos 1000) s
