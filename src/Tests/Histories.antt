-- ===== src/Tests/Histories.antt =====
-- Single calls and histories of calls, on both databases.
use stevy.Base.{ℕ, ◌≡◌, refl, List, [], ◌∷◌, pos, arith}
use stevy.Base.Text.{Text, codes, text_discrete, text_eq}
use stevy.Cmd.{Vars, started, open_backend}
use stevy.Cmd.Histories.{open_backend-run}
use stevy.Tests.Pages.{outside, file_backend}
use stevy.Store.{Job, Env}
use stevy.Driver.{Call, claim, complete, fail, cancel, step, run}
use stevy.Driver.History.{IsSound, Became, Found}
use stevy.Jobs.{has_id, find_row}
use stevy.Jobs.Moves.{IsValid}
use stevy.Postgres.Contract.{pg_driver, pg_driver-KeepsFrom}
use stevy.Sqlite.Contract.{sqlite_driver, sqlite_driver-KeepsFrom}
use stevy.Statements.Keeps.{KeepsFrom}
use stevy.Tests.{no_fault, pg, lite, waiting, worked, mail, mail-Distinct}

pg_driver-KeepsFrom_example :
    KeepsFrom mail.jobs (step (pg_driver pg) no_fault (cancel (codes "01A")) mail).jobs
pg_driver-KeepsFrom_example =
    pg_driver-KeepsFrom pg no_fault (cancel (codes "01A")) mail mail-Distinct

sqlite_driver-KeepsFrom_example :
    KeepsFrom mail.jobs
      (step (sqlite_driver lite) no_fault (complete (codes "01R") (codes "{}")) mail).jobs
sqlite_driver-KeepsFrom_example =
    sqlite_driver-KeepsFrom lite no_fault (complete (codes "01R") (codes "{}")) mail mail-Distinct

worked-IsValid : (id : Text) → IsValid (worked id)
worked-IsValid id = record {
  budget = omega arith;
  open_budget = λ h. absurd (cc);
  leased = λ _. refl;
  attempted = λ _. refl;
  finalized = refl;
  exhausted = λ h. absurd (ground arith);
  progressed = omega arith;
  resulted = λ h. absurd (cc);
  claimed = refl;
  failed_open = λ h. absurd (cc);
  failed_running = λ _. refl;
  failed_all = λ h. absurd (ground arith);
}

pub waiting-IsValid : (id : Text) (p : ℕ) → IsValid (waiting id p)
waiting-IsValid id p = record {
  budget = omega arith;
  open_budget = λ _. omega arith;
  leased = λ h. absurd (cc);
  attempted = λ h. absurd (cc);
  finalized = refl;
  exhausted = λ h. absurd (ground arith);
  progressed = omega arith;
  resulted = λ h. absurd (cc);
  claimed = refl;
  failed_open = λ _. refl;
  failed_running = λ h. absurd (cc);
  failed_all = λ h. absurd (ground arith);
}

mail-IsSound : IsSound mail
mail-IsSound = record {
  valid = (
    waiting-IsValid (codes "01A") 2,
    (waiting-IsValid (codes "01B") 1, (worked-IsValid (codes "01R"), tt)),
  );
  distinct = mail-Distinct;
}

abbrev calls : List (Env × Call)
calls =
    (no_fault, claim (codes "mail") (codes "w"))
    ∷ (no_fault, fail (codes "01B") (codes "no") (pos 2000))
    ∷ (no_fault, cancel (codes "01A"))
    ∷ []

Found-waiting : Found mail.jobs (codes "01A") (waiting (codes "01A") 2)
unfolding find_row has_id text_discrete
Found-waiting = refl

abbrev unset : Vars
unset k = []

opens : open_backend outside unset (codes "sqlite://jobs.db") ≡ started file_backend
unfolding open_backend text_discrete
opens = refl

open_backend-run_example :
    IsSound (run file_backend.driver calls mail)
    × ((r' : Job) × Found (run file_backend.driver calls mail).jobs (codes "01A") r'
        × Became (waiting (codes "01A") 2) r')
open_backend-run_example =
    open_backend-run outside unset (codes "sqlite://jobs.db") file_backend opens calls mail
      (codes "01A") (waiting (codes "01A") 2) mail-IsSound Found-waiting
