-- ===== src/Tests/Outcomes.antt =====
-- Outcomes of the operations on one job.
use stevy.Base.{◌+◌, ◌*◌, ◌/◌, refl, pos, arith}
use stevy.Base.Text.{Text, codes, text_eq}
use stevy.JsonString.{build_error_entry}
use stevy.Jobs.{fail_row, is_running}
use stevy.Postgres.{fail_job}
use stevy.Postgres.Outcomes.{fail_job-ChangesById, pg_driver-IsById}
use stevy.Postgres.Contract.{pg_driver}
use stevy.Sqlite.{fail_job as lite_fail_job}
use stevy.Driver.ById.{IsById}
use stevy.Sqlite.Contract.{sqlite_driver}
use stevy.Sqlite.Outcomes.{sqlite_driver-IsById, lite_fail_job-ChangesById}
use stevy.Statements.ById.{ChangesById}
use stevy.Tests.{no_fault, pg, lite, mail, mail-Distinct}

fail_job-ChangesById_example :
    ChangesById
      (codes "01R")
      is_running
      (fail_row 1000 (1000 + 2000 * 1000) (codes "no"))
      mail
      (fail_job pg no_fault (codes "01R") (codes "no") (pos 2000) mail)
fail_job-ChangesById_example =
    fail_job-ChangesById pg no_fault mail mail-Distinct refl (codes "01R") (codes "no") 2000
      (omega arith)

pg_driver-IsById_example : IsById (pg_driver pg)
pg_driver-IsById_example = pg_driver-IsById pg

sqlite_driver-IsById_example : IsById (sqlite_driver lite)
sqlite_driver-IsById_example = sqlite_driver-IsById lite

abbrev entry : Text
entry = build_error_entry (codes "t") (codes "no")

lite_fail_job-ChangesById_example :
    ChangesById
      (codes "01R")
      is_running
      (fail_row 1000 (1000 + (2500 + 999) / 1000) entry)
      mail
      (lite_fail_job lite no_fault (codes "01R") (codes "no") (pos 2500) mail)
lite_fail_job-ChangesById_example =
    lite_fail_job-ChangesById lite no_fault mail mail-Distinct refl (codes "01R") (codes "no") entry
      2500 refl (omega arith)
