-- ===== src/Tests/Shuffled.antt =====
-- The order of a table's rows at a concrete input.
use mathlib.Core.List.{Permᴰ}
use stevy.Base.{refl, [], ◌∷◌, pos, List}
use stevy.Base.Text.{codes}
use stevy.Postgres.{claim_job}
use stevy.Postgres.Reads.{get_job, list_jobs}
use stevy.Postgres.Shuffled.{IsLevel, pg_driver-Permᴰ}
use stevy.Store.{Job, Store}
use stevy.Tests.{no_fault, pg, waiting, worked, mail, mail-Distinct}

abbrev others : List Job
others = waiting (codes "01B") 1 ∷ waiting (codes "01A") 2 ∷ worked (codes "01R") ∷ []

abbrev other_mail : Store
other_mail = record mail { jobs = others }

other_order : Permᴰ mail.jobs others
other_order = Permᴰ.swap refl refl

pg_driver-Permᴰ_example :
    IsLevel
      (claim_job pg no_fault (codes "mail") (codes "w") mail)
      (claim_job pg no_fault (codes "mail") (codes "w") other_mail)
    × IsLevel
        (list_jobs no_fault (codes "mail") [] (pos 2) [] mail)
        (list_jobs no_fault (codes "mail") [] (pos 2) [] other_mail)
    × IsLevel (get_job no_fault (codes "01B") mail) (get_job no_fault (codes "01B") other_mail)
pg_driver-Permᴰ_example =
    pg_driver-Permᴰ pg no_fault mail others mail-Distinct other_order (codes "mail") (codes "w") []
      [] (codes "01B") (pos 2)
