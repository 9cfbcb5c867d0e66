-- ===== src/Cmd/Drivers.antt =====
-- The drivers that the commands open.
use stevy.Base.{◌≡◌, refl, Option, none, some, arith, subst}
use stevy.Base.Text.{Text}
use stevy.Cmd.{Outside, Vars, started, Backend, opened, open_backend}
use stevy.Dialect.{Dialect, postgres, sqlite, from_dsn}
use stevy.Driver.Contract.{IsDriver}
use stevy.Postgres.Contract.{pg_driver-IsDriver}
use stevy.Sqlite.Contract.{sqlite_driver-IsDriver}

opened-IsDriver :
    (o : Option Text) (b b' : Backend)
    → IsDriver b.driver
    → opened o b ≡ started b'
    → IsDriver b'.driver
opened-IsDriver none b b' h e =
    let same : b ≡ b' = ground arith in subst (λ x. IsDriver x.driver) same h
opened-IsDriver (some m) b b' h e = absurd (ground arith)

-- Whatever the connection URL and the environment, a backend that opens has a driver that meets the
-- contract.
pub open_backend-IsDriver :
    (o : Outside) (vars : Vars) (dsn : Text) (b : Backend)
    → open_backend o vars dsn ≡ started b
    → IsDriver b.driver
unfolding open_backend
open_backend-IsDriver o vars dsn b h = by_dialect (from_dsn dsn) refl
  where
    by_dialect : (d : Option Dialect) → from_dsn dsn ≡ d → IsDriver b.driver
    by_dialect none e = absurd (ground arith)
    by_dialect (some postgres) e = opened-IsDriver _ _ b (pg_driver-IsDriver _) (rw e at h)
    by_dialect (some sqlite) e = opened-IsDriver _ _ b (sqlite_driver-IsDriver _) (rw e at h)
