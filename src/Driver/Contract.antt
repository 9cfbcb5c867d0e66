-- ===== src/Driver/Contract.antt =====
-- What the services may assume of a driver's calls.
use stevy.Store.{Store, Env}
use stevy.Jobs.Keys.{Distinct}
use stevy.Statements.Keeps.{KeepsFrom}
use stevy.Driver.{Driver, Call, step}

-- Each call moves the jobs by at most one step each, drops none, and keeps their ids distinct.
pub record IsDriver (d : Driver) : Type 0 where
  pub keeps :
      (e : Env) (c : Call) (s : Store) → Distinct s.jobs → KeepsFrom s.jobs (step d e c s).jobs
