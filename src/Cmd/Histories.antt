-- ===== src/Cmd/Histories.antt =====
-- Histories of calls to the driver that `openBackend` of cmd/stevy/main.go makes.
use stevy.Base.{◌≡◌, List}
use stevy.Base.Text.{Text}
use stevy.Cmd.{Outside, Vars, started, Backend, open_backend}
use stevy.Cmd.Drivers.{open_backend-IsDriver}
use stevy.Driver.{Call, run}
use stevy.Driver.History.{IsSound, Became, Found, run-IsSound, run-Became}
use stevy.Store.{Job, Store, Env}

-- Whatever backend a connection URL opens, PostgreSQL or SQLite, and whatever fails on the way: after
-- any history of calls to its driver, on tables with valid jobs and distinct ids, every job is valid
-- and the ids are distinct, and a job that was there is still there with its id, queue, kind, priority,
-- attempt limit, payload and metadata; its status went along edges, its attempts did not fall, and
-- nothing at all of it changed if it was completed, discarded or cancelled.
pub open_backend-run :
    (o : Outside) (vars : Vars) (dsn : Text) (b : Backend)
    → open_backend o vars dsn ≡ started b
    → (cs : List (Env × Call)) (s : Store) (id : Text) (r : Job) → IsSound s
    → Found s.jobs id r
    → IsSound (run b.driver cs s)
      × ((r' : Job) × Found (run b.driver cs s).jobs id r' × Became r r')
open_backend-run o vars dsn b h cs s id r sound found =
    let contract = open_backend-IsDriver o vars dsn b h in
    (
      run-IsSound b.driver contract cs s sound,
      run-Became b.driver contract cs s id r sound.distinct found,
    )
