-- ===== src/Cmd.antt =====
-- cmd/stevy/main.go and internal/db/migrate.go: the command line, the environment, and how the
-- databases are opened. Durations' texts, flags, and the libraries that open and migrate a database
-- are parameters.
pub mod Settings
pub mod Drivers
pub mod Serve
pub mod Ready
pub mod Conditions
pub mod Starts
pub mod Histories
pub mod Main
use stevy.Base.{
  ℕ, zero, suc, ◌*◌, Bool, true, false, ◌||◌, Option, none, some, List, [], ◌∷◌, ◌++◌,
  if◌then◌else◌, ◌==◌, ℤ, pos, negsuc,
}
use stevy.Base.Text.{Text, codes, text_eq}
use stevy.Base.Trim.{trim_space, split}
use stevy.Dialect.{Dialect, postgres, sqlite, from_dsn, strip_sqlite_prefix}
use stevy.Driver.{Driver}
use stevy.Postgres.{Config as PgConfig}
use stevy.Postgres.Contract.{pg_driver}
use stevy.Sqlite.{Config as SqliteConfig, second}
use stevy.Sqlite.Contract.{sqlite_driver}

-- `firstArg` and `serveArgs`; the list is `os.Args`.
unfoldable pub first_arg : List Text → Text
first_arg (name ∷ arg ∷ args) = arg
first_arg _ = []

unfoldable pub serve_args : List Text → List Text
serve_args [] = []
serve_args (name ∷ []) = []
serve_args (name ∷ arg ∷ args) = if arg == codes "serve" then args else arg ∷ args

pub data Command : Type 0 where
  run_migrate run_scheduler run_serve show_version show_help : Command
  unknown : Text → Command

-- The switch of `main`.
unfoldable pub command : List Text → Command
unfolding first_arg
command args =
    let arg = first_arg args in
    if arg == codes "migrate"
    then run_migrate
    else if arg == codes "scheduler"
    then run_scheduler
    else if arg == [] || arg == codes "serve"
    then run_serve
    else if arg == codes "version"
    then show_version
    else if arg == codes "help" || (arg == codes "-h" || arg == codes "--help")
    then show_help
    else unknown arg

-- What a command comes to: it goes on, it ends with an error, it panics, or the flags end the process.
pub data Start (A : Type 0) : Type 0 where
  started : A → Start A
  exited : ℕ → Start A
  failed_with : Text → Start A
  panicked : Text → Start A

-- The exit code of a command that ends; a panic's is Go's own.
unfoldable pub exit_code : {A : Type 0} → Start A → ℕ
exit_code (started a) = 0
exit_code (exited code) = code
exit_code (failed_with m) = 1
exit_code (panicked m) = 2

infixl 5 ◌>>=◌ ◌>>◌
abbrev pub ◌>>=◌ : {A B : Type 0} → Start A → (A → Start B) → Start B
started a >>= k = k a
exited code >>= k = exited code
failed_with m >>= k = failed_with m
panicked m >>= k = panicked m

abbrev pub ◌>>◌ : {B : Type 0} → Start (Unit {0}) → Start B → Start B
m >> k = m >>= λ _. k

-- The variables of the process; one that is not set is empty.
abbrev pub Vars : Type 0
Vars = Text → Text

unfoldable pub must_env : Vars → Text → Start Text
must_env vars k = if vars k == [] then panicked (codes "missing env: " ++ k) else started (vars k)

unfoldable pub get_env : Vars → Text → Text → Text
get_env vars k default = if vars k == [] then default else vars k

abbrev pub not_blank : List Text → List Text
not_blank [] = []
not_blank (p ∷ ps) =
    let rest = not_blank ps in if trim_space p == [] then rest else trim_space p ∷ rest

-- `splitCSV`
unfoldable pub split_csv : Text → List Text
unfolding split trim_space
split_csv [] = []
split_csv (c ∷ s) = not_blank (split b',' (c ∷ s))

-- What the package flag makes of arguments: the flag `-migrate`, a call for help, or an error.
pub data Flags : Type 0 where
  with_migrate : Bool → Flags
  help_asked bad_flags : Flags

-- `flag.ExitOnError`
unfoldable pub parsed_flags : Flags → Start Bool
parsed_flags (with_migrate b) = started b
parsed_flags help_asked = exited 0
parsed_flags bad_flags = exited 2

-- What the program calls of its libraries: `time.ParseDuration` in nanoseconds, the flags of `serve`,
-- opening a pool or a file, goose with a dialect and a directory; none is success.
pub record Outside : Type 0 where
  pub parse_duration : Text → Option ℤ
  pub parse_flags : List Text → Flags
  pub open_pool : Text → Option Text
  pub open_file : Text → Option Text
  pub goose_up : Text → Text → Option Text
  pub entry : ℕ → Text → Text
  pub json : Text → Option Text
  pub format_time : ℕ → Text

abbrev pub positive_or : ℕ → Option ℤ → ℕ
positive_or d (some (pos (suc n))) = suc n
positive_or d _ = d

abbrev pub parsed : Outside → Text → Option ℤ
parsed o [] = none
parsed o (c ∷ t) = o.parse_duration (c ∷ t)

-- `jobLockDuration`
unfoldable pub job_lock_duration : Outside → Vars → ℕ
job_lock_duration o vars = positive_or (30 * second) (parsed o (vars (codes "JOB_LOCK_DURATION")))

abbrev pub or_second : Option ℤ → ℤ
or_second none = pos second
or_second (some d) = d

-- `time.NewTicker` panics on an interval that is not positive.
abbrev pub new_ticker : ℤ → Start ℕ
new_ticker (pos (suc n)) = started (suc n)
new_ticker _ = panicked (codes "non-positive interval for NewTicker")

-- The interval of `cmdScheduler`, and its ticker.
unfoldable pub scheduler_ticker : Outside → Vars → Start ℕ
scheduler_ticker o vars = new_ticker (or_second (parsed o (vars (codes "SCHEDULER_INTERVAL"))))

pub record Backend : Type 0 where
  pub dialect : Dialect
  pub driver : Driver

abbrev pub opened : Option Text → Backend → Start Backend
opened none b = started b
opened (some m) b = failed_with m

-- `openBackend`
unfoldable pub open_backend : Outside → Vars → Text → Start Backend
unfolding from_dsn strip_sqlite_prefix job_lock_duration
open_backend o vars dsn =
    let lock = job_lock_duration o vars in
    elim (from_dsn dsn) [
      | none ↦ failed_with (codes "unknown database dialect for DSN: " ++ dsn)
      | some postgres ↦ opened (o.open_pool dsn) (record {
        dialect = postgres;
        driver = pg_driver (record { lock_duration = lock; entry = o.entry });
      })
      | some sqlite ↦
          opened
            (o.open_file (
              strip_sqlite_prefix dsn
              ++ codes "?_pragma=foreign_keys(1)&_pragma=journal_mode(WAL)"))
            (record {
              dialect = sqlite;
              driver =
                  sqlite_driver
                    (record { lock_duration = lock; json = o.json; format_time = o.format_time });
            })
    ]

-- `Migrate`
unfoldable pub migrate : Outside → Dialect → Option Text
migrate o postgres = o.goose_up (codes "postgres") (codes "migrations/postgres")
migrate o sqlite = o.goose_up (codes "sqlite3") (codes "migrations/sqlite")

abbrev pub migrated : Option Text → Start (Unit {0})
migrated none = started tt
migrated (some m) = failed_with (codes "migrate: " ++ m)

-- `runMigrations`
unfoldable pub run_migrations : Outside → Backend → Start (Unit {0})
unfolding migrate
run_migrations o b = migrated (migrate o b.dialect)

-- `cmdMigrate`
unfoldable pub cmd_migrate : Outside → Vars → Start (Unit {0})
unfolding must_env open_backend run_migrations
cmd_migrate o vars = do
  dsn ← must_env vars (codes "DATABASE_URL")
  b ← open_backend o vars dsn
  run_migrations o b

-- `cmdScheduler`, up to its loop.
unfoldable pub start_scheduler : Outside → Vars → Start (Backend × ℕ)
unfolding must_env open_backend scheduler_ticker
start_scheduler o vars = do
  dsn ← must_env vars (codes "DATABASE_URL")
  b ← open_backend o vars dsn
  interval ← scheduler_ticker o vars
  started (b, interval)
