-- ===== src/Lib.antt =====
-- A model of stevy, a job queue server, and what is proved of it.
--
-- The program keeps jobs, queues, workers, users and API keys in a database, PostgreSQL or SQLite.
-- Clients create jobs over RPC, workers claim them, send heartbeats, and complete or fail them. A
-- scheduler process makes due jobs available and fails those whose lock has expired. The interface
-- `Driver` (internal/service/driver.go) stands between the handlers and the two databases.
--
-- The parts and their files:
--   * Base: numbers, lists, a stable sort, texts as lists of bytes, the functions of Go's package strings
--     that the program calls (Trim), and the runes that `for ... range` makes of a text (Utf8), where
--     bytes that are no UTF-8 become U+FFFD.
--   * Store: the tables (internal/db/migrations) as a record of lists of rows, the rows that a driver
--     returns, the errors, and a call as a function from a store to a result and a store. `Env` holds
--     what a call meets outside: the clocks, the statements that fail, a new id, rows that others lock.
--   * Jobs, Statements: the SQL of both drivers. Jobs has a function for each SET and WHERE clause
--     (`fail_row`, `where_expired`, ...), Jobs/Select and Jobs/Queries the SELECT statements, Statements
--     the statements as calls. Jobs/Moves says what a call may do to the table.
--   * Postgres, Sqlite: the operations of `PGDriver` and `SQLiteDriver` (internal/service/driver_pg.go,
--     driver_sqlite.go), one definition for each method under its name in snake case; those that only
--     read stand in Reads, and Contract puts them together as a `Driver`.
--   * JsonString: `jsonString` and `buildErrorEntry` of driver_sqlite.go.
--   * Driver: the interface, calls in a sequence, and the contracts of a driver, for the table
--     (Contract) and for the calls by id (ById). The handlers and the scheduler take a `Driver` as an
--     argument.
--   * Service: the handlers of internal/service/job.go (Jobs, Backoff) and queue.go (Queues).
--   * Keys: internal/db/db.go, with `ListWorkers` in Keys/Workers.
--   * Auth: internal/auth, session.go (Auth, Sessions, Signature), middleware.go (Auth), oauth.go (Auth,
--     Oauth, Config) and apikey.go (KeyHandlers).
--   * Http: responses, and handlers as functions from a store to a response and a store.
--   * Web: the handlers of internal/web/web.go; Pages has those that show a page, which is the data that
--     its template gets, Workers those that the pages' scripts call, Render what is sent of a template.
--   * Site: the routes of the pages, of their scripts and of the API keys that `cmdServe` registers, each
--     with its handler, and the handlers of a server that Cmd/Serve made (Server). The handlers of the
--     sign-in's routes are in Auth/Oauth. Rpc: an RPC through the interceptor
--     (internal/auth/middleware.go), the validation (internal/middleware/validate.go) and the handler.
--   * Cmd: the command line, the environment and the opening of a backend (cmd/stevy/main.go), and
--     `Migrate` (internal/db/migrate.go). Cmd/Serve has `cmdServe`: the configuration that it makes of
--     the environment, the patterns that it registers, and the server that it listens with;
--     Cmd/Conditions what it needs for that.
--   * Dialect: internal/dialect/dialect.go.
--   * Scheduler: the loop of `cmdScheduler` (cmd/stevy/main.go) and `RunScheduler`
--     (internal/web/web.go).
--   * Tests: runs and laws at concrete inputs.
--
-- How the model stands to the code:
--   * A statement is one step: it fails and changes nothing, or it does what its text says. Calls that
--     run at the same time are an order of such calls; rows that another transaction holds are the ones
--     that `is_locked` names, which SKIP LOCKED passes over.
--   * A call reads the database's clock once. Stored times count seconds in SQLite and microseconds in
--     PostgreSQL, Go's times nanoseconds. They are natural numbers, so no time is before the epoch.
--   * Numbers of Go are natural numbers or integers; where the code can overflow (the backoff, the
--     delay, the int parameter of PostgreSQL, int32 fields) the width is written out.
--   * Where ORDER BY leaves rows level, they keep the table's order. Texts compare by bytes.
--   * No operation runs on fuel: loops go over the rows, and the scheduler's over a list of ticks.
--     `follow` (Web/Paging), which goes from page to page, has fuel for one page more than there are jobs;
--     each page but the last shows a job or more, so that is enough.
--   * Parameters: JSON and its Go mapping, hashes and HMAC, random bytes and numbers, the format of a
--     time, the decimal text of a number, durations' texts and flags, the OAuth provider, the rules of
--     a message, the libraries that open and migrate a database, the validator's making, the patterns
--     that `http.ServeMux` refuses, the files of `public`, and the templates' output.
--   * A request's calls of the database each have an environment of their own where there are several.
--   * SQLite refuses the statement of `ClaimJob` as the source has it (UPDATE inside WITH). The model
--     has the meaning that the text aims at; the refusal is a statement that fails.
--
-- Not modelled: a result set that breaks off in the middle, what the templates make of their data, the
-- bytes of static files, the logs, signals and the shutdown of the server, the REST gateway and the
-- match of a request with a route's pattern, which are calls of libraries, input and output, or both.
pub mod Base
pub mod Store
pub mod Jobs
pub mod Statements
pub mod JsonString
pub mod Sqlite
pub mod Postgres
pub mod Driver
pub mod Service
pub mod Dialect
pub mod Http
pub mod Keys
pub mod Auth
pub mod Scheduler
pub mod Web
pub mod Site
pub mod Rpc
pub mod Cmd
pub mod Tests
