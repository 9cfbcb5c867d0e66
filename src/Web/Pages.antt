-- ===== src/Web/Pages.antt =====
-- The pages of internal/web/web.go.
mod Data
pub use Data.*
use stevy.Base.{
  ℕ, ◌+◌, ◌%◌, ◌^◌, Bool, not, Option, none, some, List, [], ◌∷◌, ◌++◌, map, take, length, ltb,
  if◌then◌else◌, ◌==◌, pos,
}
use stevy.Base.Text.{Text, codes, text_eq}
use stevy.Driver.{Driver}
use stevy.Http.{Response, says, problem, answer, Handler, respond}
use stevy.Jobs.Queries.{Counts, count_of}
use stevy.Statements.Reads.{QueueSummary}
use stevy.Store.{Store, User, JobRow, Env, Result, ok, err}
use stevy.Web.{valid_status, current_user, continue_as, require_user}

abbrev pub page_size : ℕ
page_size = 50

abbrev pub last_id : List JobRow → Text
last_id [] = []
last_id (j ∷ []) = j.id
last_id (j ∷ k ∷ js) = last_id (k ∷ js)

-- What the page shows of the rows, one of which may be more than a page.
abbrev pub shown : List JobRow → List JobRow
shown jobs = if ltb page_size (length jobs) then take page_size jobs else jobs

abbrev pub next_cursor_of : List JobRow → Text
next_cursor_of jobs = if ltb page_size (length jobs) then last_id (take page_size jobs) else []

-- The sum of the map's values, in int32.
abbrev pub total : Counts → ℕ
total [] = 0
total ((key, n) ∷ rest) = (n + total rest) % 2 ^ 32

abbrev pub ok_or : {A : Type 0} → A → Result A → A
ok_or d (ok a) = a
ok_or d (err e) = d

abbrev pub filter_of : Text → Text
filter_of status = if valid_status status then status else []

module _ (f : Formats) where
  abbrev pub list_row : JobRow → JobListRow
  list_row j = record {
    id = j.id;
    queue = j.queue;
    kind = j.kind;
    status = j.status;
    created_at = f.date_time j.created_at;
  }

  abbrev pub jobs_data : User → Text → Text → Text → List JobRow → Counts → JobsPage
  jobs_data user hostname status after jobs counts = record {
    user = user;
    jobs = map list_row (shown jobs);
    status_filter = status;
    status_counts = counts;
    status_total = total counts;
    hostname = hostname;
    paged = not (after == []);
    next_cursor = next_cursor_of jobs;
  }

  -- Errors of the two queries leave their part of the page empty.
  abbrev pub jobs_of : Driver → Env → Env → Text → Text → Text → User → Handler Page
  jobs_of d e e' hostname status after user s =
      let (jobs, s') = d.list_jobs e [] status (pos (page_size + 1)) after s in
      let (counts, s'') = d.job_counts_by_status e' s' in
      (
        answer 200
            (jobs_page (jobs_data user hostname status after (ok_or [] jobs) (ok_or [] counts))),
        s'',
      )

  -- `Index`
  unfoldable pub index :
      (Text → Text)
      → Driver
      → Env
      → Env
      → Env
      → Text
      → Option Text
      → Text
      → Text
      → Text
      → Handler Page
  unfolding current_user valid_status
  index sign d e e' e'' hostname cookie path status after s =
      if path == codes "/"
      then continue_as (answer 200 login_page) (jobs_of d e' e'' hostname (filter_of status) after)
          (current_user sign e cookie s)
      else (problem 404 (says (codes "404 page not found")), s)

  abbrev pub or_blank : Option ℕ → Text
  or_blank none = []
  or_blank (some t) = f.date_time t

  abbrev pub or_given : Text → Option Text → Text
  or_given b none = b
  or_given b (some out) = out

  -- `prettyJSON`
  abbrev pub pretty_json : Text → Text
  pretty_json b = or_given b (f.indent_json b)

  abbrev pub pretty_or_blank : Text → Text
  pretty_or_blank [] = []
  pretty_or_blank (c ∷ t) = pretty_json (c ∷ t)

  abbrev pub result_text : Option Text → Text
  result_text none = []
  result_text (some t) = pretty_or_blank t

  abbrev pub entries_or_none : Option (List ErrorEntry) → List ErrorEntry
  entries_or_none none = []
  entries_or_none (some es) = es

  abbrev pub job_data : User → JobRow → JobPage
  job_data user row = record {
    user = user;
    title = codes "Job " ++ row.id;
    id = row.id;
    status = row.status;
    kind = row.kind;
    queue = row.queue;
    progress = row.progress % 2 ^ 32;
    attempt = row.attempt % 2 ^ 32;
    created_at = f.date_time row.created_at;
    attempted_at = or_blank row.attempted_at;
    finalized_at = or_blank row.finalized_at;
    result = result_text row.result;
    payload = pretty_or_blank row.payload;
    errors = entries_or_none (f.decode_errors row.errors);
  }

  abbrev pub show_job : User → Result JobRow × Store → Response Page × Store
  show_job user (err e, s) = (problem 404 (says (codes "404 page not found")), s)
  show_job user (ok row, s) = (answer 200 (job_page (job_data user row)), s)

  -- `JobPage`
  unfoldable pub show_job_page :
      (Text → Text) → Driver → Env → Env → Option Text → Text → Handler Page
  unfolding require_user
  show_job_page sign d e e' cookie id =
      require_user sign e cookie λ user s. show_job user (d.get_job e' id s)

abbrev pub queue_row : QueueSummary → QueueRow
queue_row q = record {
  name = q.name;
  paused = q.paused;
  available = count_of (codes "available") q.counts_by_status;
  running = count_of (codes "running") q.counts_by_status;
  scheduled = count_of (codes "scheduled") q.counts_by_status;
  retryable = count_of (codes "retryable") q.counts_by_status;
  completed = count_of (codes "completed") q.counts_by_status;
  discarded = count_of (codes "discarded") q.counts_by_status;
  cancelled = count_of (codes "cancelled") q.counts_by_status;
  pending = count_of (codes "pending") q.counts_by_status;
}

abbrev pub rows_of : Result (List QueueSummary) → List QueueRow
rows_of (ok qs) = map queue_row qs
rows_of (err e) = []

module _ (sign : Text → Text) (e : Env) (cookie : Option Text) where
  -- `QueuesPage`
  unfoldable pub show_queues_page : Driver → Env → Handler Page
  unfolding require_user count_of
  show_queues_page d e' = require_user sign e cookie λ user s.
      let (queues, s') = d.list_queues e' s in (answer 200 (queues_page user (rows_of queues)), s')

  -- `WorkersPage`
  unfoldable pub show_workers_page : Handler Page
  unfolding require_user
  show_workers_page = require_user sign e cookie λ user. respond (answer 200 (workers_page user))

  -- `KeysPage`
  unfoldable pub show_keys_page : Handler Page
  unfolding require_user
  show_keys_page = require_user sign e cookie λ user. respond (answer 200 (keys_page user))
