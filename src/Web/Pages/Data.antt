-- ===== src/Web/Pages/Data.antt =====
-- What the pages of internal/web/web.go show: the data that their templates get.
use stevy.Base.{ℕ, Bool, Option, List}
use stevy.Base.Text.{Text}
use stevy.Jobs.Queries.{Counts}
use stevy.Store.{User}

pub record JobListRow : Type 0 where
  pub id : Text
  pub queue : Text
  pub kind : Text
  pub status : Text
  pub created_at : Text

pub record QueueRow : Type 0 where
  pub name : Text
  pub paused : Bool
  pub available : ℕ
  pub running : ℕ
  pub scheduled : ℕ
  pub retryable : ℕ
  pub completed : ℕ
  pub discarded : ℕ
  pub cancelled : ℕ
  pub pending : ℕ

-- `pageData` of the page of jobs. The total is an int32 bit pattern.
pub record JobsPage : Type 0 where
  pub user : User
  pub jobs : List JobListRow
  pub status_filter : Text
  pub status_counts : Counts
  pub status_total : ℕ
  pub hostname : Text
  pub paged : Bool
  pub next_cursor : Text

pub record ErrorEntry : Type 0 where
  pub at : Text
  pub attempt : ℕ
  pub error : Text

-- `jobPageData`
pub record JobPage : Type 0 where
  pub user : User
  pub title : Text
  pub id : Text
  pub status : Text
  pub kind : Text
  pub queue : Text
  pub progress : ℕ
  pub attempt : ℕ
  pub created_at : Text
  pub attempted_at : Text
  pub finalized_at : Text
  pub result : Text
  pub payload : Text
  pub errors : List ErrorEntry

pub data Page : Type 0 where
  login_page : Page
  jobs_page : JobsPage → Page
  queues_page : User → List QueueRow → Page
  workers_page keys_page : User → Page
  job_page : JobPage → Page

-- Go's formats: a time in the local zone, JSON read and written with indents, none where that fails,
-- and the entries of a job's errors as the page's struct decodes them, none where they are no JSON for
-- it.
pub record Formats : Type 0 where
  pub date_time : ℕ → Text
  pub indent_json : Text → Option Text
  pub decode_errors : List Text → Option (List ErrorEntry)
