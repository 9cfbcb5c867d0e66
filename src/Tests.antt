-- ===== src/Tests.antt =====
-- A small database and the configurations that the tests run on.
mod Claims
mod Outcomes
mod Histories
mod Services
mod Texts
mod Access
mod Pages
mod Wire
mod Attempts
mod Keys
mod Serving
mod Shuffled
use stevy.Base.{Bool, true, false, Option, none, some, List, [], ◌∷◌, ℕ, refl, ◌==◌}
use stevy.Base.Text.{Text, codes, text_discrete, text_eq}
use stevy.Jobs.{find_row, has_id}
use stevy.Jobs.Keys.{Distinct}
use stevy.Postgres.{Config as PgConfig}
use stevy.Sqlite.{Config as LiteConfig}
use stevy.Postgres.Contract.{pg_driver}
use stevy.Site.{Site}
use stevy.Web.Pages.{Formats}
use stevy.Store.{available, running, Job, Store, Env}

abbrev pub no_fault : Env
no_fault = record {
  now = 1000;
  go_now = λ _. 1000000;
  fault = λ _. none;
  new_id = some (codes "01C");
  is_locked = λ _. false;
}

abbrev pub pg : PgConfig
pg = record { lock_duration = 300000000000; entry = λ at msg. msg }

abbrev pub lite : LiteConfig
lite = record { lock_duration = 300000000000; json = λ t. some t; format_time = λ t. codes "t" }

abbrev pub waiting : Text → ℕ → Job
waiting id priority = record {
  id = id;
  queue = codes "mail";
  kind = codes "send";
  status = available;
  priority = priority;
  attempt = 0;
  max_attempts = 25;
  progress = 0;
  payload = codes "{}";
  metadata = codes "{}";
  result = none;
  errors = [];
  attempted_by = [];
  created_at = 5;
  scheduled_at = 5;
  attempted_at = none;
  finalized_at = none;
  lock_expires_at = none;
}

-- A job that runs, with its lock expired at 1000.
abbrev pub worked : Text → Job
worked id = record (waiting id 1) {
  status = running;
  attempt = 1;
  attempted_by = codes "w" ∷ [];
  attempted_at = some 6;
  lock_expires_at = some 900;
}

abbrev pub tables : List Job → Store
tables jobs = record {
  users =
      record {
        id = codes "u";
        google_id = codes "g";
        email = codes "a@b.c";
        name = codes "A";
        created_at = 0;
      }
      ∷ [];
  api_keys = [];
  jobs = jobs;
  queues = [];
  workers = [];
}

abbrev pub mail : Store
mail = tables (waiting (codes "01A") 2 ∷ waiting (codes "01B") 1 ∷ worked (codes "01R") ∷ [])

pub mail-Distinct : Distinct mail.jobs
unfolding find_row has_id text_discrete
mail-Distinct = (refl, (refl, (refl, tt)))

abbrev pub formats : Formats
formats = record {
  date_time = λ t. codes "t";
  indent_json = λ t. some t;
  decode_errors = λ errors. none;
}

abbrev pub site : Site
site = record {
  sign = λ t. t;
  hash = λ t. t;
  driver = pg_driver pg;
  formats = formats;
  hostname = codes "h";
  unit = 1000;
  now = 1000000;
  random = some (codes "2");
  first = no_fault;
  second = no_fault;
  third = no_fault;
}
