-- ===== src/Tests/Services.antt =====
-- The laws of keys, handlers and the scheduler at concrete inputs.
use stevy.Service.Backoff.{Meta}
use stevy.Base.{
  if◌then◌else◌, ◌==◌, Option, ◌*◌, ◌≤◌, ◌≡◌, refl, true, false, none, some, List, [], ◌∷◌, ◌++◌,
  drop, length, All, pos, arith,
}
use stevy.Base.Text.{Text, codes, text_discrete, has_prefix, text_eq}
use stevy.Store.{status_text, Job, Worker, Store, JobRow, CreateOpts, ok}
use stevy.Auth.{intercept, is_worker_method, as_worker, check_token}
use stevy.Auth.Laws.{intercept-as_worker}
use stevy.Jobs.{has_id, find_row}
use stevy.Jobs.Select.{limit_or}
use stevy.JsonString.{nat_eq}
use stevy.Keys.{find_worker, lookup_worker_key}
use stevy.Postgres.{claim_job, scan_job_row, create_job}
use stevy.Postgres.Contract.{pg_driver}
use stevy.Postgres.Ready.{claim_job-create_job}
use stevy.Postgres.Created.{get_job-create_job}
use stevy.Postgres.Listing.{IsListed, NewestFirst, list_jobs-page}
use stevy.Postgres.Reads.{get_job, list_jobs}
use stevy.Scheduler.{run_scheduler}
use stevy.Scheduler.Pass.{run_scheduler-running}
use stevy.Service.{reply, refuse, internal}
use stevy.Service.Jobs.{BackoffOptions, Codec, fail_job}
use stevy.Service.Overflow.{fail_job-refused}
use stevy.Service.Queues.{get_queue}
use stevy.Service.Stats.{stats_of, get_queue-stats}
use stevy.Statements.{insert_job, new_job, touch_queue, is_paused}
use stevy.Tests.{no_fault, pg, waiting, worked, tables, mail, mail-Distinct}

-- A worker with the key `stw_1`, whose hash is the key itself.
abbrev pub hash : Text → Text
hash t = t

abbrev pub keyed : Store
keyed = record mail {
  workers =
      record {
        id = codes "w1";
        name = codes "one";
        key_hash = codes "stw_1";
        key_prefix = codes "stw_1";
        created_by = some (codes "u");
        created_at = 0;
        last_seen_at = none;
      }
      ∷ [];
}

abbrev claim_procedure : Text
claim_procedure = codes "/stevy.v1.JobService/ClaimJob"

passes :
    (intercept hash no_fault claim_procedure (codes "Bearer stw_1") keyed).0
    ≡ as_worker (codes "w1")
unfolding intercept check_token is_worker_method lookup_worker_key find_worker text_discrete
passes = refl

intercept-as_worker_example :
    (has_prefix (codes "Bearer stw_1") (codes "Bearer ") ≡ true)
    × (is_worker_method claim_procedure ≡ true)
    × (has_prefix (drop 7 (codes "Bearer stw_1")) (codes "stw_") ≡ true)
    × ((w : Worker) × (find_worker (hash (drop 7 (codes "Bearer stw_1"))) keyed.workers ≡ some w)
        × (w.id ≡ codes "w1"))
intercept-as_worker_example =
    intercept-as_worker hash no_fault claim_procedure (codes "Bearer stw_1") (codes "w1") keyed
      passes

-- What `CreateJob` writes for exponential backoff with a delay of a second, and a codec that reads it.
abbrev second_doubled : Text
second_doubled =
    codes "{\"backoff_delay\":1000,\"backoff_jitter\":false,\"backoff_type\":\"exponential\"}"

abbrev encoded : Option BackoffOptions → Text
encoded none = codes "{}"
encoded (some o) = second_doubled

abbrev decoded : Text → Meta
decoded t =
    if t == second_doubled
    then record {
      backoff_type = codes "exponential";
      jitter = false;
      backoff_delay = some (pos 1000);
    }
    else record { backoff_type = []; jitter = false; backoff_delay = none }

abbrev pub doubling : Codec Text
doubling = record {
  empty = [];
  marshal = λ t. t;
  unmarshal = λ t. some t;
  encode_meta = encoded;
  decode_meta = decoded;
  decode_entry = λ t. none;
  entry_message = λ t. t;
  intn = λ n. 0;
  past_int64 = λ k. pos 0;
}

abbrev tried : Job
tried = record (worked (codes "01R")) { attempt = 23; metadata = second_doubled }

tried_found : find_row (has_id (codes "01R")) (tables (tried ∷ [])).jobs ≡ some tried
unfolding find_row has_id text_discrete
tried_found = refl

tried_type : (doubling.decode_meta tried.metadata).backoff_type ≡ codes "exponential"
unfolding text_discrete
tried_type = refl

tried_delay : (doubling.decode_meta tried.metadata).backoff_delay ≡ some (pos 1000)
unfolding text_discrete
tried_delay = refl

tried_plain : (doubling.decode_meta tried.metadata).jitter ≡ false
unfolding text_discrete
tried_plain = refl

fail_job-refused_example :
    fail_job doubling
      (pg_driver pg)
      no_fault
      no_fault
      (codes "01R")
      (codes "no")
      (tables (tried ∷ []))
    ≡ (refuse internal, tables (tried ∷ []))
fail_job-refused_example =
    fail_job-refused doubling pg no_fault no_fault (tables (tried ∷ [])) tried refl tried_found
      (codes "no") 22 1000 (λ e. ground arith) refl tried_type tried_delay tried_plain (omega arith)
      (omega arith) (omega arith)

abbrev asked : CreateOpts
asked = record {
  queue = codes "mail";
  kind = codes "send";
  payload = codes "{}";
  metadata = codes "{}";
  max_attempts = 0;
  priority = 0;
  scheduled_at = none;
  pending = false;
}

abbrev made : JobRow
made = scan_job_row (record (waiting (codes "01C") 1) { created_at = 1000; scheduled_at = 1000 })

abbrev mail_made : Store
mail_made = record mail {
  jobs =
      mail.jobs
      ++ (record (waiting (codes "01C") 1) { created_at = 1000; scheduled_at = 1000 } ∷ []);
  queues =
      record { name = codes "mail"; paused_at = none; created_at = 1000; updated_at = 1000 } ∷ [];
}

job_created : create_job pg no_fault asked mail ≡ (ok made, mail_made)
unfolding create_job insert_job new_job touch_queue scan_job_row find_row has_id text_discrete
job_created = refl

get_job-create_job_example : get_job no_fault made.id mail_made ≡ (ok made, mail_made)
get_job-create_job_example =
    get_job-create_job no_fault refl pg no_fault asked mail mail_made made job_created

shown_available : made.status ≡ codes "available"
unfolding scan_job_row status_text
shown_available = refl

time_come : made.scheduled_at ≤ 1000 * 1000
unfolding scan_job_row
time_come = omega arith

not_paused : is_paused made.queue mail_made.queues ≡ false
unfolding is_paused text_discrete scan_job_row
not_paused = refl

claim_job-create_job_example :
    (got : JobRow) × ((claim_job pg no_fault made.queue (codes "w") mail_made).0 ≡ ok (some got))
claim_job-create_job_example =
    claim_job-create_job pg no_fault no_fault asked (codes "w") mail mail_made made mail-Distinct
      job_created shown_available time_come not_paused refl refl refl

get_queue-stats_example : get_queue (pg_driver pg) no_fault (codes "mail") mail ≡ (
  reply (record {
    name = codes "mail";
    paused = is_paused (codes "mail") [];
    stats = stats_of (codes "mail") mail.jobs;
  }),
  mail,
)
get_queue-stats_example = get_queue-stats pg no_fault (codes "mail") mail refl refl (omega arith)

list_jobs-page_example :
    (rows : List JobRow) × (list_jobs no_fault (codes "mail") [] (pos 2) (codes "01R") mail
      ≡ (ok rows, mail))
    × (length rows ≤ limit_or 50 (pos 2))
    × NewestFirst rows
    × All (IsListed (codes "mail") [] (codes "01R")) rows
list_jobs-page_example = list_jobs-page no_fault (codes "mail") [] (codes "01R") (pos 2) mail refl

found_worked : find_row (has_id (codes "01R")) mail.jobs ≡ some (worked (codes "01R"))
unfolding find_row has_id text_discrete
found_worked = refl

run_scheduler-running_example :
    find_row (has_id (codes "01R")) (run_scheduler (pg_driver pg) no_fault mail).1.jobs
    ≡ some (worked (codes "01R"))
run_scheduler-running_example =
    run_scheduler-running pg no_fault mail (codes "01R") (worked (codes "01R")) mail-Distinct
      found_worked refl
