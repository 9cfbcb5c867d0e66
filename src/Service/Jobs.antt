-- ===== src/Service/Jobs.antt =====
-- The handlers of `JobService` in internal/service/job.go.
use stevy.Base.{
  ℕ, zero, suc, ◌+◌, ◌-◌, ◌%◌, ◌^◌, Bool, false, Option, none, some, List, [], ◌∷◌, map, length,
  take, ltb, if◌then◌else◌, ℤ, pos, negsuc, pos_part,
}
use stevy.Base.Text.{Text, text_eq}
use stevy.Driver.{Driver}
use stevy.Service.{panicked, Rpc, answer, reject, ◌>>=◌, map_err, to_internal, call, parse_job_id}
use stevy.Service.Backoff.{Meta, mul64, backoff_ms, with_jitter, clamp_priority}
use stevy.Statements.{map_option}
use stevy.Store.{JobRow, CreateOpts, Env}

pub record BackoffOptions : Type 0 where
  pub type : Text
  pub delay : ℤ
  pub jitter : Bool

-- `JobOptions` of proto/stevy/v1/job.proto, as the handler reads it.
pub record JobOptions : Type 0 where
  pub pending : Bool
  pub delay : ℤ  -- milliseconds
  pub attempts : ℤ
  pub priority : ℤ
  pub backoff : Option BackoffOptions

pub record AttemptError : Type 0 where
  pub at : ℕ
  pub message : Text

-- The JSON and randomness that the handlers use, over the type of `structpb.Struct`.
pub record Codec (Struct : Type 0) : Type 0 where
  pub empty : Struct
  pub marshal : Struct → Text
  pub unmarshal : Text → Option Struct
  pub encode_meta : Option BackoffOptions → Text
  pub decode_meta : Text → Meta
  pub decode_entry : Text → Option AttemptError
  pub entry_message : Text → Text
  pub intn : ℕ → ℕ
  pub past_int64 : ℕ → ℤ

-- The message `Job`. Times are instants in nanoseconds; int32 fields are their bit patterns.
pub record JobMessage (Struct : Type 0) : Type 0 where
  pub id : Text
  pub queue : Text
  pub kind : Text
  pub payload : Struct
  pub status : Text
  pub attempt : ℕ
  pub progress : ℕ
  pub errors : List AttemptError
  pub result : Option Struct
  pub created_at : ℕ
  pub scheduled_at : Option ℕ
  pub attempted_at : Option ℕ
  pub finalized_at : Option ℕ

pub record JobState : Type 0 where
  pub status : Text
  pub progress : ℕ
  pub error : Option Text

-- `json.Unmarshal` of the whole array: one bad entry and there is none.
unfoldable pub decode_all : (Text → Option AttemptError) → List Text → Option (List AttemptError)
decode_all decode [] = some []
decode_all decode (t ∷ ts) =
    let rest = decode_all decode ts in
    elim (decode t) [ none ↦ none | some a ↦ map_option (◌∷◌ a) rest ]

abbrev pub or_nil : Option (List AttemptError) → List AttemptError
or_nil none = []
or_nil (some es) = es

unfoldable pub last_error : (Text → Text) → List Text → Text
last_error message [] = []
last_error message (t ∷ []) = message t
last_error message (t ∷ u ∷ ts) = last_error message (u ∷ ts)

-- `len(row.ResultJSON) > 0`, then `json.Unmarshal`.
abbrev pub result_of : {S : Type 0} → (Text → Option S) → Option Text → Option S
result_of unmarshal none = none
result_of unmarshal (some []) = none
result_of unmarshal (some (c ∷ t)) = unmarshal (c ∷ t)

abbrev pub or_else_struct : {S : Type 0} → S → Option S → S
or_else_struct d none = d
or_else_struct d (some s) = s

-- `time.Now().Add(…)` of a duration in nanoseconds, which is an int64 and wraps.
abbrev pub add_duration : ℕ → ℤ → ℕ
add_duration now (pos n) = now + n
add_duration now (negsuc k) = now - (k + 1)

abbrev pub delayed : ℕ → ℤ → Option ℕ
delayed now (pos (suc n)) = some (add_duration now (mul64 (pos (suc n)) (pos 1000000)))
delayed now _ = none

abbrev pub priority_of : ℤ → ℕ
priority_of (pos (suc n)) = clamp_priority (suc n)
priority_of _ = 0

module _ {Struct : Type 0} (codec : Codec Struct) (d : Driver) where
  open codec use {empty, marshal, unmarshal, decode_meta, intn, past_int64}

  unfoldable pub row_to_proto : JobRow → JobMessage Struct
  unfolding decode_all
  row_to_proto r = record {
    id = r.id;
    queue = r.queue;
    kind = r.kind;
    payload = or_else_struct empty (unmarshal r.payload);
    status = r.status;
    attempt = r.attempt % 2 ^ 32;
    progress = r.progress % 2 ^ 32;
    errors = or_nil (decode_all codec.decode_entry r.errors);
    result = result_of unmarshal r.result;
    created_at = r.created_at;
    scheduled_at = some r.scheduled_at;
    attempted_at = r.attempted_at;
    finalized_at = r.finalized_at;
  }

  unfoldable pub create_opts : ℕ → Text → Text → Struct → Option JobOptions → CreateOpts
  unfolding clamp_priority mul64
  create_opts now queue kind payload none = record {
    queue = queue;
    kind = kind;
    payload = marshal payload;
    metadata = codec.encode_meta none;
    max_attempts = 0;
    priority = 0;
    scheduled_at = none;
    pending = false;
  }
  create_opts now queue kind payload (some jo) = record {
    queue = queue;
    kind = kind;
    payload = marshal payload;
    metadata = codec.encode_meta jo.backoff;
    max_attempts = pos_part jo.attempts;
    priority = priority_of jo.priority;
    scheduled_at = delayed now jo.delay;
    pending = jo.pending;
  }

  -- `now` is the handler's own reading of the clock.
  unfoldable pub create_job :
      ℕ → Env → Text → Text → Struct → Option JobOptions → Rpc (JobMessage Struct)
  unfolding create_opts row_to_proto
  create_job now e queue kind payload options = do
    row ← call to_internal (d.create_job e (create_opts now queue kind payload options))
    answer (row_to_proto row)

  unfoldable pub claim_job : Env → Text → Text → Rpc (Option (JobMessage Struct))
  unfolding row_to_proto
  claim_job e worker queue = do
    row ← call to_internal (d.claim_job e queue worker)
    answer (map_option row_to_proto row)

  unfoldable pub complete_job : Env → Text → Struct → Rpc (Unit {0})
  unfolding parse_job_id map_err
  complete_job e id result = do
    id ← parse_job_id id
    call map_err (d.complete_job e id (marshal result))

  abbrev pub or_panic : Option ℤ → Rpc ℤ
  or_panic none = reject panicked
  or_panic (some ms) = answer ms

  unfoldable pub compute_backoff_ms : Env → Text → Rpc ℤ
  unfolding backoff_ms with_jitter
  compute_backoff_ms e id = do
    row ← call to_internal (d.get_job e id)
    let meta = decode_meta row.metadata
    or_panic (with_jitter intn meta.jitter (backoff_ms past_int64 meta row.attempt))

  -- The driver is called twice, in two environments.
  unfoldable pub fail_job : Env → Env → Text → Text → Rpc (Unit {0})
  unfolding parse_job_id compute_backoff_ms map_err
  fail_job e e' id message = do
    id ← parse_job_id id
    ms ← compute_backoff_ms e id
    call map_err (d.fail_job e' id message ms)

  unfoldable pub heartbeat_job : Env → Text → Option ℤ → Rpc (Unit {0})
  unfolding parse_job_id map_err
  heartbeat_job e id progress = do
    id ← parse_job_id id
    call map_err (d.heartbeat_job e id progress)

  unfoldable pub cancel_job : Env → Text → Rpc (Unit {0})
  unfolding parse_job_id map_err
  cancel_job e id = do id ← parse_job_id id; call map_err (d.cancel_job e id)

  unfoldable pub promote_job : Env → Text → Rpc (Unit {0})
  unfolding parse_job_id map_err
  promote_job e id = do id ← parse_job_id id; call map_err (d.promote_job e id)

  unfoldable pub get_job : Env → Text → Rpc (JobMessage Struct)
  unfolding parse_job_id map_err row_to_proto
  get_job e id = do
    id ← parse_job_id id
    row ← call map_err (d.get_job e id)
    answer (row_to_proto row)

  abbrev pub given_error : Text → Option Text
  given_error [] = none
  given_error (c ∷ t) = some (c ∷ t)

  unfoldable pub get_job_state : Env → Text → Rpc JobState
  unfolding parse_job_id map_err last_error
  get_job_state e id = do
    id ← parse_job_id id
    row ← call map_err (d.get_job_status e id)
    answer (record {
      status = row.status;
      progress = row.progress % 2 ^ 32;
      error = given_error (last_error codec.entry_message row.errors);
    })

  abbrev pub default_limit : ℤ → ℤ
  default_limit (pos zero) = pos 50
  default_limit (pos (suc n)) = pos (suc n)
  default_limit (negsuc n) = negsuc n

  abbrev pub one_more : ℤ → ℤ
  one_more (pos n) = pos (n + 1)
  one_more (negsuc zero) = pos 0
  one_more (negsuc (suc n)) = negsuc n

  -- `if len(rows) > limit { rows = rows[:limit] }`; a negative bound panics.
  abbrev pub cut : ℤ → List JobRow → Rpc (List JobRow)
  cut (pos n) rows = answer (if ltb n (length rows) then take n rows else rows)
  cut (negsuc n) rows = reject panicked

  unfoldable pub list_jobs : Env → Text → Text → ℤ → Text → Rpc (List (JobMessage Struct))
  unfolding row_to_proto
  list_jobs e queue status limit after = do
    let n = default_limit limit
    rows ← call to_internal (d.list_jobs e queue status (one_more n) after)
    rows ← cut n rows
    answer (map row_to_proto rows)
