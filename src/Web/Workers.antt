-- ===== src/Web/Workers.antt =====
-- The handlers of internal/web/web.go that the pages' scripts call: workers, queues, the scheduler.
use stevy.Base.{
  ℕ, ◌-◌, ◌*◌, Bool, false, Option, none, some, List, [], map, ltb, if◌then◌else◌, ◌==◌,
}
use stevy.Base.Text.{Text, codes, text_eq}
use stevy.Auth.{user_id}
use stevy.Auth.KeyHandlers.{with_user_id, with_text}
use stevy.Base.Trim.{trim_space}
use stevy.Driver.{Driver}
use stevy.Http.{says, problem, redirect, answer, no_content, Handler, respond, try_call}
use stevy.Keys.{create_worker_key, delete_worker}
use stevy.Keys.Workers.{WorkerSummary, list_workers}
use stevy.Scheduler.{run_scheduler}
use stevy.Store.{Env}

pub record WorkerRow : Type 0 where
  pub id : Text
  pub name : Text
  pub created_by : Text
  pub created_at : Text
  pub last_seen_at : Text
  pub active : Bool

pub record NewWorker : Type 0 where
  pub id : Text
  pub name : Text
  pub key : Text

pub data Body : Type 0 where
  worker_rows : List WorkerRow → Body
  new_worker : NewWorker → Body
  promoted : ℕ → Body

-- Times of rows count `unit` nanoseconds; `now` counts nanoseconds.
module _ (date_time : ℕ → Text) (unit now : ℕ) where
  -- `time.Since(…) < 90*time.Second`; a time that is still to come is active.
  abbrev pub is_active : ℕ → Bool
  is_active seen = ltb (now - seen * unit) (90 * 1000000000)

  abbrev pub seen_text : Option ℕ → Text
  seen_text none = []
  seen_text (some t) = date_time (t * unit)

  abbrev pub seen_active : Option ℕ → Bool
  seen_active none = false
  seen_active (some t) = is_active t

  abbrev pub worker_row : WorkerSummary → WorkerRow
  worker_row w = record {
    id = w.id;
    name = w.name;
    created_by = w.created_by;
    created_at = date_time (w.created_at * unit);
    last_seen_at = seen_text w.last_seen_at;
    active = seen_active w.last_seen_at;
  }

abbrev pub worker_body : Text → Text × Text → Body
worker_body name (id, plaintext) = new_worker (record { id = id; name = name; key = plaintext })

module _ (sign : Text → Text) (e : Env) (cookie : Option Text) where
  -- `WorkersJSON`
  unfoldable pub workers_json : (ℕ → Text) → ℕ → ℕ → Handler Body
  unfolding user_id list_workers
  workers_json date_time unit now = with_user_id (user_id sign cookie) λ _.
      try_call 500 (list_workers e)
        λ ws. respond (answer 200 (worker_rows (map (worker_row date_time unit now) ws)))

  -- `CreateWorker`
  unfoldable pub create_worker : (Text → Text) → Option Text → Option Text → Handler Body
  unfolding user_id create_worker_key trim_space
  create_worker hash random body = with_user_id (user_id sign cookie) λ user.
      with_text (codes "name required") body λ name.
        try_call 500 (create_worker_key hash e random user name)
          λ made. respond (answer 201 (worker_body name made))

  -- `DeleteWorker`
  unfoldable pub remove_worker : Text → Handler Body
  unfolding user_id delete_worker
  remove_worker id = with_user_id (user_id sign cookie) λ user.
      if id == []
      then respond (problem 400 (says (codes "invalid id")))
      else try_call 404 (delete_worker e user id) λ _. respond no_content

  -- `PauseQueue`
  unfoldable pub web_pause_queue : Driver → Text → Handler Body
  unfolding user_id
  web_pause_queue d name =
      with_user_id (user_id sign cookie)
        λ _. try_call 500 (d.pause_queue e name) λ _. respond (redirect 303 (codes "/queues"))

  -- `ResumeQueue`
  unfoldable pub web_resume_queue : Driver → Text → Handler Body
  unfolding user_id
  web_resume_queue d name =
      with_user_id (user_id sign cookie)
        λ _. try_call 500 (d.resume_queue e name) λ _. respond (redirect 303 (codes "/queues"))

-- `RunScheduler`, which asks for no session.
unfoldable pub web_run_scheduler : Driver → Env → Handler Body
unfolding run_scheduler
web_run_scheduler d e = try_call 500 (run_scheduler d e) λ n. respond (answer 200 (promoted n))
