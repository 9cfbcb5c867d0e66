-- ===== src/Site.antt =====
-- The HTTP routes of the pages, of their scripts and of the API keys, as `cmdServe` (cmd/stevy/main.go)
-- and `RegisterRoutes` (internal/auth/apikey.go) register them: each with what its pattern matched, and
-- the handler that it leads to. The other routes of the server are not among them: the sign-in
-- (Auth/Oauth), the RPCs (Rpc), the REST gateway and the static files. Which pattern a request matches is
-- up to `http.ServeMux`.
pub mod Access
pub mod Server
use stevy.Base.{ℕ, Bool, true, false, Option, List, []}
use stevy.Base.Text.{Text, codes}
use stevy.Auth.KeyHandlers.{KeyBody, create_key, list_keys, delete_key}
use stevy.Driver.{Driver}
use stevy.Http.{Response, answer, problem, redirect, no_content, Handler}
use stevy.Store.{Store, Env}
use stevy.Web.Pages.{
  Page, Formats, index, show_job_page, show_queues_page, show_workers_page, show_keys_page,
}
use stevy.Web.Workers.{
  Body, workers_json, create_worker, remove_worker, web_pause_queue, web_resume_queue,
  web_run_scheduler,
}

pub data WebRoute : Type 0 where
  keys_create : Option Text → WebRoute
  keys_list : WebRoute
  keys_delete : Text → WebRoute
  scheduler_run : WebRoute
  queue_pause queue_resume : Text → WebRoute
  queues_get workers_get workers_list : WebRoute
  workers_create : Option Text → WebRoute
  workers_delete : Text → WebRoute
  keys_get : WebRoute
  job_get : Text → WebRoute
  home : Text → Text → Text → WebRoute

unfoldable pub pattern : WebRoute → Text
pattern (keys_create body) = codes "POST /keys"
pattern keys_list = codes "GET /keys/list"
pattern (keys_delete id) = codes "DELETE /keys/{id}"
pattern scheduler_run = codes "POST /scheduler/run"
pattern (queue_pause name) = codes "POST /queues/{name}/pause"
pattern (queue_resume name) = codes "POST /queues/{name}/resume"
pattern queues_get = codes "GET /queues"
pattern workers_get = codes "GET /workers"
pattern workers_list = codes "GET /workers/list"
pattern (workers_create body) = codes "POST /workers"
pattern (workers_delete id) = codes "DELETE /workers/{id}"
pattern keys_get = codes "GET /keys"
pattern (job_get id) = codes "GET /{id}"
pattern (home path status after) = codes "/"

pub data Shown : Type 0 where
  page : Page → Shown
  body : Body → Shown
  key_body : KeyBody → Shown

abbrev pub show_as : {A : Type 0} → (A → Shown) → Response A × Store → Response Shown × Store
show_as f (answer code a, s) = (answer code (f a), s)
show_as f (problem code r, s) = (problem code r, s)
show_as f (redirect code url, s) = (redirect code url, s)
show_as f (no_content, s) = (no_content, s)

-- What the handlers are made with, and what a request meets outside: the environments of its calls of
-- the database, the random text of a new key, and the time.
pub record Site : Type 0 where
  pub sign : Text → Text
  pub hash : Text → Text
  pub driver : Driver
  pub formats : Formats
  pub hostname : Text
  pub unit : ℕ
  pub now : ℕ
  pub random : Option Text
  pub first : Env
  pub second : Env
  pub third : Env

module _ (w : Site) (cookie : Option Text) where
  open w use {sign, hash, driver, formats, hostname, unit, now, random, first, second, third}

  unfoldable pub serve : WebRoute → Handler Shown
  unfolding create_key list_keys delete_key web_run_scheduler web_pause_queue web_resume_queue
      show_queues_page show_workers_page workers_json create_worker remove_worker show_keys_page
      show_job_page index
  serve (keys_create b) s = show_as key_body (create_key sign first cookie hash random b s)
  serve keys_list s = show_as key_body (list_keys sign first cookie s)
  serve (keys_delete id) s = show_as key_body (delete_key sign first cookie id s)
  serve scheduler_run s = show_as body (web_run_scheduler driver first s)
  serve (queue_pause name) s = show_as body (web_pause_queue sign first cookie driver name s)
  serve (queue_resume name) s = show_as body (web_resume_queue sign first cookie driver name s)
  serve queues_get s = show_as page (show_queues_page sign first cookie driver second s)
  serve workers_get s = show_as page (show_workers_page sign first cookie s)
  serve workers_list s = show_as body (workers_json sign first cookie formats.date_time unit now s)
  serve (workers_create b) s = show_as body (create_worker sign first cookie hash random b s)
  serve (workers_delete id) s = show_as body (remove_worker sign first cookie id s)
  serve keys_get s = show_as page (show_keys_page sign first cookie s)
  serve (job_get id) s = show_as page (show_job_page formats sign driver first second cookie id s)
  serve (home path status after) s =
      show_as page
        (index formats sign driver first second third hostname cookie path status after s)
