-- ===== src/Site/Access.antt =====
-- What a request without a session gets on the routes of the pages, of their scripts and of the API
-- keys.
use stevy.Base.{◌≡◌, refl, inl, inr, Bool, true, false, Option, [], ◌==◌, Bool-cases}
use stevy.Base.Text.{Text, codes, text_eq, text_discrete}
use stevy.Auth.{user_id}
use stevy.Auth.KeyHandlers.{create_key, list_keys, delete_key}
use stevy.Http.{Response, answer, problem, redirect, says}
use stevy.Site.{
  WebRoute, keys_create, keys_list, keys_delete, scheduler_run, queue_pause, queue_resume,
  queues_get, workers_get, workers_list, workers_create, workers_delete, keys_get, job_get, home,
  Shown, page, Site, serve,
}
use stevy.Store.{Store}
use stevy.Web.{current_user, require_user}
use stevy.Web.Pages.{
  login_page, index, show_job_page, show_queues_page, show_workers_page, show_keys_page,
}
use stevy.Web.Workers.{
  workers_json, create_worker, remove_worker, web_pause_queue, web_resume_queue,
}

abbrev pub is_open_route : WebRoute → Bool
is_open_route scheduler_run = true
is_open_route _ = false

-- The answers that tell nothing of the database.
pub data TurnedAway : Response Shown → Type 0 where
  unauthorized : TurnedAway (problem 401 (says (codes "unauthorized")))
  sent_home : TurnedAway (redirect 303 (codes "/"))
  asked_to_sign_in : TurnedAway (answer 200 (page login_page))
  no_such_page : TurnedAway (problem 404 (says (codes "404 page not found")))

module _ (w : Site) (cookie : Option Text) (s : Store)
    (anonymous : user_id w.sign cookie ≡ []) where
  -- A request without a valid session, on any route of the pages, of their scripts and of the API keys
  -- but `POST /scheduler/run`, changes nothing, its answer is 401, a redirect to `/`, the sign-in page
  -- or 404, and it is the same on every database.
  pub serve-anonymous :
      (r : WebRoute) (t : Store)
      → is_open_route r ≡ false
      → ((serve w cookie r s).1 ≡ s)
        × TurnedAway (serve w cookie r s).0
        × ((serve w cookie r t).0 ≡ (serve w cookie r s).0)
  unfolding serve create_key list_keys delete_key web_pause_queue web_resume_queue show_queues_page
      show_workers_page workers_json create_worker remove_worker show_keys_page show_job_page index
      current_user require_user text_discrete
  serve-anonymous (keys_create b) t h = rw anonymous (refl, unauthorized, refl)
  serve-anonymous keys_list t h = rw anonymous (refl, unauthorized, refl)
  serve-anonymous (keys_delete id) t h = rw anonymous (refl, unauthorized, refl)
  serve-anonymous scheduler_run t h = cc
  serve-anonymous (queue_pause name) t h = rw anonymous (refl, unauthorized, refl)
  serve-anonymous (queue_resume name) t h = rw anonymous (refl, unauthorized, refl)
  serve-anonymous queues_get t h = rw anonymous (refl, sent_home, refl)
  serve-anonymous workers_get t h = rw anonymous (refl, sent_home, refl)
  serve-anonymous workers_list t h = rw anonymous (refl, unauthorized, refl)
  serve-anonymous (workers_create b) t h = rw anonymous (refl, unauthorized, refl)
  serve-anonymous (workers_delete id) t h = rw anonymous (refl, unauthorized, refl)
  serve-anonymous keys_get t h = rw anonymous (refl, sent_home, refl)
  serve-anonymous (job_get id) t h = rw anonymous (refl, sent_home, refl)
  serve-anonymous (home path status after) t h = elim (Bool-cases (path == codes "/")) [
    | inl e ↦ rw (e, anonymous) (refl, asked_to_sign_in, refl)
    | inr e ↦ rw e (refl, no_such_page, refl)
  ]
