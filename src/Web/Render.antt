-- ===== src/Web/Render.antt =====
-- `renderPage` and `renderStandalone` of internal/web/web.go, and what the layout's header shows.
-- html/template is a parameter: what a template writes until it ends, and the error that ends it.
use stevy.Base.{ℕ, Option, none, some, List, [], ◌∷◌, ◌++◌, any, if◌then◌else◌, ◌==◌}
use stevy.Base.Text.{Text, codes, text_eq}
use stevy.Store.{User}
use stevy.Web.Pages.{Page, login_page, jobs_page, queues_page, workers_page, keys_page, job_page}

-- Nothing written is none: the header has not gone then.
pub record Execution : Type 0 where
  pub written : Option Text
  pub error : Option Text

abbrev pub Templates : Type 0
Templates = Text → Page → Execution

pub record Sent : Type 0 where
  pub code : ℕ
  pub content_type : Text
  pub body : Text

abbrev pub html : Text
html = codes "text/html; charset=utf-8"

-- `http.Error` before the header has gone.
abbrev pub error_response : ℕ → Text → Sent
error_response code m = record {
  code = code;
  content_type = codes "text/plain; charset=utf-8";
  body = m ++ (0x0a ∷ []);
}

abbrev pub written_text : Option Text → Text
written_text none = []
written_text (some t) = t

-- `http.Error` after a part of the page has gone only adds its text.
abbrev pub finish : Option Text → Option Text → Sent
finish written none = record { code = 200; content_type = html; body = written_text written }
finish none (some m) = error_response 500 m
finish (some t) (some m) = record {
  code = 200;
  content_type = html;
  body = t ++ (m ++ (0x0a ∷ []));
}

-- The keys of `Handler.pages`.
abbrev pub page_names : List Text
page_names = codes "jobs" ∷ codes "queues" ∷ codes "workers" ∷ codes "keys" ∷ codes "job" ∷ []

unfoldable pub render_page : Templates → Text → Page → Sent
render_page t name p =
    let x = t name p in
    if any (λ k. k == name) page_names
    then finish x.written x.error
    else error_response 500 (codes "unknown page")

unfoldable pub render_standalone : Templates → Text → Page → Sent
render_standalone t name p = let x = t name p in finish x.written x.error

-- The name that each handler renders its data by.
unfoldable pub render : Templates → Page → Sent
unfolding render_page render_standalone
render t login_page = render_standalone t (codes "login.html") login_page
render t (jobs_page d) = render_page t (codes "jobs") (jobs_page d)
render t (queues_page u rows) = render_page t (codes "queues") (queues_page u rows)
render t (workers_page u) = render_page t (codes "workers") (workers_page u)
render t (keys_page u) = render_page t (codes "keys") (keys_page u)
render t (job_page d) = render_page t (codes "job") (job_page d)

-- `layoutData`
pub record LayoutData : Type 0 where
  pub user : Option User
  pub active_tab : Text
  pub title : Text

unfoldable pub layout_data : Page → LayoutData
layout_data login_page = record { user = none; active_tab = []; title = [] }
layout_data (jobs_page d) = record { user = some d.user; active_tab = codes "jobs"; title = [] }
layout_data (queues_page u rows) = record { user = some u; active_tab = codes "queues"; title = [] }
layout_data (workers_page u) = record { user = some u; active_tab = codes "workers"; title = [] }
layout_data (keys_page u) = record { user = some u; active_tab = codes "keys"; title = [] }
layout_data (job_page d) = record { user = some d.user; active_tab = codes "jobs"; title = d.title }
