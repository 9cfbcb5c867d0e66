-- ===== src/Auth/Sessions.antt =====
-- internal/auth/session.go and middleware.go: the session cookie's attributes, the values that the
-- interceptor hands to the handlers, and the wrapper `RequireSession`.
use stevy.Base.{ℕ, Bool, true, false, Option, none, some, [], if◌then◌else◌, ◌==◌, ◌*◌}
use stevy.Base.Text.{Text, codes, has_prefix, text_eq}
use stevy.Auth.{Access, as_worker, as_user, user_id, cookie_value}
use stevy.Http.{says, problem, redirect, Handler, respond}

-- `http.Cookie`: a `max_age` of none is the -1 that deletes the cookie.
pub record Cookie : Type 0 where
  pub name : Text
  pub value : Text
  pub path : Text
  pub http_only : Bool
  pub secure : Bool
  pub lax : Bool
  pub max_age : Option ℕ

abbrev pub session_cookie : Text
session_cookie = codes "queue_session"

-- `Set`
unfoldable pub set_session : (Text → Text) → Text → Cookie
unfolding cookie_value
set_session sign user = record {
  name = session_cookie;
  value = cookie_value sign user;
  path = codes "/";
  http_only = true;
  secure = true;
  lax = true;
  max_age = some (30 * 24 * 3600);
}

-- `Clear`
unfoldable pub clear_session : Cookie
clear_session = record {
  name = session_cookie;
  value = [];
  path = codes "/";
  http_only = true;
  secure = false;
  lax = false;
  max_age = none;
}

-- `RequireSession`
unfoldable pub require_session :
    {B : Type 0} → (Text → Text) → Option Text → Text → Handler B → Handler B
unfolding user_id
require_session sign cookie path next =
    if user_id sign cookie == []
    then (if has_prefix path (codes "/_/api/")
        then respond (problem 401 (says (codes "unauthorized")))
        else respond (redirect 302 (codes "/")))
    else next

-- `WorkerIDFromContext` after the interceptor: the empty text where no worker key came.
unfoldable pub context_worker_id : Access → Text
context_worker_id (as_worker id) = id
context_worker_id _ = []

-- `UserIDFromContext`
unfoldable pub context_user_id : Access → Text
context_user_id (as_user id) = id
context_user_id _ = []
