-- ===== src/Auth/Oauth.antt =====
-- internal/auth/oauth.go: signing in. The provider's exchange of a code, the user information that it
-- answers with and its decoding and the URL that it is sent to are parameters.
use stevy.Base.{◌∷◌, ℕ, true, Option, none, some, List, [], if◌then◌else◌, ◌==◌, not, ◌*◌}
use stevy.Base.Text.{Text, codes, text_eq}
use stevy.Auth.{email_allowed}
use stevy.Auth.Sessions.{Cookie, set_session, clear_session}
use stevy.Http.{Response, says, carries, prefixed, problem, redirect}
use stevy.Keys.{upsert_user}
use stevy.Store.{Store, User, Env, Error, no_entropy, Result, ok, err}

pub record UserInfo : Type 0 where
  pub id : Text
  pub email : Text
  pub name : Text

-- A response and the cookies that it sets; no body but errors.
pub record Signing : Type 0 where
  pub cookies : List Cookie
  pub response : Response (Unit {0})

pub record Provider : Type 0 where
  pub auth_code_url : Text → Text
  pub exchange : Text → Result Text
  pub get_user_info : Text → Result Text
  pub decode_user_info : Text → Result UserInfo

abbrev pub decoded : Provider → Result Text → Result UserInfo
decoded p (err e) = err e
decoded p (ok body) = p.decode_user_info body

-- `fetchUserInfo`
unfoldable pub fetch_user_info : Provider → Text → Result UserInfo
fetch_user_info p token = decoded p (p.get_user_info token)

abbrev pub refused : ℕ → Text → Signing
refused code text = record { cookies = []; response = problem code (says text) }

abbrev pub erred : ℕ → Error → Signing
erred code e = record { cookies = []; response = problem code (carries e) }

abbrev pub state_cookie : Text → Cookie
state_cookie state = record {
  name = codes "oauth_state";
  value = state;
  path = codes "/";
  http_only = true;
  secure = true;
  lax = true;
  max_age = some (10 * 60);
}

-- `Login`; `randomState` is none where there is no entropy.
unfoldable pub login : Provider → Option Text → Signing
login p none = erred 500 no_entropy
login p (some state) = record {
  cookies = state_cookie state ∷ [];
  response = redirect 302 (p.auth_code_url state);
}

abbrev pub signed_in : (Text → Text) → Result User × Store → Signing × Store
signed_in sign (err e, s) =
    (record { cookies = []; response = problem 500 (prefixed (codes "user upsert failed: ") e) }, s)
signed_in sign (ok user, s) =
    (record { cookies = set_session sign user.id ∷ []; response = redirect 302 (codes "/") }, s)

module _ (p : Provider) (domains : List Text) (sign : Text → Text) (e : Env) where
  abbrev pub admit : UserInfo → Store → Signing × Store
  admit info s =
      if not (email_allowed domains info.email)
      then (refused 403 (codes "email not allowed"), s)
      else signed_in sign (upsert_user e info.id info.email info.name s)

  abbrev pub with_info : Result UserInfo → Store → Signing × Store
  with_info (err er) s = (erred 500 er, s)
  with_info (ok info) s = admit info s

  abbrev pub with_token : Result Text → Store → Signing × Store
  with_token (err er) s =
      (record { cookies = []; response = problem 401 (prefixed (codes "exchange failed: ") er) }, s)
  with_token (ok token) s = with_info (fetch_user_info p token) s

  -- `Callback`, with the state cookie and the query's `state` and `code`.
  unfoldable pub callback : Option Text → Text → Text → Store → Signing × Store
  unfolding email_allowed upsert_user set_session fetch_user_info
  callback none state code s = (refused 400 (codes "missing state cookie"), s)
  callback (some want) state code s =
      if want == []
      then (refused 400 (codes "missing state cookie"), s)
      else if state == want
      then with_token (p.exchange code) s
      else (refused 400 (codes "state mismatch"), s)

-- `Logout`
unfoldable pub logout : Signing
unfolding clear_session
logout = record { cookies = clear_session ∷ []; response = redirect 302 (codes "/") }
