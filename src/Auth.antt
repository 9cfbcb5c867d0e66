-- ===== src/Auth.antt =====
-- internal/auth: session cookies, the RPC interceptor that checks API keys, and the e-mail domains
-- that may sign in. The HMAC (`sign`) and the key hash are parameters.
pub mod Laws
pub mod Sessions
pub mod KeyHandlers
pub mod Oauth
pub mod SignIn
pub mod Config
pub mod Signature
use stevy.Base.{
  ℕ, suc, ◌+◌, ◌-◌, Bool, true, false, ◌&&◌, not, Option, none, some, List, [], ◌∷◌, ◌++◌, any,
  drop, length, ltb, if◌then◌else◌, ◌==◌,
}
use stevy.Base.Text.{Text, codes, has_prefix, text_eq}
use stevy.JsonString.{nat_eq}
use stevy.Keys.{lookup_api_key, lookup_worker_key}
use stevy.Store.{Env, Store, Result, ok, err, M}

-- `strings.Cut(s, ".")`
unfoldable pub cut : Text → Option (Text × Text)
cut [] = none
cut (c ∷ s) =
    let rest = cut s in
    if c == b'.' then some ([], s) else elim rest [ none ↦ none | some (a, b) ↦ some (c ∷ a, b) ]

-- The cookie's value that `Set` writes.
unfoldable pub cookie_value : (Text → Text) → Text → Text
cookie_value sign user = user ++ (b'.' ∷ sign user)

abbrev pub checked : (Text → Text) → Option (Text × Text) → Text
checked sign none = []
checked sign (some (id, sig)) = if sig == sign id then id else []

-- `UserID`: the user of the request's cookie, or the empty text.
unfoldable pub user_id : (Text → Text) → Option Text → Text
unfolding cut
user_id sign none = []
user_id sign (some cookie) = checked sign (cut cookie)

-- `workerMethods`
abbrev pub worker_methods : List Text
worker_methods =
    codes "/stevy.v1.JobService/ClaimJob"
    ∷ codes "/stevy.v1.JobService/CompleteJob"
    ∷ codes "/stevy.v1.JobService/FailJob"
    ∷ codes "/stevy.v1.JobService/HeartbeatJob"
    ∷ []

unfoldable pub is_worker_method : Text → Bool
is_worker_method procedure = any (λ m. m == procedure) worker_methods

-- What the interceptor decides: a code, or the identity that the context carries to the handler.
pub data Access : Type 0 where
  unauthenticated permission_denied : Access
  as_worker : Text → Access
  as_user : Text → Access

abbrev pub worker_access : Result Text × Store → Access × Store
worker_access (ok id, s) = (as_worker id, s)
worker_access (err e, s) = (unauthenticated, s)

abbrev pub user_access : Result (Text × Text) × Store → Access × Store
user_access (ok (id, user), s) = (as_user user, s)
user_access (err e, s) = (unauthenticated, s)

unfoldable pub check_token : (Text → Text) → Env → Text → Text → Store → Access × Store
check_token hash e procedure token s =
    if has_prefix token (codes "stw_")
    then (if is_worker_method procedure
        then worker_access (lookup_worker_key hash e token s)
        else (permission_denied, s))
    else if has_prefix token (codes "stv_")
    then user_access (lookup_api_key hash e token s)
    else (unauthenticated, s)

-- `APIKeyInterceptor`, up to the call of the handler.
unfoldable pub intercept : (Text → Text) → Env → Text → Text → Store → Access × Store
unfolding check_token
intercept hash e procedure header s =
    if has_prefix header (codes "Bearer ")
    then check_token hash e procedure (drop (length (codes "Bearer ")) header) s
    else (unauthenticated, s)

-- `len(email) > len(domain)+1 && email[len(email)-len(domain)-1:] == "@"+domain`
unfoldable pub ends_in_domain : Text → Text → Bool
ends_in_domain email domain =
    ltb (length domain + 1) (length email)
    && (drop (length email - length domain - 1) email == (b'@' ∷ domain))

-- `emailAllowed`; no domains is no restriction.
unfoldable pub email_allowed : List Text → Text → Bool
unfolding ends_in_domain
email_allowed [] email = true
email_allowed (d ∷ ds) email = any (ends_in_domain email) (d ∷ ds)
