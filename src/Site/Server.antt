-- ===== src/Site/Server.antt =====
-- The handlers of the web routes that `cmdServe` (cmd/stevy/main.go) makes of its server: sessions
-- signed with the server's secret, keys kept as hashes, and the backend's driver.
use stevy.Base.{
  ℕ, ◌≡◌, refl, ◌≢◌, inl, inr, Bool-cases, true, false, Option, some, List, [], ◌∷◌, ◌++◌,
  if◌then◌else◌, ◌==◌,
}
use stevy.Base.Text.{Text, text_eq}
use stevy.Auth.{user_id}
use stevy.Auth.Laws.{no_dot, cut-append}
use stevy.Auth.Signature.{sign, sha256_hex, hex_encode}
use stevy.Auth.Signature.Forged.{user_id-hex_encode}
use stevy.Cmd.{Outside, Vars, started}
use stevy.Cmd.Ready.{prepare_serve-IsServing}
use stevy.Cmd.Serve.{Server, Surroundings, prepare_serve}
use stevy.Site.{WebRoute, Site, serve}
use stevy.Site.Access.{is_open_route, TurnedAway, serve-anonymous}
use stevy.Store.{Store, Env}
use stevy.Web.Pages.{Formats}

-- The hashes, and what one request meets outside.
pub record Hashes : Type 0 where
  pub hmac_sha256 : Text → Text → List ℕ
  pub sha256 : Text → List ℕ

pub record Visit : Type 0 where
  pub formats : Formats
  pub unit : ℕ
  pub now : ℕ
  pub random : Option Text
  pub first : Env
  pub second : Env
  pub third : Env

unfoldable pub site_of : Hashes → Server → Visit → Site
unfolding sign sha256_hex
site_of h x v = record {
  sign = sign h.hmac_sha256 x.config.session_secret;
  hash = sha256_hex h.sha256;
  driver = x.config.backend.driver;
  formats = v.formats;
  hostname = x.config.hostname;
  unit = v.unit;
  now = v.now;
  random = v.random;
  first = v.first;
  second = v.second;
  third = v.third;
}

passes_or_not :
    (f : Text → Text) (user sig : Text)
    → no_dot user ≡ true
    → user_id f (some (user ++ (b'.' ∷ sig))) ≡ (if sig == f user then user else [])
unfolding user_id
passes_or_not f user sig plain = rw (cut-append user sig plain) refl

forged :
    (hmac : Text → Text → List ℕ) (secret user : Text) (bytes : List ℕ)
    → user ≢ []
    → no_dot user ≡ true
    → bytes ≢ hmac secret user
    → user_id (sign hmac secret) (some (user ++ (b'.' ∷ hex_encode bytes))) ≡ []
forged hmac secret user bytes ne plain other =
    let f : Text → Text = sign hmac secret in
    let whole = passes_or_not f user (hex_encode bytes) plain in
    elim (Bool-cases (hex_encode bytes == f user)) [
      | inl e ↦
          let passed : user_id f (some (user ++ (b'.' ∷ hex_encode bytes))) ≡ user =
            rw e at whole in
          absurd (other ((user_id-hex_encode hmac secret user bytes ne plain).0 passed))
      | inr e ↦ rw e at whole
    ]

-- A visitor of a server that came to listen, with a cookie that names a user, whose id is not empty
-- and has no dot, and the hex of bytes other than the HMAC of the id under the server's secret: on any
-- route of the pages, of their scripts and of the API keys but `POST /scheduler/run`, the request
-- changes nothing, its answer is 401, a redirect to `/`, the sign-in page or 404, and it is the same on
-- every database. The secret is not empty.
pub serve-forged :
    (o : Outside) (w : Surroundings) (vars : Vars) (args : List Text) (x : Server)
    → prepare_serve o w vars args ≡ started x
    → (h : Hashes) (v : Visit) (user : Text) (bytes : List ℕ) → user ≢ []
    → no_dot user ≡ true
    → bytes ≢ h.hmac_sha256 x.config.session_secret user
    → (r : WebRoute) (s t : Store) → is_open_route r ≡ false
    → let cookie = some (user ++ (b'.' ∷ hex_encode bytes)) in
      (x.config.session_secret ≢ [])
      × ((serve (site_of h x v) cookie r s).1 ≡ s)
      × TurnedAway (serve (site_of h x v) cookie r s).0
      × ((serve (site_of h x v) cookie r t).0 ≡ (serve (site_of h x v) cookie r s).0)
unfolding site_of
serve-forged o w vars args x e h v user bytes ne plain other r s t closed =
    let anonymous = forged h.hmac_sha256 x.config.session_secret user bytes ne plain other in
    let (same, away, level) =
      serve-anonymous (site_of h x v) (some (user ++ (b'.' ∷ hex_encode bytes))) s anonymous r t
        closed in
    ((prepare_serve-IsServing o w vars args x e).ready.signs, same, away, level)
