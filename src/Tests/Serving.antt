-- ===== src/Tests/Serving.antt =====
-- The laws of the server's start, of signatures and of delays at concrete inputs.
use stevy.Base.{
  ◌≢◌, Option, ◌≡◌, refl, ◌↔◌, ◌<◌, ◌≤◌, ◌-◌, ◌*◌, ◌^◌, ℕ, true, false, none, some, List, [], ◌∷◌,
  ◌++◌, pos, arith, if◌then◌else◌, ◌==◌,
}
use stevy.Base.Text.{Text, codes, text_eq, text_discrete}
use stevy.Base.Trim.{trim_space}
use stevy.Auth.{email_allowed}
use stevy.Auth.Config.{OauthConfig, new_oauth_handler}
use stevy.Auth.Config.Admits.{IsAdmitted}
use stevy.Auth.Signature.{hex_encode}
use stevy.Cmd.{Vars, started}
use stevy.Cmd.Ready.{prepare_serve-admits}
use stevy.Cmd.Serve.{Surroundings, Server, prepare_serve, own_patterns}
use stevy.Cmd.Settings.{IsEntry}
use stevy.Service.Backoff.{Meta, with_jitter, backoff_ms}
use stevy.Service.Delays.{IsDelay, with_jitter-backoff_ms}
use stevy.Site.{serve, queues_get}
use stevy.Site.Access.{TurnedAway}
use stevy.Site.Server.{Hashes, Visit, site_of, serve-forged}
use stevy.Tests.{no_fault, formats, mail, tables}
use stevy.Tests.Pages.{outside, file_backend}

abbrev vars : Vars
vars k =
    if k == codes "DATABASE_URL"
    then codes "sqlite://jobs.db"
    else if k == codes "PORT"
    then []
    else if k == codes "HOSTNAME"
    then codes "https://q.test"
    else if k == codes "ALLOWED_DOMAINS"
    then codes "a.b,c.d"
    else if k == codes "MIGRATE"
    then codes "true"
    else codes "x"

abbrev around : Surroundings
around = record {
  new_validator = none;
  rpc_patterns = codes "/stevy.v1.JobService/" ∷ [];
  mount_rest = none;
  handle = λ have p. none;
  read_spec = some (codes "url: https://stevy.example.com/v1");
  read_public = some (
      record { name = codes "a.css"; is_dir = false }
      ∷ record { name = codes ".env"; is_dir = false }
      ∷ record { name = codes "fonts"; is_dir = true }
      ∷ []);
  listen = λ address. none;
}

abbrev args : List Text
args = codes "stevy" ∷ []

abbrev configured : OauthConfig
configured = record {
  client_id = codes "x";
  client_secret = codes "x";
  redirect_url = codes "https://q.test/auth/google/callback";
  allowed_domains = codes "a.b" ∷ codes "c.d" ∷ [];
}

abbrev server : Server
server = record {
  config = record {
    backend = file_backend;
    hostname = codes "https://q.test";
    session_secret = codes "x";
    oauth = configured;
    address = codes ":8080";
  };
  oauth = new_oauth_handler configured;
  patterns =
      (codes "/stevy.v1.JobService/" ∷ own_patterns)
      ++ (codes "GET /openapi.yaml" ∷ codes "GET /a.css" ∷ []);
  spec = some (codes "url: https://q.test/v1");
}

serves : prepare_serve outside around vars args ≡ started server
unfolding prepare_serve text_discrete
serves = refl

site_ab : IsEntry (codes "a.b")
unfolding trim_space text_discrete
site_ab = record {
  some_text = λ h. ground arith;
  bare = (refl, (refl, (refl, tt)));
  trimmed = refl;
}

site_cd : IsEntry (codes "c.d")
unfolding trim_space text_discrete
site_cd = record {
  some_text = λ h. ground arith;
  bare = (refl, (refl, (refl, tt)));
  trimmed = refl;
}

domains_given : vars (codes "ALLOWED_DOMAINS") ≡ codes "a.b,c.d"
unfolding text_discrete
domains_given = refl

prepare_serve-admits_example :
    (email_allowed server.oauth.allowed_domains (codes "e@c.d") ≡ true)
    ↔ IsAdmitted (codes "a.b" ∷ codes "c.d" ∷ []) (codes "e@c.d")
prepare_serve-admits_example =
    prepare_serve-admits outside around vars args server serves (codes "a.b" ∷ codes "c.d" ∷ [])
      (site_ab, (site_cd, tt)) domains_given (codes "e@c.d")

-- In place of an HMAC, the secret's bytes and the text's.
abbrev joined : Text → Text → List ℕ
joined secret text = secret ++ text

abbrev hashes : Hashes
hashes = record { hmac_sha256 = joined; sha256 = λ t. t }

abbrev visit : Visit
visit = record {
  formats = formats;
  unit = 1000;
  now = 1000000;
  random = some (codes "2");
  first = no_fault;
  second = no_fault;
  third = no_fault;
}

abbrev bad_cookie : Option Text
bad_cookie = some (codes "u" ++ (b'.' ∷ hex_encode (codes "y")))

serve-forged_example :
    (server.config.session_secret ≢ [])
    × ((serve (site_of hashes server visit) bad_cookie queues_get mail).1 ≡ mail)
    × TurnedAway (serve (site_of hashes server visit) bad_cookie queues_get mail).0
    × ((serve (site_of hashes server visit) bad_cookie queues_get (tables [])).0
        ≡ (serve (site_of hashes server visit) bad_cookie queues_get mail).0)
serve-forged_example =
    serve-forged outside around vars args server serves hashes visit (codes "u") (codes "y")
      (λ e. ground arith) (ground arith) (λ e. ground arith) queues_get mail (tables []) refl

abbrev doubling : Meta
doubling = record { backoff_type = codes "exponential"; jitter = true; backoff_delay = none }

below : (n : ℕ) → 1 ≤ n → n - 1 < n
below n h = omega arith

with_jitter-backoff_ms_example :
    IsDelay (1000 * 2 ^ 4) true (with_jitter (λ n. n - 1) true (backoff_ms (λ k. pos 0) doubling 5))
with_jitter-backoff_ms_example =
    with_jitter-backoff_ms (λ k. pos 0) (λ n. n - 1) doubling 4 1000 refl refl (omega arith)
      (omega arith) below
