-- ===== src/Cmd/Serve.antt =====
-- cmd/stevy/main.go: `cmdServe`, from the environment to the server that listens, with the routes of
-- internal/auth/oauth.go and internal/auth/apikey.go. What the libraries and the disk answer is a
-- parameter: the validator, the paths that connect mounts, the mount of the REST gateway, the patterns
-- that `http.ServeMux` refuses, the files of `public` and the end of `ListenAndServe`.
use stevy.Base.{
  zero, suc, ℕ, Bool, true, false, ◌||◌, ◌&&◌, not, Option, none, some, List, [], ◌∷◌, ◌++◌, length,
  ◌-◌, if◌then◌else◌, ◌==◌,
}
use stevy.Base.Text.{Text, codes, text_eq, has_prefix}
use stevy.Auth.Config.{OauthConfig, OauthHandler, new_oauth_handler}
use stevy.Cmd.{
  Start, started, failed_with, panicked, ◌>>=◌, ◌>>◌, Vars, Outside, Backend, parsed_flags,
  must_env, get_env, split_csv, serve_args, open_backend, run_migrations,
}
use stevy.Site.{
  pattern, keys_create, keys_list, keys_delete, scheduler_run, queue_pause, queue_resume,
  queues_get, workers_get, workers_list, workers_create, workers_delete, keys_get, job_get, home,
}

-- What `cmdServe` makes its handlers of.
pub record ServeConfig : Type 0 where
  pub backend : Backend
  pub hostname : Text
  pub session_secret : Text
  pub oauth : OauthConfig
  pub address : Text

abbrev pub maybe_migrate : Bool → Outside → Backend → Start (Unit {0})
maybe_migrate true o b = run_migrations o b
maybe_migrate false o b = started tt

-- `*migrate || os.Getenv("MIGRATE") == "true"`
abbrev pub wants_migration : Bool → Vars → Bool
wants_migration flag vars = flag || (vars (codes "MIGRATE") == codes "true")

-- `cmdServe`, up to the validator.
unfoldable pub start_serve : Outside → Vars → List Text → Start ServeConfig
unfolding must_env open_backend run_migrations get_env split_csv serve_args parsed_flags
start_serve o vars args = do
  flag ← parsed_flags (o.parse_flags (serve_args args))
  dsn ← must_env vars (codes "DATABASE_URL")
  b ← open_backend o vars dsn
  maybe_migrate (wants_migration flag vars) o b
  let hostname = get_env vars (codes "HOSTNAME") (codes "http://localhost:8080")
  secret ← must_env vars (codes "SESSION_SECRET")
  client ← must_env vars (codes "GOOGLE_CLIENT_ID")
  client_secret ← must_env vars (codes "GOOGLE_CLIENT_SECRET")
  started (record {
    backend = b;
    hostname = hostname;
    session_secret = secret;
    oauth = record {
      client_id = client;
      client_secret = client_secret;
      redirect_url = hostname ++ codes "/auth/google/callback";
      allowed_domains = split_csv (vars (codes "ALLOWED_DOMAINS"));
    };
    address = codes ":" ++ get_env vars (codes "PORT") (codes "8080");
  })

pub record Entry : Type 0 where
  pub name : Text
  pub is_dir : Bool

-- None is success, and for `listen` a server that was shut down. `handle` is the panic of
-- `http.ServeMux` on a pattern, given those that it has.
pub record Surroundings : Type 0 where
  pub new_validator : Option Text
  pub rpc_patterns : List Text
  pub mount_rest : Option Text
  pub handle : List Text → Text → Option Text
  pub read_spec : Option Text
  pub read_public : Option (List Entry)
  pub listen : Text → Option Text

-- `Validate`, of which only the validator can fail.
unfoldable pub validate : Option Text → Start (Unit {0})
validate none = started tt
validate (some m) = failed_with m

abbrev pub mount_result : Option Text → Start (Unit {0})
mount_result none = started tt
mount_result (some m) = failed_with (codes "vanguard: " ++ m)

-- The patterns of `OAuthHandler.RegisterRoutes`, and those of `APIKeyHandler.RegisterRoutes`.
abbrev pub oauth_patterns : List Text
oauth_patterns =
    codes "/auth/google/login" ∷ codes "/auth/google/callback" ∷ codes "/auth/logout" ∷ []

abbrev pub api_key_patterns : List Text
api_key_patterns = pattern (keys_create none) ∷ pattern keys_list ∷ pattern (keys_delete []) ∷ []

abbrev pub web_patterns : List Text
web_patterns =
    pattern scheduler_run
    ∷ pattern (queue_pause [])
    ∷ pattern (queue_resume [])
    ∷ pattern queues_get
    ∷ pattern workers_get
    ∷ pattern workers_list
    ∷ pattern (workers_create none)
    ∷ pattern (workers_delete [])
    ∷ pattern keys_get
    ∷ pattern (job_get [])
    ∷ pattern (home [] [] [])
    ∷ []

-- What `cmdServe` registers of its own before the files of `public`.
abbrev pub own_patterns : List Text
own_patterns = codes "/v1/" ∷ oauth_patterns ++ (api_key_patterns ++ web_patterns)

-- `bytes.ReplaceAll`, for a text to replace that is not empty: the number of bytes of a match that are
-- still to skip comes before the text.
abbrev pub replace_from : Text → Text → ℕ → Text → Text
replace_from old new k [] = []
replace_from old new (suc k) (c ∷ s) = replace_from old new k s
replace_from old new zero (c ∷ s) =
    let matches = has_prefix (c ∷ s) old in
    let rest = replace_from old new (if matches then length old - 1 else 0) s in
    if matches then new ++ rest else c ∷ rest

abbrev pub replace_all : Text → Text → Text → Text
replace_all old new s = replace_from old new 0 s

-- What `GET /openapi.yaml` answers, where the file can be read.
unfoldable pub spec_text : Text → Option Text → Option Text
spec_text hostname none = none
spec_text hostname (some t) = some (replace_all (codes "https://stevy.example.com") hostname t)

abbrev pub spec_patterns : Option Text → List Text
spec_patterns none = []
spec_patterns (some t) = codes "GET /openapi.yaml" ∷ []

abbrev pub is_public : Entry → Bool
is_public e =
    not e.is_dir && (not (has_prefix e.name (codes ".")) && not (e.name == codes "openapi.yaml"))

abbrev pub file_patterns : List Entry → List Text
file_patterns [] = []
file_patterns (e ∷ es) =
    let rest = file_patterns es in if is_public e then (codes "GET /" ++ e.name) ∷ rest else rest

abbrev pub public_patterns : Option (List Entry) → List Text
public_patterns none = []
public_patterns (some es) = file_patterns es

abbrev pub handled : Option Text → Start (List Text) → Start (List Text)
handled none k = k
handled (some m) k = panicked m

-- `http.ServeMux.Handle`, for one pattern after another.
abbrev pub register : Surroundings → List Text → List Text → Start (List Text)
register w have [] = started have
register w have (p ∷ ps) = handled (w.handle have p) (register w (have ++ (p ∷ [])) ps)

-- The server that `cmdServe` listens with.
pub record Server : Type 0 where
  pub config : ServeConfig
  pub oauth : OauthHandler
  pub patterns : List Text
  pub spec : Option Text

-- `cmdServe`, up to `ListenAndServe`.
unfoldable pub prepare_serve : Outside → Surroundings → Vars → List Text → Start Server
unfolding start_serve validate pattern spec_text new_oauth_handler
prepare_serve o w vars args = do
  c ← start_serve o vars args
  validate w.new_validator
  rpcs ← register w [] w.rpc_patterns
  mount_result w.mount_rest
  routes ← register w rpcs own_patterns
  patterns ← register w routes (spec_patterns w.read_spec ++ public_patterns w.read_public)
  started (record {
    config = c;
    oauth = new_oauth_handler c.oauth;
    patterns = patterns;
    spec = spec_text c.hostname w.read_spec;
  })

abbrev pub listened : Option Text → Start (Unit {0})
listened none = started tt
listened (some m) = failed_with m

-- `cmdServe`
unfoldable pub cmd_serve : Outside → Surroundings → Vars → List Text → Start (Unit {0})
unfolding prepare_serve
cmd_serve o w vars args = do
  server ← prepare_serve o w vars args
  listened (w.listen server.config.address)
