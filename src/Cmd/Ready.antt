-- ===== src/Cmd/Ready.antt =====
-- What holds of the server that `cmdServe` of cmd/stevy/main.go listens with.
use mathlib.Core.List.{append_assoc, append-nil}
use stevy.Base.{
  ◌≡◌, ◌≢◌, ◌⊎◌, inl, inr, refl, ap, sym, ◌∙◌, ◌↔◌, Bool, true, false, All, Option, none, some,
  List, [], ◌∷◌, ◌++◌, arith, subst, if◌then◌else◌, ◌==◌,
}
use stevy.Base.Text.{Text, codes, text_eq, text_discrete, cons-ne-nil}
use stevy.Auth.{email_allowed}
use stevy.Auth.Config.{new_oauth_handler}
use stevy.Auth.Config.Admits.{IsAdmitted, new_oauth_handler-admits}
use stevy.Cmd.{
  exited, Flags, with_migrate, help_asked, bad_flags, parsed_flags, serve_args, Start, started,
  failed_with, panicked, ◌>>=◌, Vars, Outside, Backend, must_env, open_backend, migrate, migrated,
  run_migrations, split_csv,
}
use stevy.Cmd.Drivers.{open_backend-IsDriver}
use stevy.Cmd.Serve.{
  ServeConfig, maybe_migrate, wants_migration, start_serve, Surroundings, validate, register,
  handled, Server, prepare_serve, own_patterns, spec_patterns, public_patterns, spec_text,
  mount_result,
}
use stevy.Cmd.Settings.{IsEntry, comma_list, split_csv-comma_list}
use stevy.Driver.Contract.{IsDriver}

-- The configuration of a server that may serve.
pub record IsReady (o : Outside) (vars : Vars) (args : List Text) (c : ServeConfig) : Type 0 where
  pub signs : c.session_secret ≢ []
  pub named : c.oauth.client_id ≢ []
  pub trusted : c.oauth.client_secret ≢ []
  pub driven : IsDriver c.backend.driver
  pub listed_domains : c.oauth.allowed_domains ≡ split_csv (vars (codes "ALLOWED_DOMAINS"))
  pub flag : Bool
  pub flag_given : o.parse_flags (serve_args args) ≡ with_migrate flag
  pub migrated_first : (wants_migration flag vars ≡ false) ⊎ (migrate o c.backend.dialect ≡ none)

-- A server that may listen: its configuration, a validator, and the routes, the program's own all
-- among them and in their order, and then the files of `public`.
pub record IsServing (o : Outside) (w : Surroundings) (vars : Vars) (args : List Text) (x : Server)
    : Type 0 where
  pub ready : IsReady o vars args x.config
  pub signing_in : x.oauth ≡ new_oauth_handler x.config.oauth
  pub validating : w.new_validator ≡ none
  pub routed :
      x.patterns
      ≡ (w.rpc_patterns ++ own_patterns)
        ++ (spec_patterns w.read_spec ++ public_patterns w.read_public)
  pub answering : x.spec ≡ spec_text x.config.hostname w.read_spec

-- What a step that went on answered, and how the steps after it went on.
pub reached :
    {A B : Type 0} (m : Start A) (k : A → Start B) (b : B)
    → (m >>= k) ≡ started b
    → (a : A) × (m ≡ started a) × (k a ≡ started b)
reached (started a) k b e = (a, refl, e)
reached (exited code) k b e = absurd (ground arith)
reached (failed_with m) k b e = absurd (ground arith)
reached (panicked m) k b e = absurd (ground arith)

started_of : {A : Type 0} → A → Start A → A
started_of d (started a) = a
started_of d _ = d

pub started_injective : {A : Type 0} {x y : A} → started x ≡ started y → x ≡ y
unfolding started_of
started_injective {x = x} e = ap (started_of x) e

some_text : (v m t : Text) → (if v == [] then panicked m else started v) ≡ started t → t ≢ []
unfolding text_discrete
some_text [] m t e = absurd (ground arith)
some_text (c ∷ v) m t e = λ z. cons-ne-nil c v (started_injective e ∙ z)

pub parsed_flags-started : (f : Flags) (b : Bool) → parsed_flags f ≡ started b → f ≡ with_migrate b
unfolding parsed_flags
parsed_flags-started (with_migrate x) b e = ap with_migrate (started_injective e)
parsed_flags-started help_asked b e = absurd (ground arith)
parsed_flags-started bad_flags b e = absurd (ground arith)

pub must_env-started : (vars : Vars) (k t : Text) → must_env vars k ≡ started t → t ≢ []
unfolding must_env
must_env-started vars k t e = some_text (vars k) _ t e

migrate_result : (m : Option Text) (u : Unit {0}) → migrated m ≡ started u → m ≡ none
migrate_result none u e = refl
migrate_result (some m) u e = absurd (ground arith)

pub maybe_migrate-started :
    (b : Bool) (o : Outside) (x : Backend) (u : Unit {0})
    → maybe_migrate b o x ≡ started u
    → (b ≡ false) ⊎ (migrate o x.dialect ≡ none)
unfolding run_migrations
maybe_migrate-started true o x u e = inr (migrate_result (migrate o x.dialect) u e)
maybe_migrate-started false o x u e = inl refl

module _ (o : Outside) (vars : Vars) (args : List Text) (c : ServeConfig) where
  kept-IsReady : (x : ServeConfig) → x ≡ c → IsReady o vars args x → IsReady o vars args c
  kept-IsReady x same h = subst (λ y. IsReady o vars args y) same h

  start_serve-IsReady : start_serve o vars args ≡ started c → IsReady o vars args c
  unfolding start_serve
  start_serve-IsReady e =
      let (flag, ef, rf) = reached (parsed_flags (o.parse_flags (serve_args args))) _ c e in
      let (dsn, e0, r0) = reached (must_env vars (codes "DATABASE_URL")) _ c rf in
      let (b, e1, r1) = reached (open_backend o vars dsn) _ c r0 in
      let (u, e2, r2) = reached (maybe_migrate (wants_migration flag vars) o b) _ c r1 in
      let (secret, e3, r3) = reached (must_env vars (codes "SESSION_SECRET")) _ c r2 in
      let (client, e4, r4) = reached (must_env vars (codes "GOOGLE_CLIENT_ID")) _ c r3 in
      let (client_secret, e5, r5) = reached (must_env vars (codes "GOOGLE_CLIENT_SECRET")) _ c r4 in
      kept-IsReady _ (started_injective r5) (record {
        signs = must_env-started vars _ secret e3;
        named = must_env-started vars _ client e4;
        trusted = must_env-started vars _ client_secret e5;
        driven = open_backend-IsDriver o vars dsn b e1;
        listed_domains = refl;
        flag = flag;
        flag_given = parsed_flags-started _ flag ef;
        migrated_first = maybe_migrate-started (wants_migration flag vars) o b u e2;
      })

pub validate-started : (m : Option Text) (u : Unit {0}) → validate m ≡ started u → m ≡ none
unfolding validate
validate-started none u e = refl
validate-started (some m) u e = absurd (ground arith)

module _ (w : Surroundings) where
  pub handled-started :
      (m : Option Text) (k : Start (List Text)) (qs : List Text)
      → handled m k ≡ started qs
      → (m ≡ none) × (k ≡ started qs)
  handled-started none k qs e = (refl, e)
  handled-started (some m) k qs e = absurd (ground arith)

  -- Registering patterns adds them in their order and leaves none out.
  pub register-started :
      (have ps qs : List Text) → register w have ps ≡ started qs → qs ≡ have ++ ps
  register-started have [] qs e = sym (started_injective e) ∙ sym (append-nil have)
  register-started have (p ∷ ps) qs e =
      let (free, e') = handled-started (w.handle have p) _ qs e in
      register-started (have ++ (p ∷ [])) ps qs e' ∙ append_assoc have (p ∷ []) ps

module _ (o : Outside) (w : Surroundings) (vars : Vars) (args : List Text) (x : Server) where
  kept-IsServing : (y : Server) → y ≡ x → IsServing o w vars args y → IsServing o w vars args x
  kept-IsServing y same h = subst (λ z. IsServing o w vars args z) same h

  -- A server that comes to listen, whatever the libraries, the disk and the environment: the key that
  -- signs its sessions and the client's id and secret are not empty, its driver meets the contract, a
  -- migration that was asked for has succeeded, its validator was made, and its routes are those of the
  -- RPCs, then all of its own, then those of the readable files of `public`.
  pub prepare_serve-IsServing : prepare_serve o w vars args ≡ started x → IsServing o w vars args x
  unfolding prepare_serve
  prepare_serve-IsServing e =
      let (c, e0, r0) = reached (start_serve o vars args) _ x e in
      let (u, e1, r1) = reached (validate w.new_validator) _ x r0 in
      let (rpcs, e2, r2) = reached (register w [] w.rpc_patterns) _ x r1 in
      let (v, e3, r3) = reached (mount_result w.mount_rest) _ x r2 in
      let (routes, e4, r4) = reached (register w rpcs own_patterns) _ x r3 in
      let files : List Text = spec_patterns w.read_spec ++ public_patterns w.read_public in
      let (all, e5, r5) = reached (register w routes files) _ x r4 in
      kept-IsServing _ (started_injective r5) (record {
        ready = start_serve-IsReady o vars args c e0;
        signing_in = refl;
        validating = validate-started w.new_validator u e1;
        routed =
            register-started w routes files all e5
            ∙ ap (λ t. t ++ files)
                (register-started w rpcs own_patterns routes e4
                  ∙ ap (λ t. t ++ own_patterns) (register-started w [] w.rpc_patterns rpcs e2));
        answering = refl;
      })

-- Where `ALLOWED_DOMAINS` is a list, with commas between them, of entries that are not empty and have
-- no commas and no spaces around them, a server that comes to listen admits an address just if there
-- is no entry or the address is a local part that is not empty, an `@` and an entry.
pub prepare_serve-admits :
    (o : Outside) (w : Surroundings) (vars : Vars) (args : List Text) (x : Server)
    → prepare_serve o w vars args ≡ started x
    → (ds : List Text) → All IsEntry ds
    → vars (codes "ALLOWED_DOMAINS") ≡ comma_list ds
    → (email : Text) → (email_allowed x.oauth.allowed_domains email ≡ true) ↔ IsAdmitted ds email
prepare_serve-admits o w vars args x e ds entries given email =
    let serving = prepare_serve-IsServing o w vars args x e in
    let domains : x.config.oauth.allowed_domains ≡ ds =
      serving.ready.listed_domains ∙ (ap split_csv given ∙ split_csv-comma_list ds entries) in
    rw (serving.signing_in, sym domains) (new_oauth_handler-admits x.config.oauth email)
