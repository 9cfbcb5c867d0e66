-- ===== src/Cmd/Conditions.antt =====
-- What `cmdServe` of cmd/stevy/main.go needs so that it comes to listen.
use mathlib.Core.List.{append-nil, append_assoc}
use stevy.Base.{
  ◌≡◌, ◌≢◌, ◌↔◌, ◌⊎◌, refl, sym, subst, Bool, false, Option, none, some, List, [], ◌∷◌, ◌++◌, arith,
}
use stevy.Base.Text.{Text, codes}
use stevy.Cmd.{
  started, Vars, Outside, Backend, opened, open_backend, migrate, with_migrate, serve_args,
}
use stevy.Cmd.Ready.{started_injective}
use stevy.Cmd.Serve.{wants_migration, Surroundings, own_patterns, spec_patterns, public_patterns}
use stevy.Dialect.{Dialect, postgres, sqlite, from_dsn, strip_sqlite_prefix}

-- No pattern is refused, with those before it registered.
abbrev pub Accepts : Surroundings → List Text → List Text → Type 0
Accepts w have [] = Unit
Accepts w have (p ∷ ps) = (w.handle have p ≡ none) × Accepts w (have ++ (p ∷ [])) ps

-- The library's error on opening the database that a URL names.
abbrev pub open_error : Outside → Dialect → Text → Option Text
open_error o postgres url = o.open_pool url
open_error o sqlite url =
    o.open_file
      (strip_sqlite_prefix url ++ codes "?_pragma=foreign_keys(1)&_pragma=journal_mode(WAL)")

-- What the arguments, the environment and the database have to give.
pub record IsConfigured (o : Outside) (vars : Vars) (args : List Text) : Type 0 where
  pub flag : Bool
  pub flag_given : o.parse_flags (serve_args args) ≡ with_migrate flag
  pub dialect : Dialect
  pub named : from_dsn (vars (codes "DATABASE_URL")) ≡ some dialect
  pub opens : open_error o dialect (vars (codes "DATABASE_URL")) ≡ none
  pub migrates : (wants_migration flag vars ≡ false) ⊎ (migrate o dialect ≡ none)
  pub secret : vars (codes "SESSION_SECRET") ≢ []
  pub client : vars (codes "GOOGLE_CLIENT_ID") ≢ []
  pub client_secret : vars (codes "GOOGLE_CLIENT_SECRET") ≢ []

-- The patterns in the order in which they are registered.
abbrev pub all_routes : Surroundings → List Text
all_routes w =
    w.rpc_patterns ++ (own_patterns ++ (spec_patterns w.read_spec ++ public_patterns w.read_public))

-- The same, and what the libraries and the disk have to give.
pub record CanServe (o : Outside) (w : Surroundings) (vars : Vars) (args : List Text) : Type 0 where
  pub configured : IsConfigured o vars args
  pub validator : w.new_validator ≡ none
  pub gateway : w.mount_rest ≡ none
  pub routes : Accepts w [] (all_routes w)

pub Accepts-append :
    (w : Surroundings) (have ps qs : List Text)
    → Accepts w have (ps ++ qs) ↔ (Accepts w have ps × Accepts w (have ++ ps) qs)
Accepts-append w have [] qs = (
  λ h. (tt, subst (λ x. Accepts w x qs) (sym (append-nil have)) h),
  λ (u, h). subst (λ x. Accepts w x qs) (append-nil have) h,
)
Accepts-append w have (p ∷ ps) qs =
    let rest = Accepts-append w (have ++ (p ∷ [])) ps qs in
    let same = append_assoc have (p ∷ []) ps in
    (
      λ h. let (a, b) = rest.0 h.1 in ((h.0, a), subst (λ x. Accepts w x qs) same b),
      λ (a, b). (a.0, rest.1 (a.1, subst (λ x. Accepts w x qs) (sym same) b)),
    )

-- A dialect and a library that opens give a backend of the dialect, and only they.
pub opens_backend :
    (o : Outside) (vars : Vars) (url : Text) (d : Dialect)
    → from_dsn url ≡ some d
    → open_error o d url ≡ none
    → (b : Backend) × (open_backend o vars url ≡ started b) × (b.dialect ≡ d)
unfolding open_backend
opens_backend o vars url postgres named free = rw (named, free) (_, refl, refl)
opens_backend o vars url sqlite named free = rw (named, free) (_, refl, refl)

opened-started : (m : Option Text) (x b : Backend) → opened m x ≡ started b → (m ≡ none) × (x ≡ b)
opened-started none x b e = (refl, started_injective e)
opened-started (some m) x b e = absurd (ground arith)

pub backend_opened :
    (o : Outside) (vars : Vars) (url : Text) (b : Backend)
    → open_backend o vars url ≡ started b
    → (from_dsn url ≡ some b.dialect) × (open_error o b.dialect url ≡ none)
unfolding open_backend
backend_opened o vars url b h = by_dialect (from_dsn url) refl
  where
    by_dialect :
        (d : Option Dialect)
        → from_dsn url ≡ d
        → (from_dsn url ≡ some b.dialect) × (open_error o b.dialect url ≡ none)
    by_dialect none e = absurd (ground arith)
    by_dialect (some postgres) e =
        let (free, same) = opened-started _ _ b (rw e at h) in
        subst
          (λ (x : Backend). (from_dsn url ≡ some x.dialect) × (open_error o x.dialect url ≡ none))
          same (e, free)
    by_dialect (some sqlite) e =
        let (free, same) = opened-started _ _ b (rw e at h) in
        subst
          (λ (x : Backend). (from_dsn url ≡ some x.dialect) × (open_error o x.dialect url ≡ none))
          same (e, free)

pub known_url : (url : Text) (d : Dialect) → from_dsn url ≡ some d → url ≢ []
unfolding from_dsn
known_url [] d e = absurd (ground arith)
known_url (c ∷ url) d e = λ z. cc
