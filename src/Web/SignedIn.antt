-- ===== src/Web/SignedIn.antt =====
-- A sign-in and the requests after it.
use stevy.Base.{
  ◌≡◌, refl, sym, ◌∙◌, ap, subst, inl, inr, ◌≢◌, Bool, true, false, Option, none, some, List, [],
  ◌∷◌, All, arith, Bool-cases, ◌==◌,
}
use stevy.Base.Text.{Text, text_eq}
use stevy.Auth.{user_id, cookie_value, email_allowed}
use stevy.Auth.Laws.{no_dot, user_id-cookie_value}
use stevy.Auth.Oauth.{UserInfo, Signing, Provider, fetch_user_info, callback}
use stevy.Auth.Sessions.{Cookie, set_session}
use stevy.Auth.SignIn.{callback-IsSignedIn}
use stevy.Keys.{find_user, get_user_by_id}
use stevy.Keys.Users.{DistinctUsers, upsert_user-IsStored}
use stevy.Store.{User, Store, Env, ok}
use stevy.Web.{current_user}

-- An id that a cookie can carry, as a ULID is.
abbrev pub IsPlain : User → Type 0
IsPlain u = (u.id ≢ []) × (no_dot u.id ≡ true)

found-All :
    (P : User → Type 0) (test : User → Bool) (us : List User) (u : User)
    → All P us
    → find_user test us ≡ some u
    → P u
found-All P test [] u h f = absurd (ground arith)
found-All P test (x ∷ us) u h f = elim (Bool-cases (test x)) [
  | inl e ↦ let same : x ≡ u = ground arith in subst P same h.0
  | inr e ↦ found-All P test us u h.1 (rw e at f)
]

current_user-found :
    (sign : Text → Text) (e : Env) (cookie : Text) (s : Store) (u : User)
    → e.fault 0 ≡ none
    → user_id sign (some cookie) ≡ u.id
    → u.id ≢ []
    → find_user (λ x. x.id == u.id) s.users ≡ some u
    → current_user sign e (some cookie) s ≡ (some u, s)
unfolding current_user get_user_by_id
current_user-found sign e cookie s u runs named some_id found = elim (text_eq.dec u.id []) [
  | yes blank ↦ absurd (some_id blank)
  | no given ↦
      let is_blank : (u.id == []) ≡ false = ground arith in
      rw named (rw is_blank (rw runs (rw found refl)))
]

-- What a session cookie that a sign-in has set stands for.
pub record IsSession (p : Provider) (domains : List Text) (sign : Text → Text) (e : Env) (s : Store)
    (c : Cookie) : Type 0 where
  pub token : Text
  pub info : UserInfo
  pub user : User
  pub fetched : fetch_user_info p token ≡ ok info
  pub allowed : email_allowed domains user.email ≡ true
  pub same_google : user.google_id ≡ info.id
  pub same_email : user.email ≡ info.email
  pub read_back : current_user sign e (some c.value) s ≡ (some user, s)

abbrev first_value : List Cookie → Text
first_value [] = []
first_value (c ∷ cs) = c.value

-- The cookie that a callback sets lets the next request act as the user that the provider told of: the
-- pages find a user with that id of the provider and that e-mail, which may sign in. The ids of the
-- users are distinct beforehand, those stored are not empty and have no dot, and the query of the
-- next request does not fail.
pub callback-IsSession :
    (p : Provider) (domains : List Text) (sign : Text → Text) (e e' : Env) (cookie : Option Text)
    (state code : Text) (s s' : Store) (g : Signing) (c : Cookie)
    → DistinctUsers s.users
    → All IsPlain s'.users
    → e'.fault 0 ≡ none
    → callback p domains sign e cookie state code s ≡ (g, s')
    → g.cookies ≡ c ∷ []
    → IsSession p domains sign e' s' c
unfolding set_session
callback-IsSession p domains sign e e' cookie state code s s' g c distinct plain runs h one =
    let (want, given, signed) =
      callback-IsSignedIn p domains sign e cookie state code s s' g h
        (λ none_set. absurd (ground arith)) in
    let user = signed.user in
    let stored =
      upsert_user-IsStored signed.info.id signed.info.email signed.info.name e s s' user distinct
        signed.stored in
    let (some_id, dotless) =
      found-All IsPlain (λ x. x.id == user.id) s'.users user plain stored.found in
    let session = signed.session in
    let value : c.value ≡ cookie_value sign user.id = ap first_value (sym one ∙ session) in
    record {
      token = signed.token;
      info = signed.info;
      user = user;
      fetched = signed.fetched;
      allowed = rw stored.same_email signed.allowed;
      same_google = stored.same_google;
      same_email = stored.same_email;
      read_back =
          current_user-found sign e' c.value s' user runs
            (ap (λ v. user_id sign (some v)) value ∙ user_id-cookie_value sign user.id dotless)
            some_id stored.found;
    }
