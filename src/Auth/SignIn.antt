-- ===== src/Auth/SignIn.antt =====
-- Who gets a session: `Callback` of internal/auth/oauth.go.
use stevy.Base.{
  ◌≡◌, refl, inl, inr, ◌≢◌, true, Option, none, some, List, [], ◌∷◌, arith, Bool-cases,
}
use stevy.Base.Text.{Text, text_eq}
use stevy.Auth.{email_allowed}
use stevy.Auth.Oauth.{
  UserInfo, Signing, Provider, signed_in, admit, with_info, with_token, callback, fetch_user_info,
}
use stevy.Auth.Sessions.{Cookie, set_session}
use stevy.Keys.{upsert_user}
use stevy.Store.{User, Store, Env, Result, ok, err}

module _ (p : Provider) (domains : List Text) (sign : Text → Text) (e : Env) where
  -- What stands behind a session cookie that was set.
  pub record IsSignedIn (want state code : Text) (s s' : Store) (cookies : List Cookie)
      : Type 0 where
    pub token : Text
    pub info : UserInfo
    pub user : User
    pub given : want ≢ []
    pub same_state : state ≡ want
    pub exchanged : p.exchange code ≡ ok token
    pub fetched : fetch_user_info p token ≡ ok info
    pub allowed : email_allowed domains info.email ≡ true
    pub stored : upsert_user e info.id info.email info.name s ≡ (ok user, s')
    pub session : cookies ≡ set_session sign user.id ∷ []

  stored_user :
      (o : Result User × Store) (g : Signing) (s' : Store)
      → signed_in sign o ≡ (g, s')
      → g.cookies ≢ []
      → (u : User) × (o ≡ (ok u, s')) × (g.cookies ≡ set_session sign u.id ∷ [])
  stored_user (ok u, s) g s' h some_cookie = (u, ground arith, ground arith)
  stored_user (err x, s) g s' h some_cookie = absurd (some_cookie (ground arith))

  admitted_user :
      (info : UserInfo) (s s' : Store) (g : Signing)
      → admit p domains sign e info s ≡ (g, s')
      → g.cookies ≢ []
      → (email_allowed domains info.email ≡ true)
        × (signed_in sign (upsert_user e info.id info.email info.name s) ≡ (g, s'))
  admitted_user info s s' g h some_cookie = elim (Bool-cases (email_allowed domains info.email)) [
    | inl ok_email ↦ (ok_email, rw ok_email at h)
    | inr refused_email ↦ absurd (some_cookie (ground arith))
  ]

  given_info :
      (o : Result UserInfo) (s s' : Store) (g : Signing)
      → with_info p domains sign e o s ≡ (g, s')
      → g.cookies ≢ []
      → (info : UserInfo) × (o ≡ ok info) × (admit p domains sign e info s ≡ (g, s'))
  given_info (ok info) s s' g h some_cookie = (info, refl, h)
  given_info (err x) s s' g h some_cookie = absurd (some_cookie (ground arith))

  given_token :
      (o : Result Text) (s s' : Store) (g : Signing)
      → with_token p domains sign e o s ≡ (g, s')
      → g.cookies ≢ []
      → (t : Text) × (o ≡ ok t) × (with_info p domains sign e (fetch_user_info p t) s ≡ (g, s'))
  given_token (ok t) s s' g h some_cookie = (t, refl, h)
  given_token (err x) s s' g h some_cookie = absurd (some_cookie (ground arith))

  given_state :
      (want state code : Text) (s s' : Store) (g : Signing)
      → callback p domains sign e (some want) state code s ≡ (g, s')
      → g.cookies ≢ []
      → (want ≢ []) × (state ≡ want) × (with_token p domains sign e (p.exchange code) s ≡ (g, s'))
  unfolding callback
  given_state want state code s s' g h some_cookie = elim (text_eq.dec want []) [
    | yes blank ↦ absurd (some_cookie (ground arith))
    | no given ↦ elim (text_eq.dec state want) [
      | yes same ↦ (given, same, ground arith)
      | no other ↦ absurd (some_cookie (ground arith))
    ]
  ]

  -- A callback that sets a cookie had the state cookie and a `state` equal to it; the provider exchanged
  -- the code and told of a user whose e-mail may sign in; that user was stored, and the cookie is the
  -- session of that user.
  pub callback-IsSignedIn :
      (cookie : Option Text) (state code : Text) (s s' : Store) (g : Signing)
      → callback p domains sign e cookie state code s ≡ (g, s')
      → g.cookies ≢ []
      → (want : Text) × (cookie ≡ some want) × IsSignedIn want state code s s' g.cookies
  unfolding callback
  callback-IsSignedIn none state code s s' g h some_cookie = absurd (some_cookie (ground arith))
  callback-IsSignedIn (some want) state code s s' g h some_cookie =
      let (given, same, h1) = given_state want state code s s' g h some_cookie in
      let (token, exchanged, h2) = given_token (p.exchange code) s s' g h1 some_cookie in
      let (info, fetched, h3) = given_info (fetch_user_info p token) s s' g h2 some_cookie in
      let (allowed, h4) = admitted_user info s s' g h3 some_cookie in
      let (user, stored, session) = stored_user _ g s' h4 some_cookie in
      (
        want,
        refl,
        record {
          token = token;
          info = info;
          user = user;
          given = given;
          same_state = same;
          exchanged = exchanged;
          fetched = fetched;
          allowed = allowed;
          stored = stored;
          session = session;
        },
      )
