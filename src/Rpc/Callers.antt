-- ===== src/Rpc/Callers.antt =====
-- Who may call what: new keys over the wire.
use stevy.Base.{
  ℕ, ◌≡◌, refl, sym, inl, inr, true, Option, none, some, [], ◌++◌, arith, Bool-cases, ◌==◌,
}
use stevy.Base.Text.{Text, codes, text_eq}
use stevy.Auth.{as_worker, as_user, user_id, is_worker_method, check_token, intercept, user_access}
use stevy.Auth.KeyHandlers.{
  CreateKeyResponse, created_key, create_key, key_body, with_user_id, with_text,
}
use stevy.Base.Trim.{trim_space}
use stevy.Http.{answer, Handler, respond, attempt, try_call}
use stevy.Keys.{create_api_key, lookup_api_key, create_worker_key, lookup_worker_key}
use stevy.Keys.ApiKeys.{lookup_api_key-create_api_key, create_api_key-IsNewApiKey}
use stevy.Keys.Lookup.{lookup_worker_key-create_worker_key, create_worker_key-IsNewWorkerKey}
use stevy.Store.{Store, Env, Result, ok, err}
use stevy.Web.Workers.{NewWorker, new_worker, worker_body, create_worker}

abbrev pub bearer : Text → Text
bearer token = codes "Bearer " ++ token

-- A call that is answered with 201 has succeeded.
called :
    {A B : Type 0} (code : ℕ) (o : Result A × Store) (f : A → B) (b : B) (s' : Store)
    → attempt code (λ a. respond (answer 201 (f a))) o ≡ (answer 201 b, s')
    → (a : A) × (o ≡ (ok a, s')) × (f a ≡ b)
called code (ok a, s) f b s' h = (a, ground arith, ground arith)
called code (err e, s) f b s' h = absurd (ground arith)

worker_found :
    (hash : Text → Text) (e : Env) (procedure buf id : Text) (s : Store)
    → is_worker_method procedure ≡ true
    → lookup_worker_key hash e (codes "stw_" ++ buf) s ≡ (ok id, s)
    → intercept hash e procedure (bearer (codes "stw_" ++ buf)) s ≡ (as_worker id, s)
unfolding intercept check_token
worker_found hash e procedure buf id s method found = rw method (rw found refl)

user_found :
    (hash : Text → Text) (e : Env) (procedure buf id user : Text) (s : Store)
    → (lookup_api_key hash e (codes "stv_" ++ buf) s).0 ≡ ok (id, user)
    → (intercept hash e procedure (bearer (codes "stv_" ++ buf)) s).0 ≡ as_user user
unfolding intercept check_token
user_found hash e procedure buf id user s found =
    through (lookup_api_key hash e (codes "stv_" ++ buf) s) found
  where
    through :
        (o : Result (Text × Text) × Store) → o.0 ≡ ok (id, user) → (user_access o).0 ≡ as_user user
    through (ok (i, u), t) h = ground arith
    through (err x, t) h = absurd (ground arith)

-- A response with a code of success comes from the call.
with_user_id-answer :
    {B : Type 0} (user : Text) (k : Text → Handler B) (code : ℕ) (b : B) (s s' : Store)
    → with_user_id user k s ≡ (answer code b, s')
    → k user s ≡ (answer code b, s')
with_user_id-answer user k code b s s' h = elim (Bool-cases (user == [])) [
  | inl e ↦ absurd (ground arith)
  | inr e ↦ rw e at h
]

with_text-answer :
    {B : Type 0} (missing : Text) (m : Option Text) (k : Text → Handler B) (code : ℕ) (b : B)
    (s s' : Store)
    → with_text missing m k s ≡ (answer code b, s')
    → (t : Text) × (k t s ≡ (answer code b, s'))
with_text-answer missing none k code b s s' h = absurd (ground arith)
with_text-answer missing (some t) k code b s s' h = elim (Bool-cases (trim_space t == [])) [
  | inl e ↦ absurd (ground arith)
  | inr e ↦ (trim_space t, rw e at h)
]

module _ (sign hash : Text → Text) (e e' : Env) (cookie random m : Option Text) (procedure : Text)
    (s s' : Store) (runs : e'.fault 0 ≡ none) where
  -- The key that the page of workers hands out passes the interceptor at once, on every method of the
  -- worker's list, as the worker that was made, if the statement of the lookup does not fail.
  pub intercept-create_worker :
      (n : NewWorker)
      → create_worker sign e cookie hash random m s ≡ (answer 201 (new_worker n), s')
      → is_worker_method procedure ≡ true
      → intercept hash e' procedure (bearer n.key) s' ≡ (as_worker n.id, s')
  unfolding create_worker
  intercept-create_worker n h method =
      let user = user_id sign cookie in
      let make = λ (u name : Text).
        try_call 500 (create_worker_key hash e random u name)
          (λ made. respond (answer 201 (worker_body name made))) in
      let h' =
        with_user_id-answer user (λ u. with_text (codes "name required") m (make u)) 201
          (new_worker n) s s' h in
      let (name, h'') =
        with_text-answer (codes "name required") m (make user) 201 (new_worker n) s s' h' in
      let ((id, plaintext), made, same) =
        called 500 (create_worker_key hash e random user name s) (worker_body name) (new_worker n)
          s' h'' in
      let found =
        lookup_worker_key-create_worker_key hash user name e e' runs random s s' id plaintext
          made in
      let new =
        create_worker_key-IsNewWorkerKey hash user name e e' runs random s s' id plaintext made in
      let is : (id ≡ n.id) × (plaintext ≡ n.key) = ground arith in
      rw (sym is.0, sym is.1, sym new.same_text)
        (worker_found hash e' procedure new.buf id s' method (rw new.same_text found))

  -- The key that `POST /keys` hands out passes the interceptor at once as the user of the session, if
  -- the statement of the lookup does not fail: on every method, those of the worker's list as well.
  pub intercept-create_key :
      (k : CreateKeyResponse)
      → create_key sign e cookie hash random m s ≡ (answer 201 (created_key k), s')
      → (intercept hash e' procedure (bearer k.key) s').0 ≡ as_user (user_id sign cookie)
  unfolding create_key
  intercept-create_key k h =
      let user = user_id sign cookie in
      let make = λ (u label : Text).
        try_call 500 (create_api_key hash e random u label)
          (λ made. respond (answer 201 (key_body made))) in
      let h' =
        with_user_id-answer user (λ u. with_text (codes "label required") m (make u)) 201
          (created_key k) s s' h in
      let (label, h'') =
        with_text-answer (codes "label required") m (make user) 201 (created_key k) s s' h' in
      let ((plaintext, row), made, same) =
        called 500 (create_api_key hash e random user label s) key_body (created_key k) s' h'' in
      let found =
        lookup_api_key-create_api_key hash user label e e' runs random s s' plaintext row made in
      let new =
        create_api_key-IsNewApiKey hash user label e e' runs random s s' plaintext row made in
      let is : plaintext ≡ k.key = ground arith in
      rw (sym is, sym new.same_text)
        (user_found hash e' procedure new.buf row.id user s' (rw new.same_text found))
