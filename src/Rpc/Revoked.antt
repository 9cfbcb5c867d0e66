-- ===== src/Rpc/Revoked.antt =====
-- Keys that were deleted, over the wire.
use stevy.Base.{
  ◌≤◌, ◌≡◌, ◌∙◌, ℕ-cases, refl, sym, ap, inl, inr, Bool, true, not, none, some, List, [], ◌∷◌, ◌++◌,
  filter, count, arith, Option-cases, Bool-cases, ◌==◌,
}
use stevy.Base.Text.{Text, codes, text_eq}
use stevy.Auth.{
  Access, unauthenticated, permission_denied, is_worker_method, check_token, intercept,
}
use stevy.Keys.{
  find_worker, find_api_key, lookup_worker_key, lookup_api_key, is_users_worker, is_users_key,
  delete_worker, delete_api_key,
}
use stevy.Rpc.Callers.{bearer}
use stevy.Store.{ApiKey, Worker, Store, Env, Result, ok}

-- The interceptor lets no handler run.
pub data IsDenied : Access → Type 0 where
  no_key : IsDenied unauthenticated
  no_right : IsDenied permission_denied

fewer :
    {A : Type 0} (p test : A → Bool) (xs : List A) → count p xs ≡ 0 → count p (filter test xs) ≡ 0
fewer p test [] z = refl
fewer p test (x ∷ xs) z = ground (arith, fewer p test xs)

absent_worker :
    (h : Text) (ws : List Worker) → count (λ x. x.key_hash == h) ws ≡ 0 → find_worker h ws ≡ none
unfolding find_worker
absent_worker h [] z = refl
absent_worker h (x ∷ ws) z = ground (arith, absent_worker h ws)

gone_worker :
    (h : Text) (test : Worker → Bool) (ws : List Worker) (w : Worker)
    → count (λ x. x.key_hash == h) ws ≤ 1
    → find_worker h ws ≡ some w
    → test w ≡ true
    → find_worker h (filter (λ x. not (test x)) ws) ≡ none
unfolding find_worker
gone_worker h test [] w once f t = absurd (ground arith)
gone_worker h test (x ∷ ws) w once f t = elim (Bool-cases (x.key_hash == h)) [
  | inl e ↦
      let same : x ≡ w = ground arith in
      let deleted : test x ≡ true = rw same t in
      let none_left : count (λ y. y.key_hash == h) ws ≡ 0 = ground arith in
      rw deleted (absent_worker h _ (fewer _ (λ y. not (test y)) ws none_left))
  | inr e ↦ let rest = gone_worker h test ws w (ground arith) (rw e at f) t in ground arith
]

absent_key :
    (h : Text) (ks : List ApiKey) → count (λ x. x.key_hash == h) ks ≡ 0 → find_api_key h ks ≡ none
unfolding find_api_key
absent_key h [] z = refl
absent_key h (x ∷ ks) z = ground (arith, absent_key h ks)

gone_key :
    (h : Text) (test : ApiKey → Bool) (ks : List ApiKey) (k : ApiKey)
    → count (λ x. x.key_hash == h) ks ≤ 1
    → find_api_key h ks ≡ some k
    → test k ≡ true
    → find_api_key h (filter (λ x. not (test x)) ks) ≡ none
unfolding find_api_key
gone_key h test [] k once f t = absurd (ground arith)
gone_key h test (x ∷ ks) k once f t = elim (Bool-cases (x.key_hash == h)) [
  | inl e ↦
      let same : x ≡ k = ground arith in
      let deleted : test x ≡ true = rw same t in
      let none_left : count (λ y. y.key_hash == h) ks ≡ 0 = ground arith in
      rw deleted (absent_key h _ (fewer _ (λ y. not (test y)) ks none_left))
  | inr e ↦ let rest = gone_key h test ks k (ground arith) (rw e at f) t in ground arith
]

key_refused :
    (hash : Text → Text) (e : Env) (procedure buf : Text) (s : Store)
    → find_api_key (hash (codes "stv_" ++ buf)) s.api_keys ≡ none
    → IsDenied (intercept hash e procedure (bearer (codes "stv_" ++ buf)) s).0
unfolding intercept check_token lookup_api_key
key_refused hash e procedure buf s f = elim (Option-cases (e.fault 0)) [
  | inl runs ↦ rw (runs, f) no_key
  | inr (x, fails) ↦ rw fails no_key
]

worker_refused :
    (hash : Text → Text) (e : Env) (procedure buf : Text) (s : Store)
    → find_worker (hash (codes "stw_" ++ buf)) s.workers ≡ none
    → IsDenied (intercept hash e procedure (bearer (codes "stw_" ++ buf)) s).0
unfolding intercept check_token lookup_worker_key
worker_refused hash e procedure buf s f = elim (Bool-cases (is_worker_method procedure)) [
  | inr m ↦ rw m no_right
  | inl m ↦ elim (Option-cases (e.fault 0)) [
    | inl runs ↦ rw (m, runs, f) no_key
    | inr (x, fails) ↦ rw (m, fails) no_key
  ]
]

deleted_workers :
    (e : Env) (user id : Text) (s s' : Store)
    → delete_worker e user id s ≡ (ok tt, s')
    → s'.workers ≡ filter (λ w. not (is_users_worker id user w)) s.workers
unfolding delete_worker
deleted_workers e user id s s' h = elim (Option-cases (e.fault 0)) [
  | inr (x, fails) ↦ absurd (ground arith)
  | inl runs ↦ elim (ℕ-cases (count (is_users_worker id user) s.workers)) [
    | inl z ↦ absurd (ground arith)
    | inr (n, z) ↦
        let after : Store = record s {
          workers = filter (λ w. not (is_users_worker id user w)) s.workers;
        } in
        let h' : ◌≡◌ {A = Result (Unit {0}) × Store} (ok tt, after) (ok tt, s') =
          rw (runs, z) at h in
        sym (ap (λ o. o.1.workers) h')
  ]
]

deleted_keys :
    (e : Env) (user id : Text) (s s' : Store)
    → delete_api_key e user id s ≡ (ok tt, s')
    → s'.api_keys ≡ filter (λ k. not (is_users_key id user k)) s.api_keys
unfolding delete_api_key
deleted_keys e user id s s' h = elim (Option-cases (e.fault 0)) [
  | inr (x, fails) ↦ absurd (ground arith)
  | inl runs ↦ elim (ℕ-cases (count (is_users_key id user) s.api_keys)) [
    | inl z ↦ absurd (ground arith)
    | inr (n, z) ↦
        let after : Store = record s {
          api_keys = filter (λ k. not (is_users_key id user k)) s.api_keys;
        } in
        let h' : ◌≡◌ {A = Result (Unit {0}) × Store} (ok tt, after) (ok tt, s') =
          rw (runs, z) at h in
        sym (ap (λ o. o.1.api_keys) h')
  ]
]

module _ (hash : Text → Text) (e e' : Env) (user id procedure buf : Text) (s s' : Store) where
  -- Once a user has deleted a worker, the worker's key passes the interceptor on no method any more,
  -- if the user made the worker and no other worker has the key's hash.
  pub intercept-delete_worker :
      (w : Worker)
      → find_worker (hash (codes "stw_" ++ buf)) s.workers ≡ some w
      → is_users_worker id user w ≡ true
      → count (λ x. x.key_hash == hash (codes "stw_" ++ buf)) s.workers ≤ 1
      → delete_worker e user id s ≡ (ok tt, s')
      → IsDenied (intercept hash e' procedure (bearer (codes "stw_" ++ buf)) s').0
  intercept-delete_worker w found own once h = worker_refused hash e' procedure buf s' (
      ap (find_worker (hash (codes "stw_" ++ buf))) (deleted_workers e user id s s' h)
      ∙ gone_worker (hash (codes "stw_" ++ buf)) (is_users_worker id user) s.workers w once found
          own)

  -- Once a user has deleted an API key of theirs, the key passes the interceptor on no method any more,
  -- if no other key has its hash.
  pub intercept-delete_api_key :
      (k : ApiKey)
      → find_api_key (hash (codes "stv_" ++ buf)) s.api_keys ≡ some k
      → is_users_key id user k ≡ true
      → count (λ x. x.key_hash == hash (codes "stv_" ++ buf)) s.api_keys ≤ 1
      → delete_api_key e user id s ≡ (ok tt, s')
      → IsDenied (intercept hash e' procedure (bearer (codes "stv_" ++ buf)) s').0
  intercept-delete_api_key k found own once h = key_refused hash e' procedure buf s' (
      ap (find_api_key (hash (codes "stv_" ++ buf))) (deleted_keys e user id s s' h)
      ∙ gone_key (hash (codes "stv_" ++ buf)) (is_users_key id user) s.api_keys k once found own)
