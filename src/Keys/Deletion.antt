-- ===== src/Keys/Deletion.antt =====
-- `DeleteAPIKey` and `DeleteWorker` of internal/db/db.go.
use stevy.Base.{
  ◌⊎◌, ◌≢◌, ℕ-cases, ◌≡◌, refl, inl, inr, false, not, List, [], ◌∷◌, filter, any, count, arith,
  Option-cases, ◌==◌,
}
use stevy.Base.Text.{Text, text_eq}
use stevy.Keys.{is_users_key, delete_api_key}
use stevy.Store.{ApiKey, Store, Env, ok}

-- The keys of all other users.
abbrev pub others_keys : Text → List ApiKey → List ApiKey
others_keys user ks = filter (λ k. not (k.user_id == user)) ks

kept_keys :
    (user id : Text) (ks : List ApiKey)
    → others_keys user (filter (λ k. not (is_users_key id user k)) ks) ≡ others_keys user ks
kept_keys user id [] = refl
kept_keys user id (k ∷ ks) = ground (arith, kept_keys user id ks)

gone_keys :
    (user id : Text) (ks : List ApiKey)
    → any (is_users_key id user) (filter (λ k. not (is_users_key id user k)) ks) ≡ false
gone_keys user id [] = refl
gone_keys user id (k ∷ ks) = ground (arith, gone_keys user id ks)

untouched :
    (user id : Text) (ks : List ApiKey)
    → count (is_users_key id user) ks ≡ 0
    → filter (λ k. not (is_users_key id user k)) ks ≡ ks
untouched user id [] h = refl
untouched user id (k ∷ ks) h = ground (arith, untouched user id ks)

-- `DeleteAPIKey` never touches another user's key. If it succeeds, the user has no key of that id any
-- more; if it fails, no key is gone.
pub delete_api_key-others :
    (e : Env) (user id : Text) (s : Store)
    → let after = delete_api_key e user id s in
      (others_keys user after.1.api_keys ≡ others_keys user s.api_keys)
      × (((after.0 ≡ ok tt) × (any (is_users_key id user) after.1.api_keys ≡ false))
          ⊎ ((after.0 ≢ ok tt) × (after.1.api_keys ≡ s.api_keys)))
unfolding delete_api_key
delete_api_key-others e user id s = elim (Option-cases (e.fault 0)) [
  | inr (m, f) ↦ rw f (refl, inr (λ h. absurd (ground arith), refl))
  | inl f ↦ elim (ℕ-cases (count (is_users_key id user) s.api_keys)) [
    | inl z ↦
        rw (f, z)
          (
            kept_keys user id s.api_keys,
            inr (λ h. absurd (ground arith), untouched user id s.api_keys z),
          )
    | inr (n, z) ↦
        rw (f, z) (kept_keys user id s.api_keys, inl (refl, gone_keys user id s.api_keys))
  ]
]
