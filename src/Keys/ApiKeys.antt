-- ===== src/Keys/ApiKeys.antt =====
-- API keys of internal/db/db.go: creation and lookup.
use stevy.Base.{
  ◌≡◌, sym, ap, subst, ◌∙◌, inl, inr, Bool, false, ◌||◌, Option, none, some, List, [], ◌∷◌, ◌++◌,
  any, take, arith, Bool-cases, Option-cases, ◌==◌,
}
use stevy.Base.Text.{Text, codes, text_eq}
use stevy.Keys.{
  create_api_key, fits_api_keys, find_api_key, key_owner, lookup_api_key, touch_api_keys,
}
use stevy.Store.{Store, ApiKey, Env, Result, ok, exec}

abbrev same_key : ApiKey → ApiKey → Bool
same_key k x = (x.id == k.id) || (x.key_hash == k.key_hash)

find_api_key-append :
    (k : ApiKey) (ks : List ApiKey)
    → any (same_key k) ks ≡ false
    → find_api_key k.key_hash (ks ++ (k ∷ [])) ≡ some k
unfolding find_api_key
find_api_key-append k [] h = ground arith
find_api_key-append k (x ∷ ks) h = ground (arith, find_api_key-append k ks)

module _ (hash : Text → Text) (user label : Text) (e e' : Env) (runs : e'.fault 0 ≡ none) where
  abbrev made_key : Text → Text → ApiKey
  made_key buf id = record {
    id = id;
    user_id = user;
    label = label;
    key_hash = hash (codes "stv_" ++ buf);
    key_prefix = take 12 (codes "stv_" ++ buf);
    created_at = e.now;
    last_used_at = none;
  }

  abbrev stored : ApiKey → Store → Store
  stored k s = record s { api_keys = s.api_keys ++ (k ∷ []) }

  found_stored :
      (k : ApiKey) (s : Store)
      → any (same_key k) s.api_keys ≡ false
      → (exec
          (e'.fault 0)
          (λ t.
            key_owner
              (find_api_key k.key_hash t.api_keys)
              (record t { api_keys = touch_api_keys e'.now k.key_hash t.api_keys }))
          (stored k s)).0
        ≡ ok (k.id, k.user_id)
  found_stored k s h = rw runs (rw (find_api_key-append k s.api_keys h))

  -- What a key that was returned says of the store before and after.
  pub record IsNewApiKey (s s' : Store) (plaintext : Text) (k : ApiKey) : Type 0 where
    pub buf : Text
    pub same_text : codes "stv_" ++ buf ≡ plaintext
    pub same_row : made_key buf k.id ≡ k
    pub fresh : any (same_key k) s.api_keys ≡ false
    pub after : stored k s ≡ s'

  pub create_api_key-IsNewApiKey :
      (random : Option Text) (s s' : Store) (plaintext : Text) (k : ApiKey)
      → create_api_key hash e random user label s ≡ (ok (plaintext, k), s')
      → IsNewApiKey s s' plaintext k
  unfolding create_api_key
  create_api_key-IsNewApiKey none s s' plaintext k h = absurd (ground arith)
  create_api_key-IsNewApiKey (some buf) s s' plaintext k h = elim (Option-cases e.new_id) [
    | inl i ↦ absurd (ground arith)
    | inr (new, i) ↦ elim (Option-cases (e.fault 0)) [
      | inr (m, f) ↦ absurd (ground arith)
      | inl f ↦
          let made = made_key buf new in
          elim (Bool-cases (fits_api_keys made s)) [
            | inr bad ↦ absurd (ground arith)
            | inl good ↦
                let h' : ◌≡◌ {A = Result (Text × ApiKey) × Store}
                    (ok (codes "stv_" ++ buf, made), stored made s) (ok (plaintext, k), s') =
                  rw (i, f, good) at h in
                let same : (codes "stv_" ++ buf ≡ plaintext) × (made ≡ k) =
                  ground (arith, ap (λ o. o.0) h') in
                let after : stored made s ≡ s' = ap (λ o. o.1) h' in
                let fresh : any (same_key made) s.api_keys ≡ false = ground arith in
                record {
                  buf = buf;
                  same_text = same.0;
                  same_row = ap (λ (x : ApiKey). made_key buf x.id) (sym same.1) ∙ same.1;
                  fresh = subst (λ x. any (same_key x) s.api_keys ≡ false) same.1 fresh;
                  after = subst (λ x. stored x s ≡ s') same.1 after;
                }
          ]
    ]
  ]

  -- An API key that `CreateAPIKey` has returned is found at once by `LookupAPIKey`, under its id and
  -- as its user's, if the lookup's statement does not fail.
  pub lookup_api_key-create_api_key :
      (random : Option Text) (s s' : Store) (plaintext : Text) (k : ApiKey)
      → create_api_key hash e random user label s ≡ (ok (plaintext, k), s')
      → (lookup_api_key hash e' plaintext s').0 ≡ ok (k.id, user)
  unfolding lookup_api_key
  lookup_api_key-create_api_key random s s' plaintext k h =
      let made = create_api_key-IsNewApiKey random s s' plaintext k h in
      let fresh' : any (same_key (made_key made.buf k.id)) s.api_keys ≡ false =
        subst (λ x. any (same_key x) s.api_keys ≡ false) (sym made.same_row) made.fresh in
      let after' : stored (made_key made.buf k.id) s ≡ s' =
        subst (λ x. stored x s ≡ s') (sym made.same_row) made.after in
      rw (sym made.same_text, sym after') (found_stored (made_key made.buf k.id) s fresh')
