-- ===== src/Keys/Lookup.antt =====
-- Worker keys of internal/db/db.go: creation and lookup.
use stevy.Base.{
  ◌≡◌, sym, ap, subst, inl, inr, false, ◌&&◌, not, Option, none, some, List, [], ◌∷◌, ◌++◌, any,
  take, Option-cases, arith, Bool-cases,
}
use stevy.Base.Text.{Text, codes, text_eq}
use stevy.Keys.{clashes, create_worker_key, find_worker, lookup_worker_key, has_user, worker_id}
use stevy.Store.{Store, Worker, Env, Result, ok, exec}

find_worker-append :
    (w : Worker) (ws : List Worker)
    → any (clashes w) ws ≡ false
    → find_worker w.key_hash (ws ++ (w ∷ [])) ≡ some w
unfolding find_worker
find_worker-append w [] h = ground arith
find_worker-append w (x ∷ ws) h = ground (arith, find_worker-append w ws)

module _ (hash : Text → Text) (user name : Text) (e e' : Env) (runs : e'.fault 0 ≡ none) where
  abbrev new_worker : Text → Text → Worker
  new_worker buf id = record {
    id = id;
    name = name;
    key_hash = hash (codes "stw_" ++ buf);
    key_prefix = take 12 (codes "stw_" ++ buf);
    created_by = some user;
    created_at = e.now;
    last_seen_at = none;
  }

  abbrev added : Worker → Store → Store
  added w s = record s { workers = s.workers ++ (w ∷ []) }

  found_new :
      (w : Worker) (s : Store)
      → any (clashes w) s.workers ≡ false
      → exec (e'.fault 0) (λ t. worker_id (find_worker w.key_hash t.workers) t) (added w s)
        ≡ (ok w.id, added w s)
  found_new w s h = rw runs (rw (find_worker-append w s.workers h))

  -- What a key that was returned says of the store before and after.
  pub record IsNewWorkerKey (s s' : Store) (id plaintext : Text) : Type 0 where
    pub buf : Text
    pub same_text : codes "stw_" ++ buf ≡ plaintext
    pub fresh : any (clashes (new_worker buf id)) s.workers ≡ false
    pub after : added (new_worker buf id) s ≡ s'

  pub create_worker_key-IsNewWorkerKey :
      (random : Option Text) (s s' : Store) (id plaintext : Text)
      → create_worker_key hash e random user name s ≡ (ok (id, plaintext), s')
      → IsNewWorkerKey s s' id plaintext
  unfolding create_worker_key
  create_worker_key-IsNewWorkerKey none s s' id plaintext h = absurd (ground arith)
  create_worker_key-IsNewWorkerKey (some buf) s s' id plaintext h = elim (Option-cases e.new_id) [
    | inl i ↦ absurd (ground arith)
    | inr (new, i) ↦ elim (Option-cases (e.fault 0)) [
      | inr (m, f) ↦ absurd (ground arith)
      | inl f ↦
          let w = new_worker buf new in
          elim (Bool-cases (has_user user s.users && not (any (clashes w) s.workers))) [
            | inr bad ↦ absurd (ground arith)
            | inl good ↦
                let h' : ◌≡◌ {A = Result (Text × Text) × Store}
                    (ok (new, codes "stw_" ++ buf), added w s) (ok (id, plaintext), s') =
                  rw (i, f, good) at h in
                let same : (new ≡ id) × (codes "stw_" ++ buf ≡ plaintext) =
                  ground (arith, ap (λ o. o.0) h') in
                let after : added w s ≡ s' = ap (λ o. o.1) h' in
                let fresh : any (clashes w) s.workers ≡ false = ground arith in
                record {
                  buf = buf;
                  same_text = same.1;
                  fresh =
                      subst (λ i. any (clashes (new_worker buf i)) s.workers ≡ false) same.0 fresh;
                  after = subst (λ i. added (new_worker buf i) s ≡ s') same.0 after;
                }
          ]
    ]
  ]

  -- A worker key that `CreateWorkerKey` has returned is found at once by `LookupWorkerKey`, as the
  -- worker that was created, if the lookup's statement does not fail.
  pub lookup_worker_key-create_worker_key :
      (random : Option Text) (s s' : Store) (id plaintext : Text)
      → create_worker_key hash e random user name s ≡ (ok (id, plaintext), s')
      → lookup_worker_key hash e' plaintext s' ≡ (ok id, s')
  unfolding lookup_worker_key
  lookup_worker_key-create_worker_key random s s' id plaintext h =
      let made = create_worker_key-IsNewWorkerKey random s s' id plaintext h in
      rw (sym made.same_text, sym made.after) (found_new (new_worker made.buf id) s made.fresh)
