-- ===== src/Keys/Users.antt =====
-- `UpsertUser` and `GetUserByID` of internal/db/db.go.
use stevy.Base.{
  ℕ, ◌≡◌, refl, sym, ap, inl, inr, Bool, true, false, Option, none, some, List, [], ◌∷◌, ◌++◌,
  arith, Option-cases, Bool-cases, ◌==◌,
}
use stevy.Base.Text.{Text, text_eq}
use stevy.Keys.{has_user, find_user, update_users, write_user, upsert_user}
use stevy.Store.{User, Store, Env, Result, ok}

-- The primary key of `users`.
abbrev pub DistinctUsers : List User → Type 0
DistinctUsers [] = Unit
DistinctUsers (u ∷ us) = (has_user u.id us ≡ false) × DistinctUsers us

found_has_user :
    (test : User → Bool) (us : List User) (u : User)
    → find_user test us ≡ some u
    → has_user u.id us ≡ true
found_has_user test [] u f = absurd (ground arith)
found_has_user test (x ∷ us) u f = ground (arith, found_has_user test us u)

find_user-test :
    (test : User → Bool) (us : List User) (u : User) → find_user test us ≡ some u → test u ≡ true
find_user-test test [] u f = absurd (ground arith)
find_user-test test (x ∷ us) u f = ground (arith, find_user-test test us u)

find_user-append :
    (u : User) (us : List User)
    → has_user u.id us ≡ false
    → find_user (λ x. x.id == u.id) (us ++ (u ∷ [])) ≡ some u
find_user-append u [] h = ground arith
find_user-append u (x ∷ us) h = ground (arith, find_user-append u us)

module _ (google_id email name : Text) where
  abbrev changed : User → User
  changed u = record u { email = email; name = name }

  find_user-updated :
      (us : List User) (old : User)
      → DistinctUsers us
      → find_user (λ x. x.google_id == google_id) us ≡ some old
      → find_user (λ x. x.id == old.id) (update_users google_id email name us) ≡ some (changed old)
  find_user-updated [] old d f = absurd (ground arith)
  find_user-updated (x ∷ us) old d f = elim (Bool-cases (x.google_id == google_id)) [
    | inl e ↦ let same : x ≡ old = ground arith in rw (e, same) (ground arith)
    | inr e ↦
        let later : find_user (λ x. x.google_id == google_id) us ≡ some old = rw e at f in
        let kept = found_has_user (λ x. x.google_id == google_id) us old later in
        let rest = find_user-updated us old d.1 later in let fresh = d.0 in ground arith
  ]

  -- What `UpsertUser` returns.
  pub record IsStored (u : User) (s' : Store) : Type 0 where
    pub found : find_user (λ x. x.id == u.id) s'.users ≡ some u
    pub same_google : u.google_id ≡ google_id
    pub same_email : u.email ≡ email
    pub same_name : u.name ≡ name

  returned_user :
      (x : User) (t s' : Store) (u : User)
      → ◌≡◌ {A = Result User × Store} (ok x, t) (ok u, s')
      → IsStored x t
      → IsStored u s'
  returned_user x t s' u h stored =
      let same : x ≡ u = ground (arith, ap (λ o. o.0) h) in
      let after : t ≡ s' = ap (λ o. o.1) h in rw (sym same, sym after) stored

  write_user-IsStored :
      (id : Text) (now : ℕ) (old : Option User) (s s' : Store) (u : User)
      → DistinctUsers s.users
      → find_user (λ x. x.google_id == google_id) s.users ≡ old
      → write_user
          (record { id = id; google_id = google_id; email = email; name = name; created_at = now })
          old
          s
        ≡ (ok u, s')
      → IsStored u s'
  write_user-IsStored id now none s s' u d f h = elim (Bool-cases (has_user id s.users)) [
    | inl taken ↦ absurd (ground arith)
    | inr fresh ↦
        let new : User = record {
          id = id;
          google_id = google_id;
          email = email;
          name = name;
          created_at = now;
        } in
        returned_user new (record s { users = s.users ++ (new ∷ []) }) s' u (rw fresh at h)
          (record {
            found = find_user-append new s.users fresh;
            same_google = refl;
            same_email = refl;
            same_name = refl;
          })
  ]
  write_user-IsStored id now (some old) s s' u d f h =
      let google = find_user-test (λ x. x.google_id == google_id) s.users old f in
      returned_user (changed old) (record s { users = update_users google_id email name s.users })
        s' u h
        (record {
          found = find_user-updated s.users old d f;
          same_google = ground arith;
          same_email = refl;
          same_name = refl;
        })

  -- The user that `UpsertUser` returns is stored under its id, with the data that came in.
  pub upsert_user-IsStored :
      (e : Env) (s s' : Store) (u : User)
      → DistinctUsers s.users
      → upsert_user e google_id email name s ≡ (ok u, s')
      → IsStored u s'
  unfolding upsert_user
  upsert_user-IsStored e s s' u d h = elim (Option-cases e.new_id) [
    | inl i ↦ absurd (ground arith)
    | inr (id, i) ↦ elim (Option-cases (e.fault 0)) [
      | inl f ↦ write_user-IsStored id e.now _ s s' u d refl (rw (i, f) at h)
      | inr (m, f) ↦ absurd (ground arith)
    ]
  ]
