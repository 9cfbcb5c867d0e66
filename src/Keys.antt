-- ===== src/Keys.antt =====
-- internal/db/db.go: users, API keys and worker keys. The hash (`sha256Hex`) is a parameter, and so
-- is the random text of a new key, none where `rand.Read` fails.
pub mod Lookup
pub mod ApiKeys
pub mod Workers
pub mod Deletion
pub mod Users
use stevy.Base.{
  ℕ, zero, suc, Bool, true, false, ◌&&◌, ◌||◌, not, Option, none, some, List, [], ◌∷◌, ◌++◌, filter,
  take, map, any, count, ltb, if◌then◌else◌, ◌==◌,
}
use stevy.Base.Sort.{sort}
use stevy.Base.Text.{Text, codes, text_eq}
use stevy.Statements.{with_new_id}
use stevy.Store.{
  Store, User, ApiKey, Worker, Env, Error, constraint, no_entropy, failed, ok, err, M, pure, throw,
  ◌>>=◌, ◌>>◌, exec,
}

-- `INSERT INTO users … ON CONFLICT (google_id) DO UPDATE SET email, name … RETURNING …`
abbrev pub has_user : Text → List User → Bool
has_user id us = any (λ u. u.id == id) us

abbrev pub find_user : (User → Bool) → List User → Option User
find_user test [] = none
find_user test (u ∷ us) = let rest = find_user test us in if test u then some u else rest

abbrev pub update_users : Text → Text → Text → List User → List User
update_users google_id email name [] = []
update_users google_id email name (u ∷ us) =
    (if u.google_id == google_id then record u { email = email; name = name } else u)
    ∷ update_users google_id email name us

abbrev pub insert_user : User → M User
insert_user u s =
    if has_user u.id s.users
    then (err constraint, s)
    else (ok u, record s { users = s.users ++ (u ∷ []) })

abbrev pub write_user : User → Option User → M User
write_user new none s = insert_user new s
write_user new (some old) s = (
  ok (record old { email = new.email; name = new.name }),
  record s { users = update_users new.google_id new.email new.name s.users },
)

unfoldable pub upsert_user : Env → Text → Text → Text → M User
upsert_user e google_id email name = with_new_id e.new_id λ id. exec (e.fault 0) λ s.
    write_user
      (record { id = id; google_id = google_id; email = email; name = name; created_at = e.now })
      (find_user (λ u. u.google_id == google_id) s.users) s

abbrev pub no_rows : Error
no_rows = failed (codes "sql: no rows in result set")

abbrev pub or_error : {A : Type 0} → Error → Option A → M A
or_error e none = throw e
or_error e (some a) = pure a

unfoldable pub get_user_by_id : Env → Text → M User
get_user_by_id e id = exec (e.fault 0) λ s. or_error no_rows (find_user (λ u. u.id == id) s.users) s

-- A key's row may be added: its id and hash are new, and its user exists.
abbrev pub fits_api_keys : ApiKey → Store → Bool
fits_api_keys k s =
    has_user k.user_id s.users
    && not (any (λ x. (x.id == k.id) || (x.key_hash == k.key_hash)) s.api_keys)

abbrev pub insert_api_key : ApiKey → M ApiKey
insert_api_key k s =
    if fits_api_keys k s
    then (ok k, record s { api_keys = s.api_keys ++ (k ∷ []) })
    else (err constraint, s)

-- `buf` is the text of the random bytes.
abbrev pub with_random : {A : Type 0} → Option Text → (Text → M A) → M A
with_random none k = throw no_entropy
with_random (some buf) k = k buf

unfoldable pub create_api_key : (Text → Text) → Env → Option Text → Text → Text → M (Text × ApiKey)
create_api_key hash e random user label = with_random random λ buf.
    let plaintext = codes "stv_" ++ buf in
    with_new_id e.new_id λ id. do
      k ← exec (e.fault 0) (
          insert_api_key (record {
            id = id;
            user_id = user;
            label = label;
            key_hash = hash plaintext;
            key_prefix = take 12 plaintext;
            created_at = e.now;
            last_used_at = none;
          }))
      pure (plaintext, k)

unfoldable pub later_key : ApiKey → ApiKey → Bool
later_key a b = ltb b.created_at a.created_at

unfoldable pub list_api_keys : Env → Text → M (List ApiKey)
unfolding later_key
list_api_keys e user =
    exec (e.fault 0) λ s. (ok (sort later_key (filter (λ k. k.user_id == user) s.api_keys)), s)

abbrev pub require : Error → ℕ → M (Unit {0})
require e zero = throw e
require e (suc n) = pure tt

abbrev pub is_users_key : Text → Text → ApiKey → Bool
is_users_key id user k = (k.id == id) && (k.user_id == user)

unfoldable pub delete_api_key : Env → Text → Text → M (Unit {0})
delete_api_key e user id = do
  n ← exec (e.fault 0) λ s. (
    ok (count (is_users_key id user) s.api_keys),
    record s { api_keys = filter (λ k. not (is_users_key id user k)) s.api_keys },
  )
  require (failed (codes "key not found")) n

unfoldable pub find_api_key : Text → List ApiKey → Option ApiKey
find_api_key hashed [] = none
find_api_key hashed (k ∷ ks) =
    let rest = find_api_key hashed ks in if k.key_hash == hashed then some k else rest

abbrev pub touch_api_keys : ℕ → Text → List ApiKey → List ApiKey
touch_api_keys now hashed [] = []
touch_api_keys now hashed (k ∷ ks) =
    (if k.key_hash == hashed then record k { last_used_at = some now } else k)
    ∷ touch_api_keys now hashed ks

abbrev pub invalid_key : Error
invalid_key = failed (codes "invalid key")

-- The id and the user of the key.
abbrev pub key_owner : Option ApiKey → M (Text × Text)
key_owner none = throw invalid_key
key_owner (some k) = pure (k.id, k.user_id)

unfoldable pub lookup_api_key : (Text → Text) → Env → Text → M (Text × Text)
unfolding find_api_key
lookup_api_key hash e plaintext = exec (e.fault 0) λ s.
    key_owner (find_api_key (hash plaintext) s.api_keys)
      (record s { api_keys = touch_api_keys e.now (hash plaintext) s.api_keys })

-- A worker's row may be added: its id, name and hash are new, and its creator exists.
abbrev pub clashes : Worker → Worker → Bool
clashes w x = (x.id == w.id) || ((x.name == w.name) || (x.key_hash == w.key_hash))

abbrev pub insert_worker : Text → Worker → M (Unit {0})
insert_worker user w s =
    if has_user user s.users && not (any (clashes w) s.workers)
    then (ok tt, record s { workers = s.workers ++ (w ∷ []) })
    else (err constraint, s)

unfoldable pub create_worker_key : (Text → Text) → Env → Option Text → Text → Text → M (Text × Text)
create_worker_key hash e random user name = with_random random λ buf.
    let plaintext = codes "stw_" ++ buf in
    with_new_id e.new_id λ id. do
      exec (e.fault 0) (
          insert_worker user (record {
            id = id;
            name = name;
            key_hash = hash plaintext;
            key_prefix = take 12 plaintext;
            created_by = some user;
            created_at = e.now;
            last_seen_at = none;
          }))
      pure (id, plaintext)

unfoldable pub find_worker : Text → List Worker → Option Worker
find_worker hashed [] = none
find_worker hashed (w ∷ ws) =
    let rest = find_worker hashed ws in if w.key_hash == hashed then some w else rest

abbrev pub worker_id : Option Worker → M Text
worker_id none = throw invalid_key
worker_id (some w) = pure w.id

unfoldable pub lookup_worker_key : (Text → Text) → Env → Text → M Text
unfolding find_worker
lookup_worker_key hash e plaintext =
    exec (e.fault 0) λ s. worker_id (find_worker (hash plaintext) s.workers) s

abbrev pub is_created_by : Text → Option Text → Bool
is_created_by user none = false
is_created_by user (some creator) = creator == user

abbrev pub is_users_worker : Text → Text → Worker → Bool
is_users_worker id user w = (w.id == id) && is_created_by user w.created_by

unfoldable pub delete_worker : Env → Text → Text → M (Unit {0})
delete_worker e user id = do
  n ← exec (e.fault 0) λ s. (
    ok (count (is_users_worker id user) s.workers),
    record s { workers = filter (λ w. not (is_users_worker id user w)) s.workers },
  )
  require (failed (codes "worker not found")) n
