-- ===== src/Auth/Laws.antt =====
-- Session cookies, the interceptor and the e-mail check (internal/auth).
use stevy.Base.{
  take-drop, length-take, ℕ, ◌+◌, ◌-◌, ◌<◌, ◌≡◌, refl, sym, ◌∙◌, ap, inl, inr, ◌≢◌, ◌↔◌, Bool, true,
  false, Option, none, some, List, [], ◌∷◌, ◌++◌, take, drop, length, length-append, arith,
  Bool-cases, Option-cases, if◌then◌else◌, ◌==◌,
}
use stevy.Auth.{
  cut, cookie_value, user_id, is_worker_method, as_worker, worker_access, user_access, check_token,
  intercept, ends_in_domain,
}
use stevy.Base.Text.{Text, codes, has_prefix, text_eq}
use stevy.JsonString.{nat_eq}
use stevy.Keys.{find_worker, worker_id, lookup_worker_key}
use stevy.Store.{Env, Store, Worker, Result, ok, err, exec}

-- No byte of the text is a dot. Ids are ULIDs, which have none.
abbrev pub no_dot : Text → Bool
no_dot [] = true
no_dot (c ∷ s) = let rest = no_dot s in if c == b'.' then false else rest

pub cut-append :
    (user sig : Text) → no_dot user ≡ true → cut (user ++ (b'.' ∷ sig)) ≡ some (user, sig)
unfolding cut
cut-append [] sig h = ground arith
cut-append (c ∷ user) sig h = ground (arith, cut-append user sig)

cut-eq-some : (s a b : Text) → cut s ≡ some (a, b) → s ≡ a ++ (b'.' ∷ b)
unfolding cut
cut-eq-some [] a b h = ground arith
cut-eq-some (c ∷ s) a b h = elim (Option-cases (cut s)) [
  | inl e ↦ ground arith
  | inr ((a', b'), e) ↦ ground (arith, cut-eq-some s a' b' e)
]

-- The cookie that a sign-in sets is read back as the user that signed in, if the id has no dot.
pub user_id-cookie_value :
    (sign : Text → Text) (user : Text)
    → no_dot user ≡ true
    → user_id sign (some (cookie_value sign user)) ≡ user
unfolding user_id cookie_value
user_id-cookie_value sign user h = rw (cut-append user (sign user) h) (ground arith)

drop-append {ℓ} : {A : Type ℓ} (xs ys : List A) → drop (length xs) (xs ++ ys) ≡ ys
drop-append [] ys = refl
drop-append (x ∷ xs) ys = drop-append xs ys

domain_test :
    (email domain : Text)
    → ends_in_domain email domain ≡ true
    → (length domain + 1 < length email)
      × (drop (length email - length domain - 1) email ≡ b'@' ∷ domain)
unfolding ends_in_domain
domain_test email domain h = ground arith

ends_in_domain_sound :
    (email domain : Text)
    → ends_in_domain email domain ≡ true
    → (l : Text) × (l ≢ []) × (email ≡ l ++ (b'@' ∷ domain))
ends_in_domain_sound email domain h =
    let (long, same) = domain_test email domain h in
    let n : ℕ = length email - length domain - 1 in
    (
      take n email,
      (λ e. absurd (omega (arith, ap length e, length-take n email (omega arith)))),
      sym (take-drop n email) ∙ ap (λ t. take n email ++ t) same,
    )

ends_in_domain_complete :
    (l domain : Text) → l ≢ [] → ends_in_domain (l ++ (b'@' ∷ domain)) domain ≡ true
unfolding ends_in_domain
ends_in_domain_complete [] domain ne = absurd (ne refl)
ends_in_domain_complete (c ∷ l) domain ne =
    let size = length-append (c ∷ l) (b'@' ∷ domain) in
    let start : length ((c ∷ l) ++ (b'@' ∷ domain)) - length domain - 1 ≡ length (c ∷ l) =
      omega (arith, size) in
    rw start (ground (arith, size, drop-append (c ∷ l) (b'@' ∷ domain)))

-- An address ends in a domain just if it is a local part that is not empty, an `@` and the domain.
pub ends_in_domain_iff :
    (email domain : Text)
    → (ends_in_domain email domain ≡ true)
      ↔ ((l : Text) × (l ≢ []) × (email ≡ l ++ (b'@' ∷ domain)))
ends_in_domain_iff email domain =
    (ends_in_domain_sound email domain, λ (l, ne, e). rw e (ends_in_domain_complete l domain ne))

-- A cookie that names a user is the one that a sign-in of that user sets, signature and all.
pub user_id_sound :
    (sign : Text → Text) (cookie user : Text)
    → user_id sign (some cookie) ≡ user
    → user ≢ []
    → cookie ≡ cookie_value sign user
unfolding user_id cookie_value
user_id_sound sign cookie user h ne = elim (Option-cases (cut cookie)) [
  | inl e ↦ ground arith
  | inr ((id, sig), e) ↦ ground (arith, cut-eq-some cookie id sig e)
]

worker_access-ok :
    (id : Text) (o : Result Text × Store) → (worker_access o).0 ≡ as_worker id → o.0 ≡ ok id
worker_access-ok id (ok x, s) h = ground arith
worker_access-ok id (err e, s) h = ground arith

user_access-ne :
    (id : Text) (o : Result (Text × Text) × Store) → ¬ ((user_access o).0 ≡ as_worker id)
user_access-ne id (ok (k, user), s) h = ground arith
user_access-ne id (err e, s) h = ground arith

abbrev FoundWorker : Text → Store → Text → Type 0
FoundWorker hashed s id = (w : Worker) × (find_worker hashed s.workers ≡ some w) × (w.id ≡ id)

found_worker :
    (m : Option Text) (hashed id : Text) (s : Store)
    → (exec m (λ t. worker_id (find_worker hashed t.workers) t) s).0 ≡ ok id
    → FoundWorker hashed s id
found_worker (some m) hashed id s h = absurd (ground arith)
found_worker none hashed id s h = elim (Option-cases (find_worker hashed s.workers)) [
  | inl e ↦ absurd (ground arith)
  | inr (w, e) ↦ (w, e, ground arith)
]

check_token-as_worker :
    (hash : Text → Text) (e : Env) (procedure token id : Text) (s : Store)
    → (check_token hash e procedure token s).0 ≡ as_worker id
    → (is_worker_method procedure ≡ true)
      × (has_prefix token (codes "stw_") ≡ true)
      × FoundWorker (hash token) s id
unfolding check_token lookup_worker_key
check_token-as_worker hash e procedure token id s h =
    elim (Bool-cases (has_prefix token (codes "stw_"))) [
      | inl worker ↦ elim (Bool-cases (is_worker_method procedure)) [
        | inl method ↦
            let h' = rw (worker, method) at h in
            (method, worker, found_worker (e.fault 0) (hash token) id s (worker_access-ok id _ h'))
        | inr method ↦ absurd (ground arith)
      ]
      | inr other ↦ elim (Bool-cases (has_prefix token (codes "stv_"))) [
        | inl user ↦ absurd (user_access-ne id _ (rw (other, user) at h))
        | inr neither ↦ absurd (ground arith)
      ]
    ]

-- A request that passes as a worker calls a method of the worker's list, with `Bearer` and a token
-- that starts with `stw_`, and the worker of that id has the token's hash.
pub intercept-as_worker :
    (hash : Text → Text) (e : Env) (procedure header id : Text) (s : Store)
    → (intercept hash e procedure header s).0 ≡ as_worker id
    → (has_prefix header (codes "Bearer ") ≡ true)
      × (is_worker_method procedure ≡ true)
      × (has_prefix (drop 7 header) (codes "stw_") ≡ true)
      × ((w : Worker) × (find_worker (hash (drop 7 header)) s.workers ≡ some w) × (w.id ≡ id))
unfolding intercept
intercept-as_worker hash e procedure header id s h =
    elim (Bool-cases (has_prefix header (codes "Bearer "))) [
      | inl bearer ↦
          let (method, worker, found) =
            check_token-as_worker hash e procedure (drop 7 header) id s (rw bearer at h) in
          (bearer, method, worker, found)
      | inr none_given ↦ absurd (ground arith)
    ]
