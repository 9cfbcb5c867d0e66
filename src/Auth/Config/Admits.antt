-- ===== src/Auth/Config/Admits.antt =====
-- Which addresses a configuration of the sign-in admits.
use mathlib.Core.List.{Memᴰ}
use stevy.Base.{
  ◌≡◌, refl, ◌≢◌, ◌↔◌, ◌⊎◌, inl, inr, Bool, true, ◌||◌, List, [], ◌∷◌, ◌++◌, any, arith, Bool-cases,
  ◌==◌, ap, sym, ◌∙◌,
}
use stevy.Base.Text.{Text, text_eq}
use stevy.Auth.{ends_in_domain, email_allowed}
use stevy.Auth.Config.{OauthConfig, set_key, set_keys, new_oauth_handler}
use stevy.Auth.Laws.{ends_in_domain_iff}

module _ (f : Text → Bool) where
  any-append : (xs ys : List Text) → any f (xs ++ ys) ≡ (any f xs || any f ys)
  any-append [] ys = refl
  any-append (x ∷ xs) ys = ground (arith, any-append xs ys)

  -- A list that has a text which passes has one that passes.
  any_same :
      (d : Text) (xs : List Text) → any (λ x. x == d) xs ≡ true → f d ≡ true → any f xs ≡ true
  any_same d [] h p = absurd (ground arith)
  any_same d (x ∷ xs) h p = elim (text_eq.dec x d) [
    | yes e ↦ ground (arith, ap f e)
    | no ne ↦ ground (arith, any_same d xs)
  ]

  any-set_key : (d : Text) (keys : List Text) → any f (set_key d keys) ≡ (any f keys || f d)
  any-set_key d keys = elim (Bool-cases (any (λ k. k == d) keys)) [
    | inl e ↦
        rw e
          (elim (Bool-cases (f d)) [ inl p ↦ rw (any_same d keys e p) refl | inr p ↦ ground arith ])
    | inr e ↦ rw e (ground (arith, any-append keys (d ∷ [])))
  ]

  any-set_keys : (keys ds : List Text) → any f (set_keys keys ds) ≡ (any f keys || any f ds)
  any-set_keys keys [] = ground arith
  any-set_keys keys (d ∷ ds) = any-set_keys (set_key d keys) ds ∙ ground (arith, any-set_key d keys)

  found : (xs : List Text) → any f xs ≡ true → (x : Text) × Memᴰ x xs × (f x ≡ true)
  found [] h = absurd (ground arith)
  found (x ∷ xs) h = elim (Bool-cases (f x)) [
    | inl e ↦ (x, Memᴰ.head refl, e)
    | inr e ↦ let (y, m, p) = found xs (ground arith) in (y, Memᴰ.tail m, p)
  ]

  listed : (x : Text) (xs : List Text) → Memᴰ x xs → f x ≡ true → any f xs ≡ true
  listed x xs (Memᴰ.head e) p = ground (arith, ap f e)
  listed x xs (Memᴰ.tail m) p = ground (arith, listed x _ m p)

some_key : (d : Text) (ds : List Text) → set_keys [] (d ∷ ds) ≢ []
some_key d ds = λ e.
    let nonempty : any (λ k. true) (set_keys [] (d ∷ ds)) ≡ true =
      any-set_keys (λ k. true) [] (d ∷ ds) in
    let none_left : any {A = Text} (λ k. true) [] ≡ true = rw e at nonempty in absurd (ground arith)

allowed_any :
    (email : Text) (ds : List Text)
    → ds ≢ []
    → email_allowed ds email ≡ any (ends_in_domain email) ds
unfolding email_allowed
allowed_any email [] ne = absurd (ne refl)
allowed_any email (d ∷ ds) ne = refl

-- Whether the keys of the map admit an address is what the list decides.
email_allowed-set_keys :
    (email : Text) (ds : List Text) → email_allowed (set_keys [] ds) email ≡ email_allowed ds email
email_allowed-set_keys email [] = refl
email_allowed-set_keys email (d ∷ ds) =
    allowed_any email _ (some_key d ds)
    ∙ (any-set_keys (ends_in_domain email) [] (d ∷ ds) ∙ sym (allowed_any email (d ∷ ds) (λ e. cc)))

-- An address that the list admits: there is no list, or it is a local part that is not empty, an `@`
-- and a domain of the list.
abbrev pub IsAdmitted : List Text → Text → Type 0
IsAdmitted ds email =
    (ds ≡ []) ⊎ ((d : Text) × Memᴰ d ds × ((l : Text) × (l ≢ []) × (email ≡ l ++ (b'@' ∷ d))))

module _ (email : Text) where
  email_allowed-IsAdmitted : (ds : List Text) → email_allowed ds email ≡ true → IsAdmitted ds email
  unfolding email_allowed
  email_allowed-IsAdmitted [] h = inl refl
  email_allowed-IsAdmitted (d ∷ ds) h =
      let (x, m, p) = found (ends_in_domain email) (d ∷ ds) h in
      inr (x, m, (ends_in_domain_iff email x).0 p)

  IsAdmitted-email_allowed : (ds : List Text) → IsAdmitted ds email → email_allowed ds email ≡ true
  unfolding email_allowed
  IsAdmitted-email_allowed [] h = refl
  IsAdmitted-email_allowed (d ∷ ds) (inl e) = absurd cc
  IsAdmitted-email_allowed (d ∷ ds) (inr (x, m, p)) =
      listed (ends_in_domain email) x (d ∷ ds) m ((ends_in_domain_iff email x).1 p)

-- The handler that the configuration makes admits an address just if no domains are configured or the
-- address is a local part that is not empty, an `@` and one of those domains.
pub new_oauth_handler-admits :
    (cfg : OauthConfig) (email : Text)
    → (email_allowed (new_oauth_handler cfg).allowed_domains email ≡ true)
      ↔ IsAdmitted cfg.allowed_domains email
unfolding new_oauth_handler
new_oauth_handler-admits cfg email = (
  λ h.
      email_allowed-IsAdmitted email cfg.allowed_domains (sym (email_allowed-set_keys email _) ∙ h),
  λ h. email_allowed-set_keys email cfg.allowed_domains ∙ IsAdmitted-email_allowed email _ h,
)
