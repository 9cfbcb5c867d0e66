-- ===== src/Dialect/Placeholders.antt =====
-- What `Q` of internal/dialect/dialect.go does to a query, and the prefixes of a connection URL.
use stevy.Base.{
  ℕ, suc, ◌≡◌, refl, sym, ap, ◌∙◌, subst, ℕ_discrete, inl, inr, true, false, some, List, [], ◌∷◌,
  ◌++◌, All, arith, if◌then◌else◌, ◌==◌, Bool-cases,
}
use stevy.Base.Text.{Text, codes, text_eq, text_discrete}
use stevy.Base.Utf8.{runes, runes_from-IsRune, joined, IsRune, IsHigh}
use stevy.Base.Utf8.Valid.{IsUtf8, written-IsUtf8}
use stevy.Dialect.{postgres, sqlite, from_dsn, number_from, q, strip_sqlite_prefix}
use stevy.JsonString.{nat_eq}

-- Texts with a question mark between each two, and with `$1`, `$2`, ... there, from `n` on.
abbrev pub marked : Text → List Text → Text
marked t [] = t
marked t (u ∷ us) = t ++ (b'?' ∷ marked u us)

abbrev pub numbered : (ℕ → Text) → ℕ → Text → List Text → Text
numbered decimal n t [] = t
numbered decimal n t (u ∷ us) = t ++ (b'$' ∷ (decimal n ++ numbered decimal (suc n) u us))

abbrev pub IsPlain : Text → Type 0
IsPlain t = All (λ c. (c == b'?') ≡ false) t

module _ (decimal : ℕ → Text) where
  -- The same byte by byte.
  number_bytes : ℕ → Text → Text
  number_bytes n [] = []
  number_bytes n (c ∷ s) =
      let placed = number_bytes (suc n) s in
      let kept = number_bytes n s in if c == b'?' then (b'$' ∷ decimal n) ++ placed else c ∷ kept

  number_bytes-IsPlain :
      (n : ℕ) (t s : Text) → IsPlain t → number_bytes n (t ++ s) ≡ t ++ number_bytes n s
  unfolding number_bytes
  number_bytes-IsPlain n [] s h = refl
  number_bytes-IsPlain n (c ∷ t) s h = rw h.0 (ap (◌∷◌ c) (number_bytes-IsPlain n t s h.1))

  high-IsPlain : (t : Text) → IsHigh t → IsPlain t
  high-IsPlain [] h = tt
  high-IsPlain (c ∷ t) h = (ground arith, high-IsPlain t h.1)

  no_mark-IsHigh : ¬ IsHigh (codes "?")
  no_mark-IsHigh h = let low : true ≡ false = h.0 in cc

  high_no_mark : (t : Text) → IsHigh t → (t == codes "?") ≡ false
  high_no_mark t h = elim (text_discrete t (codes "?")) [
    | yes e ↦ let bad : IsHigh (codes "?") = subst IsHigh e h in absurd (no_mark-IsHigh bad)
    | no ne ↦ ground arith
  ]

  one_byte : (c : ℕ) → ((c ∷ []) == codes "?") ≡ (c == b'?')
  unfolding text_discrete
  one_byte c = ground arith

  number_from-joined :
      (n : ℕ) (rs : List Text)
      → All IsRune rs
      → number_from decimal n rs ≡ number_bytes n (joined rs)
  unfolding number_from number_bytes
  number_from-joined n [] h = refl
  number_from-joined n (r ∷ rs) (inl (c, e), h) =
      rw (e, one_byte c)
        (elim (Bool-cases (c == b'?')) [
          | inl m ↦ rw m (ap (λ x. b'$' ∷ (decimal n ++ x)) (number_from-joined (suc n) rs h))
          | inr m ↦ rw m (ap (◌∷◌ c) (number_from-joined n rs h))
        ])
  number_from-joined n (r ∷ rs) (inr high, h) = rw (high_no_mark r high) (
      ap (◌++◌ r) (number_from-joined n rs h)
      ∙ sym (number_bytes-IsPlain n r (joined rs) (high-IsPlain r high)))

  plain_kept : (n : ℕ) (t : Text) → IsPlain t → number_bytes n t ≡ t
  unfolding number_bytes
  plain_kept n [] h = refl
  plain_kept n (c ∷ t) h = rw h.0 (ap (◌∷◌ c) (plain_kept n t h.1))

  number_bytes-marked :
      (n : ℕ) (t : Text) (us : List Text)
      → All IsPlain (t ∷ us)
      → number_bytes n (marked t us) ≡ numbered decimal n t us
  unfolding number_bytes ℕ_discrete
  number_bytes-marked n t [] h = plain_kept n t h.0
  number_bytes-marked n t (u ∷ us) h =
      number_bytes-IsPlain n t (b'?' ∷ marked u us) h.0
      ∙ ap (λ x. t ++ (b'$' ∷ (decimal n ++ x))) (number_bytes-marked (suc n) u us h.1)

  -- In a query in UTF-8 for PostgreSQL, `Q` writes `$1`, `$2` and so on in place of the question marks
  -- and keeps every text between them; for SQLite it keeps the query.
  pub q-marked :
      (t : Text) (us : List Text)
      → All IsPlain (t ∷ us)
      → IsUtf8 (marked t us)
      → (q decimal postgres (marked t us) ≡ numbered decimal 1 t us)
        × (q decimal sqlite (marked t us) ≡ marked t us)
  unfolding q runes
  q-marked t us plain valid = (
    number_from-joined 1 _ (runes_from-IsRune 0 (marked t us))
        ∙ (ap (number_bytes 1) (written-IsUtf8 valid) ∙ number_bytes-marked 1 t us plain),
    refl,
  )

-- A path behind `sqlite://` or `sqlite3://` is taken for SQLite and stripped to the path.
strip-from_dsn :
    (path : Text)
    → (from_dsn (codes "sqlite://" ++ path) ≡ some sqlite)
      × (strip_sqlite_prefix (codes "sqlite://" ++ path) ≡ path)
      × (from_dsn (codes "sqlite3://" ++ path) ≡ some sqlite)
      × (strip_sqlite_prefix (codes "sqlite3://" ++ path) ≡ path)
unfolding from_dsn strip_sqlite_prefix
strip-from_dsn path = ground arith
