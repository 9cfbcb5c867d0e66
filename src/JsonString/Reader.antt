-- ===== src/JsonString/Reader.antt =====
-- A reader of JSON strings after RFC 8259, as far as `jsonString` writes them, and the round trip.
use stevy.Base.{
  ℕ, ◌≡◌, refl, sym, ◌∙◌, ap, ap₂, All, List, inl, inr, Bool, true, false, ◌||◌, Option, none, some,
  [], ◌∷◌, ◌++◌, ltb, leb, arith, Bool-cases, if◌then◌else◌, ◌==◌,
}
use mathlib.Core.List.{append_assoc, append-nil}
use stevy.Base.Text.{Text}
use stevy.Base.Utf8.Valid.{IsUtf8, written-IsUtf8}
use stevy.Base.Utf8.{
  runes, runes_from, runes_from-IsRune, joined, written, every, every-written, IsRune, IsHigh,
}
use stevy.JsonString.{nat_eq, quote, backslash, escape, escape_rune, escapes, json_string}

-- The byte that a backslash and a letter stand for.
abbrev pub unescape : ℕ → Option ℕ
unescape c =
    if c == quote
    then some quote
    else if c == backslash
    then some backslash
    else if c == b'n'
    then some 0x0a
    else if c == b'r'
    then some 0x0d
    else if c == b't'
    then some 0x09
    else none

abbrev pub put : Option ℕ → Option (Text × Text) → Option (Text × Text)
put (some c) (some (s, rest)) = some (c ∷ s, rest)
put _ _ = none

-- The rest of a string after its opening quote: what it says, and what follows it. A byte below 0x20
-- may not stand in a string.
unfoldable pub read_body : Text → Option (Text × Text)
read_body [] = none
read_body (c ∷ []) = if c == quote then some ([], []) else none
read_body (c ∷ d ∷ t) =
    let after = read_body (d ∷ t) in
    let escaped = read_body t in
    if c == quote
    then some ([], d ∷ t)
    else if c == backslash
    then put (unescape d) escaped
    else if ltb c 0x20
    then none
    else put (some c) after

unfoldable pub read_string : Text → Option (Text × Text)
unfolding read_body
read_string [] = none
read_string (c ∷ t) = if c == quote then read_body t else none

-- A byte that `jsonString` writes as JSON allows: no control character but newline, return and tab.
abbrev pub is_writable : ℕ → Bool
is_writable c = leb 0x20 c || (c == 0x0a || (c == 0x0d || c == 0x09))

abbrev pub all_writable : Text → Bool
all_writable s = every is_writable s

escape-plain :
    (c d : ℕ) (t : Text)
    → is_writable c ≡ true
    → read_body (escape c ++ (d ∷ t)) ≡ put (some c) (read_body (d ∷ t))
unfolding escape read_body
escape-plain c d t h = ground arith

escape-control :
    (c d : ℕ) (t : Text) → is_writable c ≡ false → read_body (escape c ++ (d ∷ t)) ≡ none
unfolding escape read_body
escape-control c d t h = ground arith

append-ne-nil : (c : ℕ) (t : Text) → ¬ ((escape c ++ t) ≡ [])
unfolding escape
append-ne-nil c t = ground arith

-- The escapes byte by byte.
escape_bytes : Text → Text
escape_bytes [] = []
escape_bytes (c ∷ s) = escape c ++ escape_bytes s

escape_bytes-append : (s t : Text) → escape_bytes (s ++ t) ≡ escape_bytes s ++ escape_bytes t
unfolding escape_bytes
escape_bytes-append [] t = refl
escape_bytes-append (c ∷ s) t =
    ap (◌++◌ (escape c)) (escape_bytes-append s t)
    ∙ sym (append_assoc (escape c) (escape_bytes s) (escape_bytes t))

escape-high : (c : ℕ) → ltb c 0x80 ≡ false → escape c ≡ c ∷ []
unfolding escape
escape-high c h = ground arith

escape_bytes-IsHigh : (r : Text) → IsHigh r → escape_bytes r ≡ r
unfolding escape_bytes
escape_bytes-IsHigh [] h = refl
escape_bytes-IsHigh (c ∷ r) h = rw (escape-high c h.0, escape_bytes-IsHigh r h.1) refl

high_rune-kept : (r : Text) → IsHigh r → escape_rune r ≡ r
high_rune-kept [] h = refl
high_rune-kept (c ∷ []) h = escape-high c h.0
high_rune-kept (c ∷ d ∷ r) h = refl

escape_rune-bytes : (r : Text) → IsRune r → escape_rune r ≡ escape_bytes r
unfolding escape_bytes
escape_rune-bytes r (inl (c, e)) = rw e (sym (append-nil (escape c)))
escape_rune-bytes r (inr h) = high_rune-kept r h ∙ sym (escape_bytes-IsHigh r h)

escapes-joined : (rs : List Text) → All IsRune rs → escapes rs ≡ escape_bytes (joined rs)
unfolding escapes escape_bytes
escapes-joined [] h = refl
escapes-joined (r ∷ rs) h =
    ap₂ ◌++◌ (escape_rune-bytes r h.0) (escapes-joined rs h.1)
    ∙ sym (escape_bytes-append r (joined rs))

escapes-written : (s : Text) → escapes (runes s) ≡ escape_bytes (written s)
unfolding runes
escapes-written s = escapes-joined (runes_from 0 s) (runes_from-IsRune 0 s)

-- What is written after the opening quote, up to a rest.
abbrev body : Text → Text → Text
body s rest = escape_bytes s ++ (quote ∷ rest)

body-ne-nil : (s rest : Text) → ¬ (body s rest ≡ [])
unfolding escape_bytes
body-ne-nil [] rest e = cc
body-ne-nil (c ∷ s) rest e =
    append-ne-nil c (body s rest)
      (sym (append_assoc (escape c) (escape_bytes s) (quote ∷ rest)) ∙ e)

cons_of : (t : Text) → ¬ (t ≡ []) → (d : ℕ) × (u : Text) × (t ≡ d ∷ u)
cons_of [] ne = absurd (ne refl)
cons_of (d ∷ u) ne = (d, u, refl)

module _ (c : ℕ) (s rest : Text) where
  body-cons : body (c ∷ s) rest ≡ escape c ++ body s rest
  unfolding escape_bytes
  body-cons = append_assoc (escape c) (escape_bytes s) (quote ∷ rest)

  read_body-plain :
      is_writable c ≡ true → read_body (body (c ∷ s) rest) ≡ put (some c) (read_body (body s rest))
  read_body-plain h =
      let (d, t, e) = cons_of (body s rest) (body-ne-nil s rest) in
      ap read_body (body-cons ∙ ap (◌++◌ (escape c)) e)
      ∙ (escape-plain c d t h ∙ ap (λ u. put (some c) (read_body u)) (sym e))

  read_body-control : is_writable c ≡ false → read_body (body (c ∷ s) rest) ≡ none
  read_body-control h =
      let (d, t, e) = cons_of (body s rest) (body-ne-nil s rest) in
      ap read_body (body-cons ∙ ap (◌++◌ (escape c)) e) ∙ escape-control c d t h

read_body-nil : (rest : Text) → read_body (body [] rest) ≡ some ([], rest)
unfolding escape_bytes read_body
read_body-nil [] = ground arith
read_body-nil (c ∷ rest) = ground arith

read_body-body : (s rest : Text) → all_writable s ≡ true → read_body (body s rest) ≡ some (s, rest)
read_body-body [] rest h = read_body-nil rest
read_body-body (c ∷ s) rest h =
    read_body-plain c s rest (ground arith)
    ∙ ap (put (some c)) (read_body-body s rest (ground arith))

read_body-refused : (s rest : Text) → all_writable s ≡ false → read_body (body s rest) ≡ none
read_body-refused [] rest h = cc
read_body-refused (c ∷ s) rest h = elim (Bool-cases (is_writable c)) [
  | inl e ↦ read_body-plain c s rest e ∙ ap (put (some c)) (read_body-refused s rest (ground arith))
  | inr e ↦ read_body-control c s rest e
]

read_string-body :
    (s rest : Text) → read_string (json_string s ++ rest) ≡ read_body (body (written s) rest)
unfolding read_string json_string
read_string-body s rest =
    rw (append_assoc (escapes (runes s)) (quote ∷ []) rest, escapes-written s) (ground arith)

high_writable : (b : ℕ) → ltb b 0x80 ≡ false → is_writable b ≡ true
high_writable b h = ground arith

-- Reading what `jsonString` writes gives the text back, whatever follows, if it is UTF-8 and has no
-- control characters but newline, return and tab.
pub read_string-json_string :
    (s rest : Text)
    → IsUtf8 s
    → all_writable s ≡ true
    → read_string (json_string s ++ rest) ≡ some (s, rest)
read_string-json_string s rest v h =
    let writable : all_writable (written s) ≡ true =
      every-written is_writable high_writable s ∙ h in
    let back = read_string-body s rest ∙ read_body-body (written s) rest writable in
    back ∙ ap (λ t. some (t, rest)) (written-IsUtf8 v)

-- A text with a control character other than newline, return and tab is written as no JSON string.
pub read_string-refused :
    (s rest : Text) → all_writable s ≡ false → read_string (json_string s ++ rest) ≡ none
read_string-refused s rest h =
    let other : all_writable (written s) ≡ false = every-written is_writable high_writable s ∙ h in
    read_string-body s rest ∙ read_body-refused (written s) rest other
