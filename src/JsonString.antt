-- ===== src/JsonString.antt =====
-- `jsonString` and `buildErrorEntry` of internal/service/driver_sqlite.go: the JSON text of an
-- attempt's error, written by hand.
pub mod Reader
use stevy.Base.{
  ℕ, zero, suc, ◌≡◌, Bool, true, false, List, [], ◌∷◌, ◌++◌, if◌then◌else◌, ◌==◌, ℕ_discrete, Eq,
}
use stevy.Base.Text.{Text, codes}
use stevy.Base.Utf8.{runes}

instance abbrev pub nat_eq : Eq ℕ
nat_eq = record { dec = ℕ_discrete }

abbrev pub quote : ℕ
quote = 0x22

abbrev pub backslash : ℕ
backslash = 0x5c

-- The cases of the switch on a rune below U+0080.
unfoldable pub escape : ℕ → Text
escape c =
    if c == quote
    then backslash ∷ quote ∷ []
    else if c == backslash
    then backslash ∷ backslash ∷ []
    else if c == 0x0a
    then backslash ∷ b'n' ∷ []
    else if c == 0x0d
    then backslash ∷ b'r' ∷ []
    else if c == 0x09
    then backslash ∷ b't' ∷ []
    else c ∷ []

-- A rune of several bytes is none of the cases.
abbrev pub escape_rune : Text → Text
escape_rune (c ∷ []) = escape c
escape_rune r = r

unfoldable pub escapes : List Text → Text
unfolding escape
escapes [] = []
escapes (r ∷ rs) = escape_rune r ++ escapes rs

unfoldable pub json_string : Text → Text
unfolding escapes runes
json_string s = (quote ∷ escapes (runes s)) ++ (quote ∷ [])

-- `at` is the time in RFC 3339 form.
unfoldable pub build_error_entry : Text → Text → Text
build_error_entry at msg =
    codes "{"
    ++ (quote ∷ codes "at")
    ++ (quote ∷ codes ":")
    ++ (quote ∷ at)
    ++ (quote ∷ codes ",")
    ++ (quote ∷ codes "message")
    ++ (quote ∷ codes ":")
    ++ json_string msg
    ++ codes "}"
