-- ===== src/Tests/Texts.antt =====
-- The laws of cookies, domains, JSON strings, queries and numbers at concrete inputs.
use stevy.Base.{true, not, arith, ℕ, ◌+◌, ◌≡◌, refl, ℕ_discrete, none, some, [], ◌∷◌, ◌++◌, ◌==◌}
use stevy.Base.Text.{Text, codes, text_eq}
use stevy.Dialect.{postgres, sqlite, q}
use stevy.Base.Utf8.{every}
use stevy.Base.Utf8.Valid.{IsUtf8, empty, two, ascii-IsUtf8}
use stevy.Dialect.Placeholders.{IsPlain, q-marked}
use stevy.JsonString.{json_string, nat_eq}
use stevy.JsonString.Reader.{read_string, read_string-json_string, read_string-refused}

abbrev two_lines : Text
two_lines = codes "say \"no\"" ++ (0x0a ∷ codes "twice")

two_lines-IsUtf8 : IsUtf8 two_lines
unfolding ℕ_discrete
two_lines-IsUtf8 = ascii-IsUtf8 two_lines refl empty

read_string-json_string_example :
    read_string (json_string two_lines ++ codes "}") ≡ some (two_lines, codes "}")
unfolding ℕ_discrete
read_string-json_string_example =
    read_string-json_string two_lines (codes "}") two_lines-IsUtf8 refl

read_string-refused_example :
    read_string (json_string (codes "a" ++ (0x1b ∷ [])) ++ codes "}") ≡ none
unfolding ℕ_discrete
read_string-refused_example = read_string-refused (codes "a" ++ (0x1b ∷ [])) (codes "}") refl

abbrev digit : ℕ → Text
digit n = (b'0' + n) ∷ []

plain : (t : Text) → every (λ c. not (c == b'?')) t ≡ true → IsPlain t
unfolding ℕ_discrete
plain [] h = tt
plain (c ∷ t) h = (ground arith, plain t (ground arith))

abbrev accented : Text
accented = 0xc3 ∷ 0xa9 ∷ codes " = "

asked-IsUtf8 : IsUtf8 (codes "id = ? AND " ++ (accented ++ codes "?"))
unfolding ℕ_discrete
asked-IsUtf8 =
    ascii-IsUtf8 (codes "id = ? AND ") refl (two refl (ascii-IsUtf8 (codes " = ?") refl empty))

q-marked_example :
    (q digit postgres (codes "id = ? AND " ++ (accented ++ codes "?"))
      ≡ codes "id = $1 AND " ++ (accented ++ codes "$2"))
    × (q digit sqlite (codes "id = ? AND " ++ (accented ++ codes "?"))
        ≡ codes "id = ? AND " ++ (accented ++ codes "?"))
unfolding ℕ_discrete
q-marked_example =
    q-marked digit (codes "id = ") ((codes " AND " ++ accented) ∷ [] ∷ [])
      (plain (codes "id = ") refl, (plain (codes " AND " ++ accented) refl, (tt, tt))) asked-IsUtf8
