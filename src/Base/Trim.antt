-- ===== src/Base/Trim.antt =====
-- `strings.TrimSpace` and `strings.Split` by a byte, on a text's bytes.
use Prim.Native.Nat.{ℕ}
use mathlib.Core.Bool.{Bool, ◌&&◌, ◌||◌}
use mathlib.Core.List.{List, [], ◌∷◌, reverse}
use native.Mathlib.Decide.{ℕ_discrete}
use stevy.Base.Tests.{leb, Eq, ◌==◌, if◌then◌else◌}
use stevy.Base.Text.{Text}

instance abbrev pub byte_eq : Eq ℕ
byte_eq = record { dec = ℕ_discrete }

-- The spaces of `unicode.IsSpace`, which take one, two or three bytes in UTF-8.
abbrev pub is_space : ℕ → Bool
is_space c = c == 0x20 || (leb 0x09 c && leb c 0x0d)

abbrev pub is_space_2 : ℕ → ℕ → Bool
is_space_2 c d = c == 0xc2 && (d == 0x85 || d == 0xa0)

abbrev pub is_space_3 : ℕ → ℕ → ℕ → Bool
is_space_3 c d e =
    (c == 0xe1 && (d == 0x9a && e == 0x80))
    || ((c == 0xe2
          && ((d == 0x80 && ((leb 0x80 e && leb e 0x8a) || (e == 0xa8 || (e == 0xa9 || e == 0xaf))))
              || (d == 0x81 && e == 0x9f)))
        || (c == 0xe3 && (d == 0x80 && e == 0x80)))

-- The text without the spaces at its start.
abbrev pub trim_left : Text → Text
trim_left [] = []
trim_left (c ∷ []) = if is_space c then [] else c ∷ []
trim_left (c ∷ d ∷ []) =
    let one = trim_left (d ∷ []) in
    if is_space c then one else if is_space_2 c d then [] else c ∷ d ∷ []
trim_left (c ∷ d ∷ e ∷ s) =
    let one = trim_left (d ∷ e ∷ s) in
    let two = trim_left (e ∷ s) in
    let three = trim_left s in
    if is_space c
    then one
    else if is_space_2 c d
    then two
    else if is_space_3 c d e
    then three
    else c ∷ d ∷ e ∷ s

-- The same from the end, on the reversed text.
abbrev pub trim_back : Text → Text
trim_back [] = []
trim_back (c ∷ []) = if is_space c then [] else c ∷ []
trim_back (d ∷ c ∷ []) =
    let one = trim_back (c ∷ []) in
    if is_space d then one else if is_space_2 c d then [] else d ∷ c ∷ []
trim_back (e ∷ d ∷ c ∷ s) =
    let one = trim_back (d ∷ c ∷ s) in
    let two = trim_back (c ∷ s) in
    let three = trim_back s in
    if is_space e
    then one
    else if is_space_2 d e
    then two
    else if is_space_3 c d e
    then three
    else e ∷ d ∷ c ∷ s

unfoldable pub trim_space : Text → Text
unfolding ℕ_discrete
trim_space s = reverse (trim_back (reverse (trim_left s)))

abbrev pub put_front : ℕ → List Text → List Text
put_front c [] = (c ∷ []) ∷ []
put_front c (p ∷ ps) = (c ∷ p) ∷ ps

-- `strings.Split(s, sep)` for one byte.
unfoldable pub split : ℕ → Text → List Text
unfolding ℕ_discrete
split sep [] = [] ∷ []
split sep (c ∷ s) = let rest = split sep s in if c == sep then [] ∷ rest else put_front c rest
