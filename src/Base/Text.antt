-- ===== src/Base/Text.antt =====
-- A Go string as the list of its bytes: equality, byte order, prefixes and suffixes.
use Prim.Native.Char.{code}
use Prim.Native.Nat.{ℕ, compare, Ordering}
use Prim.Native.String.{String}
use mathlib.Core.Path.{◌≡◌, refl, ap, ap₂}
use mathlib.Core.Logic.{dite}
use mathlib.Core.Bool.{Bool, true, false}
use mathlib.Core.List.{List, [], ◌∷◌, ◌++◌}
use native.Mathlib.Omega.{arith}
use native.Mathlib.Decide.{ℕ_discrete}
use stevy.Base.Tests.{Eq}

abbrev pub Text : Type 0
Text = List ℕ

-- The bytes of an ASCII literal.
abbrev pub codes : String → Text
codes String.[] = []
codes (String.◌∷◌ c s) = code c ∷ codes s

tail_of : Text → Text
tail_of [] = []
tail_of (x ∷ xs) = xs

head_of : Text → ℕ
head_of [] = 0
head_of (x ∷ xs) = x

differ_at_head : (x y : ℕ) (xs ys : Text) → ¬ (x ≡ y) → ¬ (◌≡◌ {A = Text} (x ∷ xs) (y ∷ ys))
unfolding head_of
differ_at_head x y xs ys h e = h (ap head_of e)

differ_in_tail : (x y : ℕ) (xs ys : Text) → ¬ (xs ≡ ys) → ¬ (◌≡◌ {A = Text} (x ∷ xs) (y ∷ ys))
unfolding tail_of
differ_in_tail x y xs ys h e = h (ap tail_of e)

nil-ne-cons : (x : ℕ) (xs : Text) → ¬ (◌≡◌ {A = Text} [] (x ∷ xs))
nil-ne-cons x xs e = cc

pub cons-ne-nil : (x : ℕ) (xs : Text) → ¬ (◌≡◌ {A = Text} (x ∷ xs) [])
cons-ne-nil x xs e = cc

unfoldable pub text_discrete : Discrete Text
unfolding ℕ_discrete nil-ne-cons cons-ne-nil differ_in_tail differ_at_head
text_discrete [] [] = yes refl
text_discrete [] (y ∷ ys) = no (nil-ne-cons y ys)
text_discrete (x ∷ xs) [] = no (cons-ne-nil x xs)
text_discrete (x ∷ xs) (y ∷ ys) =
    let rest = text_discrete xs ys in
    dite (ℕ_discrete x y)
      (λ p. dite rest (λ q. yes (ap₂ ◌∷◌ p q)) (λ q. no (differ_in_tail x y xs ys q)))
      (λ p. no (differ_at_head x y xs ys p))

instance abbrev pub text_eq : Eq Text
text_eq = record { dec = text_discrete }

-- `strings.HasPrefix(s, p)`
abbrev pub has_prefix : Text → Text → Bool
has_prefix s [] = true
has_prefix [] (p ∷ ps) = false
has_prefix (c ∷ s) (p ∷ ps) = elim (compare c p) [ Ordering.eq ↦ has_prefix s ps | _ ↦ false ]

-- Byte order, by which texts are compared and sorted.
unfoldable pub text_lt : Text → Text → Bool
text_lt [] [] = false
text_lt [] (y ∷ ys) = true
text_lt (x ∷ xs) [] = false
text_lt (x ∷ xs) (y ∷ ys) = elim (compare x y) [
  | Ordering.lt ↦ true
  | Ordering.eq ↦ text_lt xs ys
  | Ordering.gt ↦ false
]

pub text_lt_irrefl : (s : Text) → text_lt s s ≡ false
unfolding text_lt
text_lt_irrefl [] = refl
text_lt_irrefl (x ∷ s) = ground (arith, text_lt_irrefl s)

pub text_lt_trans : (a b c : Text) → text_lt a b ≡ true → text_lt b c ≡ true → text_lt a c ≡ true
unfolding text_lt
text_lt_trans [] [] c h k = cc
text_lt_trans [] (y ∷ b) [] h k = cc
text_lt_trans [] (y ∷ b) (z ∷ c) h k = refl
text_lt_trans (x ∷ a) [] c h k = cc
text_lt_trans (x ∷ a) (y ∷ b) [] h k = cc
text_lt_trans (x ∷ a) (y ∷ b) (z ∷ c) h k = ground (arith, text_lt_trans a b c)

pub text_lt_total : (a b : Text) → text_lt a b ≡ false → text_lt b a ≡ false → a ≡ b
unfolding text_lt
text_lt_total [] [] h k = refl
text_lt_total [] (y ∷ b) h k = cc
text_lt_total (x ∷ a) [] h k = cc
text_lt_total (x ∷ a) (y ∷ b) h k = ground (arith, text_lt_total a b)

pub has_prefix-append : (p s : Text) → has_prefix (p ++ s) p ≡ true
has_prefix-append [] [] = refl
has_prefix-append [] (c ∷ s) = refl
has_prefix-append (c ∷ p) s = ground (arith, has_prefix-append p s)
