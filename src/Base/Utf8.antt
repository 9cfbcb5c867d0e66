-- ===== src/Base/Utf8.antt =====
-- A Go string as `for … range` reads it: rune by rune, each as its bytes in UTF-8, where a byte that
-- starts no valid sequence is U+FFFD. `WriteRune` writes the bytes of a rune.
pub mod Valid
use Prim.Native.Nat.{ℕ, zero, suc, ◌-◌}
use mathlib.Core.Path.{◌≡◌, refl, ap, ◌∙◌}
use mathlib.Core.Logic.{◌⊎◌, inl, inr}
use mathlib.Core.Bool.{Bool, true, false, ◌&&◌, ◌||◌}
use mathlib.Core.List.{List, [], ◌∷◌, ◌++◌}
use native.Mathlib.Omega.{arith}
use native.Mathlib.Decide.{ℕ_discrete}
use stevy.Base.Tests.{ltb, leb, Bool-cases, if◌then◌else◌}
use stevy.Base.Lists.{All, take, drop}
use stevy.Base.Text.{Text}

abbrev pub between : ℕ → ℕ → ℕ → Bool
between low high c = leb low c && leb c high

-- The bytes that may follow the first one of a sequence of two, three or four.
abbrev pub starts_two : ℕ → ℕ → Bool
starts_two c d = between 0xc2 0xdf c && between 0x80 0xbf d

abbrev pub starts_three : ℕ → ℕ → ℕ → Bool
starts_three c d e =
    between 0x80 0xbf e
    && ((between 0xe0 0xe0 c && between 0xa0 0xbf d)
        || ((between 0xed 0xed c && between 0x80 0x9f d)
            || ((between 0xe1 0xec c || between 0xee 0xef c) && between 0x80 0xbf d)))

abbrev pub starts_four : ℕ → ℕ → ℕ → ℕ → Bool
starts_four c d e f =
    (between 0x80 0xbf e && between 0x80 0xbf f)
    && ((between 0xf0 0xf0 c && between 0x90 0xbf d)
        || ((between 0xf4 0xf4 c && between 0x80 0x8f d)
            || (between 0xf1 0xf3 c && between 0x80 0xbf d)))

abbrev pub replacement : Text
replacement = 0xef ∷ 0xbf ∷ 0xbd ∷ []

-- The rune that a byte from U+0080 on starts, with how many bytes of the rest it takes.
unfoldable pub high_rune : ℕ → Text → Text × ℕ
high_rune c [] = (replacement, 0)
high_rune c (d ∷ []) = if starts_two c d then (c ∷ d ∷ [], 1) else (replacement, 0)
high_rune c (d ∷ e ∷ []) =
    if starts_two c d
    then (c ∷ d ∷ [], 1)
    else if starts_three c d e
    then (c ∷ d ∷ e ∷ [], 2)
    else (replacement, 0)
high_rune c (d ∷ e ∷ f ∷ s) =
    if starts_two c d
    then (c ∷ d ∷ [], 1)
    else if starts_three c d e
    then (c ∷ d ∷ e ∷ [], 2)
    else if starts_four c d e f
    then (c ∷ d ∷ e ∷ f ∷ [], 3)
    else (replacement, 0)

abbrev pub next_rune : ℕ → Text → Text × ℕ
next_rune c s = if ltb c 0x80 then (c ∷ [], 0) else high_rune c s

-- The number of bytes still to skip comes before the text.
unfoldable pub runes_from : ℕ → Text → List Text
unfolding high_rune
runes_from k [] = []
runes_from (suc k) (c ∷ s) = runes_from k s
runes_from zero (c ∷ s) = let (r, k) = next_rune c s in r ∷ runes_from k s

unfoldable pub runes : Text → List Text
unfolding runes_from
runes s = runes_from 0 s

abbrev pub joined : List Text → Text
joined [] = []
joined (r ∷ rs) = r ++ joined rs

-- The bytes of a text as `range` and `WriteRune` pass them on.
abbrev pub written : Text → Text
written s = joined (runes s)

abbrev pub IsHigh : Text → Type 0
IsHigh r = All (λ b. ltb b 0x80 ≡ false) r

high_rune-IsHigh : (c : ℕ) (s : Text) → ltb c 0x80 ≡ false → IsHigh (high_rune c s).0
unfolding high_rune
high_rune-IsHigh c [] h = ground arith
high_rune-IsHigh c (d ∷ []) h = ground arith
high_rune-IsHigh c (d ∷ e ∷ []) h = ground arith
high_rune-IsHigh c (d ∷ e ∷ f ∷ s) h = ground arith

-- A byte below U+0080 by itself, or bytes from there on.
abbrev pub IsRune : Text → Type 0
IsRune r = ((c : ℕ) × (r ≡ c ∷ [])) ⊎ IsHigh r

next_rune-IsRune : (c : ℕ) (s : Text) → IsRune (next_rune c s).0
next_rune-IsRune c s = elim (Bool-cases (ltb c 0x80)) [
  | inl e ↦ rw e (inl (c, refl))
  | inr e ↦ rw e (inr (high_rune-IsHigh c s e))
]

pub runes_from-IsRune : (k : ℕ) (s : Text) → All IsRune (runes_from k s)
unfolding runes_from
runes_from-IsRune k [] = tt
runes_from-IsRune (suc k) (c ∷ s) = runes_from-IsRune k s
runes_from-IsRune zero (c ∷ s) = (next_rune-IsRune c s, runes_from-IsRune (next_rune c s).1 s)

-- The bytes that a rune takes after its first are high.
taken-IsHigh : (c : ℕ) (s : Text) → ltb c 0x80 ≡ false → IsHigh (take (high_rune c s).1 s)
unfolding high_rune
taken-IsHigh c [] h = tt
taken-IsHigh c (d ∷ []) h = ground arith
taken-IsHigh c (d ∷ e ∷ []) h = ground arith
taken-IsHigh c (d ∷ e ∷ f ∷ s) h = ground arith

abbrev pub every : (ℕ → Bool) → Text → Bool
every p [] = true
every p (c ∷ s) = let rest = every p s in p c && rest

module _ (p : ℕ → Bool) (high : (b : ℕ) → ltb b 0x80 ≡ false → p b ≡ true) where
  every-append : (s t : Text) → every p (s ++ t) ≡ (every p s && every p t)
  every-append [] t = refl
  every-append (c ∷ s) t = ground (arith, every-append s t)

  every-IsHigh : (r : Text) → IsHigh r → every p r ≡ true
  every-IsHigh [] h = refl
  every-IsHigh (b ∷ r) h = ground (arith, high b h.0, every-IsHigh r h.1)

  every-drop : (k : ℕ) (s : Text) → IsHigh (take k s) → every p (drop k s) ≡ every p s
  every-drop zero s h = refl
  every-drop (suc k) [] h = refl
  every-drop (suc k) (c ∷ s) h = rw (high c h.0) (every-drop k s h.1)

  next-every :
      (c : ℕ) (s : Text)
      → (every p (next_rune c s).0 && every p (drop (next_rune c s).1 s)) ≡ every p (c ∷ s)
  next-every c s = elim (Bool-cases (ltb c 0x80)) [
    | inl e ↦ rw e (ground arith)
    | inr e ↦
        let rune = every-IsHigh (high_rune c s).0 (high_rune-IsHigh c s e) in
        let rest = every-drop (high_rune c s).1 s (taken-IsHigh c s e) in
        rw (e, rune, rest, high c e) refl
  ]

  every-runes_from : (k : ℕ) (s : Text) → every p (joined (runes_from k s)) ≡ every p (drop k s)
  unfolding runes_from
  every-runes_from zero [] = refl
  every-runes_from (suc k) [] = refl
  every-runes_from (suc k) (c ∷ s) = every-runes_from k s
  every-runes_from zero (c ∷ s) =
      every-append (next_rune c s).0 _
      ∙ (ap (λ b. every p (next_rune c s).0 && b) (every-runes_from (next_rune c s).1 s)
          ∙ next-every c s)

  -- A test that every high byte passes holds of the bytes that are passed on as of the text.
  pub every-written : (s : Text) → every p (written s) ≡ every p s
  unfolding runes
  every-written s = every-runes_from 0 s
