-- ===== src/Base/Utf8/Valid.antt =====
-- Texts in UTF-8, as RFC 3629 has them, and that reading them rune by rune keeps them.
use Prim.Native.Nat.{ℕ}
use mathlib.Core.Path.{◌≡◌, refl, ap}
use mathlib.Core.Bool.{true}
use mathlib.Core.List.{[], ◌∷◌, ◌++◌}
use native.Mathlib.Omega.{arith}
use stevy.Base.Tests.{ltb}
use stevy.Base.Text.{Text}
use stevy.Base.Utf8.{
  starts_two, starts_three, starts_four, high_rune, next_rune, runes_from, runes, written, every,
}

pub data IsUtf8 : Text → Type 0 where
  empty : IsUtf8 []
  one : {c : ℕ} {s : Text} → ltb c 0x80 ≡ true → IsUtf8 s → IsUtf8 (c ∷ s)
  two : {c d : ℕ} {s : Text} → starts_two c d ≡ true → IsUtf8 s → IsUtf8 (c ∷ d ∷ s)
  three : {c d e : ℕ} {s : Text} → starts_three c d e ≡ true → IsUtf8 s → IsUtf8 (c ∷ d ∷ e ∷ s)
  four :
      {c d e f : ℕ} {s : Text} → starts_four c d e f ≡ true → IsUtf8 s → IsUtf8 (c ∷ d ∷ e ∷ f ∷ s)

next-two : (c d : ℕ) (s : Text) → starts_two c d ≡ true → next_rune c (d ∷ s) ≡ (c ∷ d ∷ [], 1)
unfolding high_rune
next-two c d [] h = ground arith
next-two c d (e ∷ []) h = ground arith
next-two c d (e ∷ f ∷ s) h = ground arith

next-three :
    (c d e : ℕ) (s : Text)
    → starts_three c d e ≡ true
    → next_rune c (d ∷ e ∷ s) ≡ (c ∷ d ∷ e ∷ [], 2)
unfolding high_rune
next-three c d e [] h = ground arith
next-three c d e (f ∷ s) h = ground arith

next-four :
    (c d e f : ℕ) (s : Text)
    → starts_four c d e f ≡ true
    → next_rune c (d ∷ e ∷ f ∷ s) ≡ (c ∷ d ∷ e ∷ f ∷ [], 3)
unfolding high_rune
next-four c d e f s h = ground arith

-- What is passed on of a text in UTF-8 is the text.
pub written-IsUtf8 : {s : Text} → IsUtf8 s → written s ≡ s
unfolding runes runes_from
written-IsUtf8 empty = refl
written-IsUtf8 (one {c = c} h v) = rw h (ap (◌∷◌ c) (written-IsUtf8 v))
written-IsUtf8 (two {c = c} {d = d} {s = s} h v) =
    rw (next-two c d s h) (ap (λ t. c ∷ d ∷ t) (written-IsUtf8 v))
written-IsUtf8 (three {c = c} {d = d} {e = e} {s = s} h v) =
    rw (next-three c d e s h) (ap (λ t. c ∷ d ∷ e ∷ t) (written-IsUtf8 v))
written-IsUtf8 (four {c = c} {d = d} {e = e} {f = f} {s = s} h v) =
    rw (next-four c d e f s h) (ap (λ t. c ∷ d ∷ e ∷ f ∷ t) (written-IsUtf8 v))

-- A text of bytes below U+0080 before a text in UTF-8.
pub ascii-IsUtf8 :
    (t : Text) {s : Text} → every (λ c. ltb c 0x80) t ≡ true → IsUtf8 s → IsUtf8 (t ++ s)
ascii-IsUtf8 [] h v = v
ascii-IsUtf8 (c ∷ t) h v = one (ground arith) (ascii-IsUtf8 t (ground arith) v)
