-- ===== src/Base/Sort/Shuffled.antt =====
-- Sorting a list whose items stand in another order.
use mathlib.Core.Path.{◌≡◌, refl, sym, ap₂, ◌∙◌}
use mathlib.Core.Bool.{Bool, true, false}
use mathlib.Core.List.{List, [], ◌∷◌, Permᴰ, Memᴰ}
use mathlib.Core.List.Memᴰ
use mathlib.Core.List.Permᴰ
use mathlib.Core.Logic.{inl, inr}
use native.Mathlib.Omega.{arith}
use stevy.Base.Tests.{Bool-cases}
use stevy.Base.Lists.{filter}
use stevy.Base.Sort.{insert, sort}
use stevy.Base.Sort.Order.{IsOrder}

module _ {ℓ} {A : Type ℓ} where
  pub Memᴰ-Permᴰ : {a : A} {xs ys : List A} → Permᴰ xs ys → Memᴰ a ys → Memᴰ a xs
  Memᴰ-Permᴰ Permᴰ.nil m = m
  Memᴰ-Permᴰ (Permᴰ.cons e d) (Memᴰ.head h) = Memᴰ.head (h ∙ sym e)
  Memᴰ-Permᴰ (Permᴰ.cons e d) (Memᴰ.tail m) = Memᴰ.tail (Memᴰ-Permᴰ d m)
  Memᴰ-Permᴰ (Permᴰ.swap e f) (Memᴰ.head h) = Memᴰ.tail (Memᴰ.head (h ∙ sym f))
  Memᴰ-Permᴰ (Permᴰ.swap e f) (Memᴰ.tail (Memᴰ.head h)) = Memᴰ.head (h ∙ sym e)
  Memᴰ-Permᴰ (Permᴰ.swap e f) (Memᴰ.tail (Memᴰ.tail m)) = Memᴰ.tail (Memᴰ.tail m)
  Memᴰ-Permᴰ (Permᴰ.trans d d') m = Memᴰ-Permᴰ d (Memᴰ-Permᴰ d' m)

  pub Memᴰ-filter : {a : A} (p : A → Bool) (xs : List A) → Memᴰ a (filter p xs) → Memᴰ a xs
  Memᴰ-filter p [] m = m
  Memᴰ-filter p (x ∷ xs) m = elim (Bool-cases (p x)) [
    | inl e ↦ elim (Memᴰ.cases_cons (rw e at m)) [
      | inl here ↦ Memᴰ.head here
      | inr later ↦ Memᴰ.tail (Memᴰ-filter p xs later)
    ]
    | inr e ↦ Memᴰ.tail (Memᴰ-filter p xs (rw e at m))
  ]

  pub filter-Permᴰ :
      (p : A → Bool) {xs ys : List A} → Permᴰ xs ys → Permᴰ (filter p xs) (filter p ys)
  filter-Permᴰ p Permᴰ.nil = Permᴰ.nil
  filter-Permᴰ p (Permᴰ.cons {b = b} e d) = rw e (elim (Bool-cases (p b)) [
    | inl h ↦ rw h (Permᴰ.cons refl (filter-Permᴰ p d))
    | inr h ↦ rw h (filter-Permᴰ p d)
  ])
  filter-Permᴰ p (Permᴰ.swap {a' = a} {b' = b} {l = l} e f) =
      rw (e, f)
        (elim (Bool-cases (p a)) [
          | inl h ↦ elim (Bool-cases (p b)) [
            | inl k ↦ rw (h, k) (Permᴰ.swap refl refl)
            | inr k ↦ rw (h, k) (Permᴰ.refl _)
          ]
          | inr h ↦ rw h (Permᴰ.refl _)
        ])
  filter-Permᴰ p (Permᴰ.trans d d') = Permᴰ.trans (filter-Permᴰ p d) (filter-Permᴰ p d')

  module _ (before : A → A → Bool) where
    -- Items of the list that stand level are the same.
    abbrev pub Separates : List A → Type ℓ
    Separates xs =
        (a b : A) → Memᴰ a xs → Memᴰ b xs → before a b ≡ false → before b a ≡ false → a ≡ b

    module _ (order : IsOrder before) where
      insert-earlier :
          (a b : A) (xs : List A)
          → before a b ≡ true
          → insert before a (insert before b xs) ≡ insert before b (insert before a xs)
      unfolding insert
      insert-earlier a b [] h = ground (arith, order.asym a b h)
      insert-earlier a b (x ∷ xs) h =
          ground (arith, order.asym a b h, order.not_trans x b a, insert-earlier a b xs h)

      -- Of two items that are put in, either may be first.
      insert-insert :
          (a b : A) (xs : List A)
          → (before a b ≡ false → before b a ≡ false → a ≡ b)
          → insert before a (insert before b xs) ≡ insert before b (insert before a xs)
      insert-insert a b xs level = elim (Bool-cases (before a b)) [
        | inl h ↦ insert-earlier a b xs h
        | inr h ↦ elim (Bool-cases (before b a)) [
          | inl k ↦ sym (insert-earlier b a xs k)
          | inr k ↦ rw (level h k) refl
        ]
      ]

      pub sort-Permᴰ :
          {xs ys : List A} → Permᴰ xs ys → Separates xs → sort before xs ≡ sort before ys
      unfolding sort
      sort-Permᴰ Permᴰ.nil level = refl
      sort-Permᴰ (Permᴰ.cons e d) level =
          ap₂ (insert before) e (sort-Permᴰ d (λ a b m n. level a b (Memᴰ.tail m) (Memᴰ.tail n)))
      sort-Permᴰ (Permᴰ.swap {a = a} {b = b} {l = l} e f) level =
          insert-insert a b (sort before l)
            (level a b (Memᴰ.head refl) (Memᴰ.tail (Memᴰ.head refl)))
          ∙ ap₂ (λ x y. insert before x (insert before y (sort before l))) f e
      sort-Permᴰ (Permᴰ.trans d d') level =
          sort-Permᴰ d level
          ∙ sort-Permᴰ d' (λ a b m n. level a b (Memᴰ-Permᴰ d m) (Memᴰ-Permᴰ d n))
