-- ===== src/Base/Sort/Order.antt =====
-- The order of a sorted list, for an order whose "not before" is transitive.
use mathlib.Core.Path.{◌≡◌, refl}
use mathlib.Core.Bool.{Bool, true, false}
use mathlib.Core.List.{List, [], ◌∷◌}
use native.Mathlib.Omega.{arith}
use mathlib.Core.Logic.{inl, inr}
use stevy.Base.Tests.{Bool-cases, if◌then◌else◌}
use stevy.Base.Lists.{All, All-map, All-filter, filter}
use stevy.Base.Sort.{insert, sort, All-insert}

-- A strict order in which two items may stand level.
pub record IsOrder {ℓ} {A : Type ℓ} (before : A → A → Bool) : Type ℓ where
  pub asym : (a b : A) → before a b ≡ true → before b a ≡ false
  pub not_trans : (a b c : A) → before a b ≡ false → before b c ≡ false → before a c ≡ false

module _ {ℓ} {A : Type ℓ} (before : A → A → Bool) where
  -- No item comes before one that stands ahead of it.
  abbrev pub IsSorted : List A → Type 0
  IsSorted [] = Unit
  IsSorted (x ∷ xs) = All (λ y. before y x ≡ false) xs × IsSorted xs

  module _ (order : IsOrder before) where
    insert-IsSorted : (a : A) (xs : List A) → IsSorted xs → IsSorted (insert before a xs)
    unfolding insert
    insert-IsSorted a [] h = (tt, tt)
    insert-IsSorted a (x ∷ xs) h = elim (Bool-cases (before x a)) [
      | inl e ↦ rw e (
        All-insert before (λ y. before y x ≡ false) a xs (order.asym x a e) h.0,
        insert-IsSorted a xs h.1,
      )
      | inr e ↦ rw e ((e, All-map _ _ (λ y f. order.not_trans y x a f e) xs h.0), h)
    ]

    pub sort-IsSorted : (xs : List A) → IsSorted (sort before xs)
    unfolding sort
    sort-IsSorted [] = tt
    sort-IsSorted (x ∷ xs) = insert-IsSorted x (sort before xs) (sort-IsSorted xs)

    irrefl : (a : A) → before a a ≡ false
    irrefl a = ground (arith, order.asym a a)

    -- The head of a sorted list has nothing before it.
    pub head_least :
        (x : A) (xs : List A) → IsSorted (x ∷ xs) → All (λ y. before y x ≡ false) (x ∷ xs)
    head_least x xs h = (irrefl x, h.0)

    -- An item that nothing comes before is put in front.
    insert-front :
        (a : A) (xs : List A) → All (λ y. before y a ≡ false) xs → insert before a xs ≡ a ∷ xs
    unfolding insert
    insert-front a [] h = refl
    insert-front a (x ∷ xs) h = ground arith

    insert-filter :
        (p : A → Bool) (a : A) (xs : List A)
        → IsSorted xs
        → filter p (insert before a xs)
          ≡ (if p a then insert before a (filter p xs) else filter p xs)
    unfolding insert
    insert-filter p a [] h = ground arith
    insert-filter p a (x ∷ xs) h = elim (Bool-cases (before x a)) [
      | inl e ↦ ground (arith, insert-filter p a xs h.1)
      | inr e ↦
          let front =
            insert-front a (filter p xs)
              (All-filter _ p xs (All-map _ _ (λ y f. order.not_trans y x a f e) xs h.0)) in
          ground (arith, front)
    ]

    -- Sorting the items that pass a test keeps them as they come in the sorted list.
    pub sort-filter :
        (p : A → Bool) (xs : List A) → sort before (filter p xs) ≡ filter p (sort before xs)
    unfolding sort
    sort-filter p [] = refl
    sort-filter p (x ∷ xs) =
        ground (arith, insert-filter p x (sort before xs) (sort-IsSorted xs), sort-filter p xs)
