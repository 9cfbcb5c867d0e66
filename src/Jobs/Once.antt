-- ===== src/Jobs/Once.antt =====
-- Lists in which no id stands twice, however they are sorted and filtered.
use stevy.Base.{
  ◌≤◌, ◌≡◌, refl, inl, inr, Bool, true, false, none, List, [], ◌∷◌, All, All-map, count, filter,
  take, zero, suc, ℕ, arith, Bool-cases,
}
use stevy.Base.Sort.{sort, count-sort}
use stevy.Base.Sort.Order.{IsSorted}
use stevy.Base.Text.{Text, text_eq, text_lt, text_lt_total}
use stevy.Jobs.{find_row, has_id}
use stevy.Jobs.Keys.{Distinct}
use stevy.Jobs.Select.{newer}
use stevy.Store.{Job}

-- No id stands twice.
abbrev pub Once : List Job → Type 0
Once rows = (id : Text) → count (has_id id) rows ≤ 1

absent-count :
    (id : Text) (rows : List Job) → find_row (has_id id) rows ≡ none → count (has_id id) rows ≡ 0
unfolding find_row
absent-count id [] h = refl
absent-count id (r ∷ rows) h = ground (arith, absent-count id rows)

same_test : (id : Text) (r : Job) → has_id id r ≡ true → r.id ≡ id
unfolding has_id
same_test id r h = ground arith

pub Distinct-Once : (rows : List Job) → Distinct rows → Once rows
Distinct-Once [] d id = omega arith
Distinct-Once (r ∷ rows) d id = elim (Bool-cases (has_id id r)) [
  | inl e ↦
      let gone : count (has_id id) rows ≡ 0 = absent-count id rows (rw (same_test id r e) at d.0) in
      ground arith
  | inr e ↦ ground (arith, Distinct-Once rows d.1 id)
]

filter-count : (test p : Job → Bool) (rows : List Job) → count p (filter test rows) ≤ count p rows
filter-count test p [] = omega arith
filter-count test p (r ∷ rows) = ground (arith, filter-count test p rows)

pub Once-filter : (test : Job → Bool) (rows : List Job) → Once rows → Once (filter test rows)
Once-filter test rows h id = omega (arith, filter-count test (has_id id) rows, h id)

pub Once-sort : (before : Job → Job → Bool) (rows : List Job) → Once rows → Once (sort before rows)
Once-sort before rows h id = omega (arith, count-sort before (has_id id) rows, h id)

take-count : (p : Job → Bool) (n : ℕ) (rows : List Job) → count p (take n rows) ≤ count p rows
take-count p zero rows = omega arith
take-count p (suc n) [] = omega arith
take-count p (suc n) (r ∷ rows) = ground (arith, take-count p n rows)

pub Once-take : (n : ℕ) (rows : List Job) → Once rows → Once (take n rows)
Once-take n rows h id = omega (arith, take-count (has_id id) n rows, h id)

pub has_own_id : (r : Job) → has_id r.id r ≡ true
unfolding has_id
has_own_id r = ground arith

pub Once-tail : (r : Job) (rows : List Job) → Once (r ∷ rows) → Once rows
Once-tail r rows h id = ground (arith, h id)

none_counted :
    (id : Text) (rows : List Job) → count (has_id id) rows ≡ 0 → All (λ y. has_id id y ≡ false) rows
none_counted id [] h = tt
none_counted id (r ∷ rows) h = ground (arith, none_counted id rows)

-- The head's id does not come again.
pub Once-head :
    (r : Job) (rows : List Job) → Once (r ∷ rows) → All (λ y. has_id r.id y ≡ false) rows
Once-head r rows h = none_counted r.id rows (ground (arith, has_own_id r, h r.id))

-- Each id is below those before it.
abbrev pub Falling : List Job → Type 0
Falling [] = Unit
Falling (r ∷ rows) = All (λ y. text_lt y.id r.id ≡ true) rows × Falling rows

falls : (r y : Job) → newer y r ≡ false → has_id r.id y ≡ false → text_lt y.id r.id ≡ true
unfolding newer has_id
falls r y h ne = elim (Bool-cases (text_lt y.id r.id)) [
  | inl e ↦ e
  | inr e ↦ absurd (ground (arith, text_lt_total y.id r.id e h))
]

All-both :
    (P Q : Job → Type 0) (rows : List Job) → All P rows → All Q rows → All (λ r. P r × Q r) rows
All-both P Q [] h k = tt
All-both P Q (r ∷ rows) h k = ((h.0, k.0), All-both P Q rows h.1 k.1)

pub sorted-Falling : (rows : List Job) → IsSorted newer rows → Once rows → Falling rows
sorted-Falling [] s o = tt
sorted-Falling (r ∷ rows) s o = (
  All-map _ _ (λ y h. falls r y h.0 h.1) rows (All-both _ _ rows s.0 (Once-head r rows o)),
  sorted-Falling rows s.1 (Once-tail r rows o),
)
