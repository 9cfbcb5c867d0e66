-- ===== src/Jobs/Shuffled.antt =====
-- The table `jobs` with its rows in another order: the statements do not see the order where the ids
-- are distinct and the order of the query ends with the id.
use mathlib.Core.List.{Permᴰ, Memᴰ}
use stevy.Base.{
  ℕ, ◌≡◌, refl, sym, ap, ◌∙◌, subst, inl, inr, if◌then◌else◌, Bool, true, some, List, [], ◌∷◌, All,
  take, filter, arith, Bool-cases,
}
use stevy.Base.Sort.Shuffled.{Memᴰ-Permᴰ, Memᴰ-filter, filter-Permᴰ, Separates, sort-Permᴰ}
use stevy.Base.Text.{Text, text_eq, text_lt_total}
use stevy.Jobs.{find_row, has_id, update_rows}
use stevy.Jobs.Keys.{Distinct, find_row_self, same_row, has_id-eq}
use stevy.Jobs.Order.{claims_before-IsOrder, newer-IsOrder}
use stevy.Jobs.Queries.{list_rows}
use stevy.Jobs.Select.{claims_before, newer, pick, ids, in_ids}
use stevy.Store.{Job}

All-Memᴰ : (P : Job → Type 0) (rows : List Job) (r : Job) → All P rows → Memᴰ r rows → P r
All-Memᴰ P [] r h m = elim m [ ]
All-Memᴰ P (x ∷ rows) r h (Memᴰ.head e) = subst P (sym e) h.0
All-Memᴰ P (x ∷ rows) r h (Memᴰ.tail m) = All-Memᴰ P rows r h.1 m

module _ (rows : List Job) (d : Distinct rows) where
  same_id : (a b : Job) → Memᴰ a rows → Memᴰ b rows → a.id ≡ b.id → a ≡ b
  same_id a b m n e =
      let self = find_row_self rows d in
      sym (same_row a b rows (All-Memᴰ _ rows a self m) (All-Memᴰ _ rows b self n) e)

  claims_before-Separates : (test : Job → Bool) → Separates claims_before (filter test rows)
  unfolding claims_before
  claims_before-Separates test a b m n h k =
      same_id a b (Memᴰ-filter test rows m) (Memᴰ-filter test rows n)
        (ground (arith, text_lt_total a.id b.id))

  newer-Separates : (test : Job → Bool) → Separates newer (filter test rows)
  unfolding newer
  newer-Separates test a b m n h k =
      same_id a b (Memᴰ-filter test rows m) (Memᴰ-filter test rows n)
        (sym (text_lt_total b.id a.id h k))

  pub pick-Permᴰ :
      (test : Job → Bool) (limit : ℕ) {others : List Job}
      → Permᴰ rows others
      → pick claims_before test limit rows ≡ pick claims_before test limit others
  unfolding pick
  pick-Permᴰ test limit p = ap (take limit) (
      sort-Permᴰ claims_before claims_before-IsOrder (filter-Permᴰ test p)
        (claims_before-Separates test))

  pub list_rows-Permᴰ :
      (queue status after : Text) (limit : ℕ) {others : List Job}
      → Permᴰ rows others
      → list_rows queue status after limit rows ≡ list_rows queue status after limit others
  unfolding list_rows
  list_rows-Permᴰ queue status after limit p =
      ap (take limit) (sort-Permᴰ newer newer-IsOrder (filter-Permᴰ _ p) (newer-Separates _))

find_row-Permᴰ :
    (test : Job → Bool) {xs ys : List Job}
    → Permᴰ xs ys
    → ((a b : Job) → Memᴰ a xs → Memᴰ b xs → test a ≡ true → test b ≡ true → a ≡ b)
    → find_row test xs ≡ find_row test ys
unfolding find_row
find_row-Permᴰ test Permᴰ.nil one = refl
find_row-Permᴰ test (Permᴰ.cons {b = b} e p) one =
    let rest = find_row-Permᴰ test p (λ x y m n. one x y (Memᴰ.tail m) (Memᴰ.tail n)) in
    rw (e, rest) refl
find_row-Permᴰ test (Permᴰ.swap {a = a} {b = b} {l = l} e f) one =
    rw (sym e, sym f)
      (elim (Bool-cases (test a)) [
        | inl h ↦ elim (Bool-cases (test b)) [
          | inl k ↦ rw (h, k) (ap some (one a b (Memᴰ.head refl) (Memᴰ.tail (Memᴰ.head refl)) h k))
          | inr k ↦ rw (h, k) refl
        ]
        | inr h ↦ rw h refl
      ])
find_row-Permᴰ test (Permᴰ.trans p q) one =
    find_row-Permᴰ test p one
    ∙ find_row-Permᴰ test q (λ a b m n. one a b (Memᴰ-Permᴰ p m) (Memᴰ-Permᴰ p n))

module _ (rows : List Job) (d : Distinct rows) where
  -- An id names one row at most.
  pub find_row-id-Permᴰ :
      (id : Text) {others : List Job}
      → Permᴰ rows others
      → find_row (has_id id) rows ≡ find_row (has_id id) others
  find_row-id-Permᴰ id p =
      find_row-Permᴰ (has_id id) p
        (λ a b m n h k. same_id rows d a b m n (has_id-eq id a h ∙ sym (has_id-eq id b k)))

  one_id :
      (xs : List Job) (a b : Job)
      → in_ids (ids (take 1 xs)) a ≡ true
      → in_ids (ids (take 1 xs)) b ≡ true
      → a.id ≡ b.id
  unfolding in_ids ids
  one_id [] a b h k = absurd (ground arith)
  one_id (x ∷ xs) a b h k = ground arith

  -- Nor do the ids of the first of some rows.
  pub find_row-first-Permᴰ :
      (xs : List Job) {others : List Job}
      → Permᴰ rows others
      → find_row (in_ids (ids (take 1 xs))) rows ≡ find_row (in_ids (ids (take 1 xs))) others
  find_row-first-Permᴰ xs p =
      find_row-Permᴰ (in_ids (ids (take 1 xs))) p
        (λ a b m n h k. same_id rows d a b m n (one_id xs a b h k))

pub update_rows-Permᴰ :
    (test : Job → Bool) (change : Job → Job) {xs ys : List Job}
    → Permᴰ xs ys
    → Permᴰ (update_rows test change xs) (update_rows test change ys)
unfolding update_rows
update_rows-Permᴰ test change Permᴰ.nil = Permᴰ.nil
update_rows-Permᴰ test change (Permᴰ.cons e p) =
    Permᴰ.cons (ap (λ r. if test r then change r else r) e) (update_rows-Permᴰ test change p)
update_rows-Permᴰ test change (Permᴰ.swap e f) =
    Permᴰ.swap (ap (λ r. if test r then change r else r) e)
      (ap (λ r. if test r then change r else r) f)
update_rows-Permᴰ test change (Permᴰ.trans p q) =
    Permᴰ.trans (update_rows-Permᴰ test change p) (update_rows-Permᴰ test change q)
