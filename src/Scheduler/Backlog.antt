-- ===== src/Scheduler/Backlog.antt =====
-- How much of a backlog the statement on expired jobs takes: counting the rows that it reaches.
use stevy.Base.{
  ℕ, zero, suc, ◌+◌, ◌-◌, ◌≤◌, ◌≡◌, refl, ◌∙◌, inl, inr, Bool, true, false, ◌&&◌, not, some, List,
  [], ◌∷◌, filter, take, count, All, All-map, filter-holds, arith, Bool-cases,
}
use stevy.Base.Sort.{sort, All-sort, count-sort}
use stevy.Base.Sort.Order.{IsSorted, IsOrder, sort-IsSorted}
use stevy.Base.Text.{text_eq}
use stevy.Jobs.{find_row, has_id, update_rows}
use stevy.Jobs.Keys.{Distinct, find_row_self, All-pick}
use stevy.Jobs.Once.{Once, Once-filter, Once-sort, Once-tail, Once-head, Once-take, Distinct-Once}
use stevy.Jobs.Select.{pick, ids, in_ids}
use stevy.Store.{Job}

count-le :
    (p q : Job → Bool)
    → ((r : Job) → p r ≡ true → q r ≡ true)
    → (rows : List Job) → count p rows ≤ count q rows
count-le p q h [] = omega arith
count-le p q h (r ∷ rows) = ground (arith, h r, count-le p q h rows)

-- A test that lets one row more pass.
count_more :
    (p q : Job → Bool)
    → ((r : Job) → p r ≡ true → q r ≡ true)
    → (rows : List Job) (x : Job) → find_row (has_id x.id) rows ≡ some x
    → p x ≡ false
    → q x ≡ true
    → suc (count p rows) ≤ count q rows
unfolding find_row
count_more p q h [] x f px qx = absurd (ground arith)
count_more p q h (r ∷ rows) x f px qx = elim (Bool-cases (has_id x.id r)) [
  | inl e ↦ let same : r ≡ x = ground arith in ground (arith, count-le p q h rows)
  | inr e ↦ ground (arith, h r, count_more p q h rows x)
]

not_in_ids :
    (x : Job) (xs : List Job) → All (λ y. has_id x.id y ≡ false) xs → in_ids (ids xs) x ≡ false
unfolding in_ids ids has_id
not_in_ids x [] h = refl
not_in_ids x (y ∷ xs) h = ground (arith, not_in_ids x xs h.1)

in_ids-head : (x : Job) (xs : List Job) → in_ids (ids (x ∷ xs)) x ≡ true
unfolding in_ids ids
in_ids-head x xs = ground arith

in_ids-tail :
    (x r : Job) (xs : List Job) → in_ids (ids xs) r ≡ true → in_ids (ids (x ∷ xs)) r ≡ true
unfolding in_ids ids
in_ids-tail x r xs h = ground arith

-- The rows of a list without repetition are counted in the table by their ids.
count-in_ids :
    (p : Job → Bool) (rows xs : List Job)
    → Once xs
    → All (λ x. find_row (has_id x.id) rows ≡ some x) xs
    → count p xs ≤ count (λ r. p r && in_ids (ids xs) r) rows
count-in_ids p rows [] once self = omega arith
count-in_ids p rows (x ∷ xs) once self =
    let before = λ (r : Job). p r && in_ids (ids xs) r in
    let after = λ (r : Job). p r && in_ids (ids (x ∷ xs)) r in
    let grows : (r : Job) → before r ≡ true → after r ≡ true =
      λ r h. let tail = in_ids-tail x r xs in ground arith in
    let rest = count-in_ids p rows xs (Once-tail x xs once) self.1 in
    let fresh = not_in_ids x xs (Once-head x xs once) in
    elim (Bool-cases (p x)) [
      | inl e ↦
          let more =
            count_more before after grows rows x self.0 (ground arith)
              (rw (e, in_ids-head x xs) refl) in
          rw e (omega arith)
      | inr e ↦ let more = count-le before after grows rows in rw e (omega arith)
    ]

count-split :
    (p q : Job → Bool) (rows : List Job)
    → count p rows ≡ count (λ r. p r && q r) rows + count (λ r. p r && not (q r)) rows
count-split p q [] = refl
count-split p q (r ∷ rows) = ground (arith, count-split p q rows)

-- An update after which no row that it reached passes.
count-update_rows :
    (p q : Job → Bool) (change : Job → Job)
    → ((r : Job) → p (change r) ≡ false)
    → (rows : List Job) → count p (update_rows q change rows) ≡ count (λ r. p r && not (q r)) rows
unfolding update_rows
count-update_rows p q change h [] = refl
count-update_rows p q change h (r ∷ rows) = ground (arith, h r, count-update_rows p q change h rows)

pub count-update_rows-le :
    (p q : Job → Bool) (change : Job → Job)
    → ((r : Job) → p (change r) ≡ false)
    → (rows : List Job) → count p (update_rows q change rows) ≤ count p rows
count-update_rows-le p q change h rows =
    let kept = count-le (λ r. p r && not (q r)) p (λ r k. ground arith) rows in
    omega (arith, count-update_rows p q change h rows)

count-filter :
    (p test : Job → Bool)
    → ((r : Job) → p r ≡ true → test r ≡ true)
    → (rows : List Job) → count p (filter test rows) ≡ count p rows
count-filter p test h [] = refl
count-filter p test h (r ∷ rows) = ground (arith, h r, count-filter p test h rows)

none_counted : (p : Job → Bool) (rows : List Job) → All (λ r. p r ≡ false) rows → count p rows ≡ 0
none_counted p [] h = refl
none_counted p (r ∷ rows) h = ground (arith, none_counted p rows h.1)

module _ (before : Job → Job → Bool) (order : IsOrder before) (p test : Job → Bool)
    (closed : (x y : Job) → test x ≡ true → before y x ≡ false → p y ≡ true → p x ≡ true) where
  -- In the order of the query the rows that pass `p` come first, so that a page has as many of them as
  -- it can.
  count-take :
      (n : ℕ) (xs : List Job)
      → IsSorted before xs
      → All (λ x. test x ≡ true) xs
      → count p xs ≤ count p (take n xs) + (count p xs - n)
  count-take zero xs h t = omega arith
  count-take (suc n) [] h t = omega arith
  count-take (suc n) (x ∷ xs) h t = elim (Bool-cases (p x)) [
    | inl e ↦ let rest = count-take n xs h.1 t.1 in rw e (omega arith)
    | inr e ↦
        let later =
          none_counted p xs
            (All-map _ _ (λ y f. refuted (p y) (λ q. closed x y t.0 f q) e) xs h.0) in
        rw e (omega arith)
  ]
    where
      refuted : (b : Bool) → (b ≡ true → p x ≡ true) → p x ≡ false → b ≡ false
      refuted b h e = ground arith

  module _ (within : (r : Job) → p r ≡ true → test r ≡ true) (change : Job → Job)
      (clears : (r : Job) → p (change r) ≡ false) where
    -- Of the rows that pass `p`, an update of the first `n` in the order leaves what is over `n`.
    pub count-update_picked :
        (n : ℕ) (rows : List Job)
        → Distinct rows
        → count p (update_rows (in_ids (ids (pick before test n rows))) change rows)
          ≤ count p rows - n
    unfolding pick
    count-update_picked n rows d =
        let sorted = sort before (filter test rows) in
        let picked = take n sorted in
        let once =
          Once-take n sorted (Once-sort before _ (Once-filter test rows (Distinct-Once rows d))) in
        let reached =
          count-in_ids p rows picked once (All-pick before test n _ rows (find_row_self rows d)) in
        let first =
          count-take n sorted (sort-IsSorted before order (filter test rows))
            (All-sort before _ _ (filter-holds test rows)) in
        let all = count-sort before p (filter test rows) ∙ count-filter p test within rows in
        let left = count-update_rows p (in_ids (ids picked)) change clears rows in
        let parts = count-split p (in_ids (ids picked)) rows in omega arith
