-- ===== src/Jobs/Keys.antt =====
-- The primary key of `jobs`: with distinct ids, an update by picked ids reaches just the picked rows.
use stevy.Base.{
  ℕ, ◌≡◌, refl, subst, inl, inr, Bool, true, false, none, some, List, [], ◌∷◌, ◌++◌, All, All-map,
  All-filter, All-take, filter-holds, arith, Bool-cases,
}
use stevy.Base.Sort.{All-sort}
use stevy.Base.Text.{Text, text_eq, text_discrete}
use stevy.Store.{Job}
use stevy.Jobs.{find_row, update_rows, has_id}
use stevy.Jobs.Select.{pick, ids, in_ids}
use stevy.Jobs.Moves.{RowStep, RowStep-refl, Moves, added, moved}

-- No two rows have one id.
abbrev pub Distinct : List Job → Type 0
Distinct [] = Unit
Distinct (r ∷ rs) = (find_row (has_id r.id) rs ≡ none) × Distinct rs

has_id_refl : (r : Job) → has_id r.id r ≡ true
unfolding has_id
has_id_refl r = ground arith

pub has_id-eq : (id : Text) (r : Job) → has_id id r ≡ true → r.id ≡ id
unfolding has_id
has_id-eq id r h = ground arith

has_id_sym : (x r : Job) → has_id x.id r ≡ has_id r.id x
unfolding has_id
has_id_sym x r = ground arith

find_row-here :
    (x r : Job) (rs : List Job)
    → find_row (has_id r.id) rs ≡ none
    → find_row (has_id x.id) rs ≡ some x
    → find_row (has_id x.id) (r ∷ rs) ≡ some x
unfolding find_row
find_row-here x r rs fresh found = elim (Bool-cases (has_id x.id r)) [
  | inl same ↦ cc (has_id-eq x.id r same)
  | inr other ↦ rw other found
]

-- Every row is found by its id.
pub find_row_self : (rs : List Job) → Distinct rs → All (λ r. find_row (has_id r.id) rs ≡ some r) rs
unfolding find_row
find_row_self [] d = tt
find_row_self (r ∷ rs) d =
    (rw (has_id_refl r), All-map _ _ (λ x h. find_row-here x r rs d.0 h) rs (find_row_self rs d.1))

pub same_row :
    (r x : Job) (rows : List Job)
    → find_row (has_id r.id) rows ≡ some r
    → find_row (has_id x.id) rows ≡ some x
    → r.id ≡ x.id
    → x ≡ r
same_row r x rows f g e = cc

-- A row of the table whose id is among those of some rows of the table is one of them.
in_ids-holds :
    (P : Job → Type 0) (r : Job) (rows xs : List Job)
    → find_row (has_id r.id) rows ≡ some r
    → All (λ x. find_row (has_id x.id) rows ≡ some x) xs
    → All P xs
    → in_ids (ids xs) r ≡ true
    → P r
unfolding in_ids ids
in_ids-holds P r rows [] self f h e = cc
in_ids-holds P r rows (x ∷ xs) self f h e = elim (text_discrete r.id x.id) [
  | yes p ↦ subst P (same_row r x rows self f.0 p) h.0
  | no p ↦ in_ids-holds P r rows xs self f.1 h.1 (ground arith)
]

module _ (before : Job → Job → Bool) (test : Job → Bool) (limit : ℕ) where
  pub All-pick {κ} :
      (P : Job → Type κ) (rows : List Job) → All P rows → All P (pick before test limit rows)
  unfolding pick
  All-pick P rows h = All-take P limit _ (All-sort before P _ (All-filter P test rows h))

  pub pick-holds : (rows : List Job) → All (λ r. test r ≡ true) (pick before test limit rows)
  unfolding pick
  pick-holds rows = All-take _ limit _ (All-sort before _ _ (filter-holds test rows))

  -- With distinct ids, `WHERE id IN (SELECT id … WHERE test …)` reaches only rows that pass `test`.
  pub in_ids-pick :
      (rows : List Job)
      → Distinct rows
      → All (λ r. in_ids (ids (pick before test limit rows)) r ≡ true → test r ≡ true) rows
  in_ids-pick rows d =
      let self = find_row_self rows d in
      All-map _ _
        (λ r h e.
          in_ids-holds (λ x. test x ≡ true) r rows _ h (All-pick _ rows self) (pick-holds rows) e)
        rows self

module _ (test : Job → Bool) (change : Job → Job) where
  -- An update is a move of the table if it is a step of each row that it reaches.
  pub update_rows-Moves :
      (rows : List Job)
      → All (λ r. test r ≡ true → RowStep r (change r)) rows
      → Moves rows (update_rows test change rows)
  unfolding update_rows
  update_rows-Moves [] h = added tt
  update_rows-Moves (r ∷ rs) h = elim (Bool-cases (test r)) [
    | inl e ↦ rw e (moved (h.0 e) (update_rows-Moves rs h.1))
    | inr e ↦ rw e (moved (RowStep-refl r) (update_rows-Moves rs h.1))
  ]

  update_rows-fresh :
      ((r : Job) → (change r).id ≡ r.id)
      → (id : Text) (rows : List Job) → find_row (has_id id) rows ≡ none
      → find_row (has_id id) (update_rows test change rows) ≡ none
  unfolding update_rows find_row has_id
  update_rows-fresh keeps id [] h = refl
  update_rows-fresh keeps id (r ∷ rs) h = ground (arith, keeps r, update_rows-fresh keeps id rs)

  pub update_rows-Distinct :
      ((r : Job) → (change r).id ≡ r.id)
      → (rows : List Job) → Distinct rows
      → Distinct (update_rows test change rows)
  unfolding update_rows
  update_rows-Distinct keeps [] d = tt
  update_rows-Distinct keeps (r ∷ rs) d =
      let rest = update_rows-Distinct keeps rs d.1 in
      let fresh = update_rows-fresh keeps r.id rs d.0 in
      elim (Bool-cases (test r)) [
        | inl e ↦ rw e (rw (keeps r) fresh, rest)
        | inr e ↦ rw e (fresh, rest)
      ]

find_row-append :
    (id : Text) (rs : List Job) (r : Job)
    → find_row (has_id id) rs ≡ none
    → has_id id r ≡ false
    → find_row (has_id id) (rs ++ (r ∷ [])) ≡ none
unfolding find_row
find_row-append id [] r h e = rw e
find_row-append id (x ∷ rs) r h e = ground (arith, find_row-append id rs r)

-- A row with a new id may be added.
pub Distinct-append :
    (rs : List Job) (r : Job)
    → Distinct rs
    → find_row (has_id r.id) rs ≡ none
    → Distinct (rs ++ (r ∷ []))
unfolding find_row
Distinct-append [] r d h = (refl, tt)
Distinct-append (x ∷ rs) r d h =
    ground (arith, has_id_sym x r, find_row-append x.id rs r d.0, Distinct-append rs r d.1)
