-- ===== src/Jobs/ById.antt =====
-- An update `WHERE id = ? AND <test of the status>`: the row that it reaches, and the others.
use stevy.Base.{
  ◌≡◌, refl, subst, inl, inr, ◌≢◌, Bool, true, false, ◌&&◌, none, some, List, [], ◌∷◌, count, arith,
  Bool-cases,
}
use stevy.Base.Text.{Text, text_eq}
use stevy.Jobs.Keys.{Distinct}
use stevy.Store.{Status, Job}
use stevy.Jobs.{find_row, has_id, update_rows}

-- The row of an id, if there is one and its status passes.
abbrev pub Target : Text → (Status → Bool) → List Job → Job → Type 0
Target id passes rows r = (find_row (has_id id) rows ≡ some r) × (passes r.status ≡ true)

-- The row of the id, if there is one, has a status that does not pass.
abbrev pub NoTarget : Text → (Status → Bool) → List Job → Type 0
NoTarget id passes rows = (r : Job) → find_row (has_id id) rows ≡ some r → passes r.status ≡ false

has_id-eq : (id : Text) (r : Job) → has_id id r ≡ true → r.id ≡ id
unfolding has_id
has_id-eq id r h = ground arith

two_ids : (id j : Text) (r : Job) → has_id id r ≡ true → j ≢ id → has_id j r ≡ false
unfolding has_id
two_ids id j r h ne = ground arith

module _ (id : Text) (passes : Status → Bool) where
  abbrev pub where_id : Job → Bool
  where_id r = has_id id r && passes r.status

  pub find_row-where :
      (rows : List Job) (r : Job) → Target id passes rows r → find_row where_id rows ≡ some r
  unfolding find_row
  find_row-where [] r h = absurd (ground arith)
  find_row-where (x ∷ rows) r h = ground (arith, find_row-where rows r)

  pub count-where : (rows : List Job) (r : Job) → Target id passes rows r → count where_id rows ≢ 0
  unfolding find_row
  count-where [] r h = absurd (ground arith)
  count-where (x ∷ rows) r h = ground (arith, count-where rows r)

  module _ (change : Job → Job) (keeps : (r : Job) → (change r).id ≡ r.id) where
    keeps_has_id : (j : Text) (r : Job) → has_id j (change r) ≡ has_id j r
    unfolding has_id
    keeps_has_id j r = cc (keeps r)

    pub find_row-updated :
        (rows : List Job) (r : Job)
        → Target id passes rows r
        → find_row (has_id id) (update_rows where_id change rows) ≡ some (change r)
    unfolding find_row update_rows
    find_row-updated [] r h = absurd (ground arith)
    find_row-updated (x ∷ rows) r h = ground (arith, keeps_has_id id x, find_row-updated rows r)

    -- The rows of other ids are as they were.
    pub find_row-other :
        (rows : List Job) (j : Text)
        → j ≢ id
        → find_row (has_id j) (update_rows where_id change rows) ≡ find_row (has_id j) rows
    unfolding find_row update_rows
    find_row-other [] j ne = refl
    find_row-other (x ∷ rows) j ne =
        let rest = find_row-other rows j ne in
        elim (Bool-cases (has_id id x)) [
          | inl e ↦ ground (arith, rest, keeps_has_id j x, two_ids id j x e ne)
          | inr e ↦ ground (arith, rest)
        ]

    absent :
        (rows : List Job)
        → find_row (has_id id) rows ≡ none
        → (update_rows where_id change rows ≡ rows)
          × (find_row where_id rows ≡ none)
          × (count where_id rows ≡ 0)
    unfolding find_row update_rows
    absent [] h = (refl, refl, refl)
    absent (x ∷ rows) h = ground (arith, absent rows)

    -- With no row to reach, the update changes nothing.
    pub update_missed :
        (rows : List Job)
        → Distinct rows
        → NoTarget id passes rows
        → (update_rows where_id change rows ≡ rows)
          × (find_row where_id rows ≡ none)
          × (count where_id rows ≡ 0)
    unfolding find_row update_rows
    update_missed [] d h = (refl, refl, refl)
    update_missed (x ∷ rows) d h = elim (Bool-cases (has_id id x)) [
      | inl e ↦
          let gone : find_row (has_id id) rows ≡ none =
            subst (λ i. find_row (has_id i) rows ≡ none) (has_id-eq id x e) d.0 in
          let closed : passes x.status ≡ false = h x (rw e) in ground (arith, absent rows gone)
      | inr e ↦ let rest = update_missed rows d.1 (λ r f. h r (rw e f)) in ground (arith, rest)
    ]
