-- ===== src/Statements/Claim/Sequence.antt =====
-- Claims after one another: what is left to claim once the first row is taken.
use stevy.Base.{ℕ, ◌≡◌, refl, ◌∙◌, ap, subst, Bool, false, not, List, [], ◌∷◌, filter, All, arith}
use stevy.Base.Sort.{sort}
use stevy.Base.Sort.Order.{sort-filter}
use stevy.Base.Text.{Text}
use stevy.Jobs.{update_rows, has_id, claim_row, where_claimable}
use stevy.Jobs.Keys.{Distinct, update_rows-Distinct}
use stevy.Jobs.Once.{Once, Once-filter, Once-sort, Once-head, Distinct-Once, has_own_id}
use stevy.Jobs.Order.{claims_before-IsOrder}
use stevy.Jobs.Select.{claims_before}
use stevy.Statements.Claim.{is_claimable}
use stevy.Statements.Keeps.{claim_row-id}
use stevy.Store.{Job}

pub filter-update_rows :
    (test q : Job → Bool) (change : Job → Job)
    → ((x : Job) → test (change x) ≡ false)
    → (rows : List Job)
    → filter test (update_rows q change rows) ≡ filter (λ x. not (q x)) (filter test rows)
unfolding update_rows
filter-update_rows test q change h [] = refl
filter-update_rows test q change h (x ∷ rows) =
    ground (arith, h x, filter-update_rows test q change h rows)

filter-absent :
    (q : Job → Bool) (xs : List Job) → All (λ x. q x ≡ false) xs → filter (λ x. not (q x)) xs ≡ xs
filter-absent q [] h = refl
filter-absent q (x ∷ xs) h = ground (arith, filter-absent q xs h.1)

filter-first :
    (r : Job) (rest : List Job)
    → Once (r ∷ rest)
    → filter (λ x. not (has_id r.id x)) (r ∷ rest) ≡ rest
filter-first r rest once =
    let others = filter-absent (has_id r.id) rest (Once-head r rest once) in
    ground (arith, has_own_id r)

claimed_not_claimable :
    (is_locked : Text → Bool) (now lock : ℕ) (worker queue : Text) (x : Job)
    → is_claimable is_locked now queue (claim_row now lock worker x) ≡ false
unfolding claim_row where_claimable
claimed_not_claimable is_locked now lock worker queue x = ground arith

module _ (is_locked : Text → Bool) (now lock : ℕ) (worker queue : Text) where
  -- The rows that can be claimed, in the order of claims.
  abbrev pub claimable : List Job → List Job
  claimable rows = sort claims_before (filter (is_claimable is_locked now queue) rows)

  -- Once the first is claimed, the others are left.
  pub claimable-rest :
      (rows : List Job) (r : Job) (rest : List Job)
      → Distinct rows
      → claimable rows ≡ r ∷ rest
      → claimable (update_rows (has_id r.id) (claim_row now lock worker) rows) ≡ rest
  claimable-rest rows r rest d e =
      let test = is_claimable is_locked now queue in
      let once =
        subst Once e (Once-sort claims_before _ (Once-filter test rows (Distinct-Once rows d))) in
      ap (sort claims_before) (
        filter-update_rows test (has_id r.id) (claim_row now lock worker)
          (claimed_not_claimable is_locked now lock worker queue) rows)
      ∙ (sort-filter claims_before claims_before-IsOrder (λ x. not (has_id r.id x))
            (filter test rows)
          ∙ (ap (filter (λ x. not (has_id r.id x))) e ∙ filter-first r rest once))

  pub claimed-Distinct :
      (rows : List Job) (r : Job)
      → Distinct rows
      → Distinct (update_rows (has_id r.id) (claim_row now lock worker) rows)
  claimed-Distinct rows r d =
      update_rows-Distinct (has_id r.id) (claim_row now lock worker) (claim_row-id now lock worker)
        rows d
