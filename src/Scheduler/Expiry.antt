-- ===== src/Scheduler/Expiry.antt =====
-- The statement on expired jobs clears a backlog that fits its limit.
use stevy.Base.{
  take-all, ℕ, ◌≤◌, ◌≡◌, refl, ◌∙◌, ap, Bool, true, List, [], ◌∷◌, filter, take, any, count, length,
  All, All-map, arith, ◌==◌,
}
use stevy.Base.Sort.{sort, any-sort, length-sort}
use stevy.Base.Text.{text_eq}
use stevy.Jobs.Select.{pick, ids, in_ids}
use stevy.Store.{Job}

module _ (test : Job → Bool) where
  any-filter :
      (rows : List Job)
      → All
          (λ r. (p : Job → Bool) → test r ≡ true → p r ≡ true → any p (filter test rows) ≡ true)
          rows
  any-filter [] = tt
  any-filter (r ∷ rows) = (
    (λ p t h. ground arith),
    All-map _ _ (λ x later p t h. let later' = later p t h in ground arith) rows (any-filter rows),
  )

  length-filter : (rows : List Job) → length (filter test rows) ≡ count test rows
  length-filter [] = refl
  length-filter (r ∷ rows) = ground (arith, length-filter rows)

in_ids-any : (r : Job) (xs : List Job) → in_ids (ids xs) r ≡ any (λ x. r.id == x.id) xs
unfolding in_ids ids
in_ids-any r [] = refl
in_ids-any r (x ∷ xs) = ground (arith, in_ids-any r xs)

-- If no more rows pass than the limit, each that passes is picked.
pub picks-All :
    (before : Job → Job → Bool) (test : Job → Bool) (limit : ℕ) (rows : List Job)
    → count test rows ≤ limit
    → All (λ r. test r ≡ true → in_ids (ids (pick before test limit rows)) r ≡ true) rows
unfolding pick
picks-All before test limit rows h =
    let sorted = sort before (filter test rows) in
    let whole =
      take-all limit sorted
        (omega (arith, length-sort before (filter test rows), length-filter test rows)) in
    All-map _ _
      (λ r f t.
        in_ids-any r (take limit sorted)
        ∙ (ap (any (λ x. r.id == x.id)) whole
            ∙ (any-sort before (λ x. r.id == x.id) (filter test rows)
                ∙ f (λ x. r.id == x.id) t (ground arith))))
      rows (any-filter test rows)
