-- ===== src/Statements/Claim.antt =====
-- Which job a claim takes, and what it does to the table.
pub mod Call
pub mod Sequence
use stevy.Base.{
  ℕ, ◌≡◌, refl, sym, ◌∙◌, ap, ◌⊎◌, inl, inr, Bool, true, false, ◌&&◌, not, Option, none, some, List,
  [], ◌∷◌, All, All-map, All-unfilter, filter-eq-nil, filter, take, arith, Bool-cases, subst,
  if◌then◌else◌, ◌==◌,
}
use mathlib.Core.Path.{fun_ext}
use stevy.Base.Sort.{sort, All-unsort, sort-eq-nil}
use stevy.Base.Sort.Order.{IsSorted, sort-IsSorted, head_least}
use stevy.Base.Text.{Text, text_eq}
use stevy.Jobs.{update_rows, find_row, has_id, claim_row, where_claimable}
use stevy.Jobs.Keys.{Distinct, find_row_self, All-pick, pick-holds}
use stevy.Jobs.Order.{claims_before-IsOrder}
use stevy.Jobs.Select.{claims_before, pick, ids, in_ids}
use stevy.Statements.{map_option, is_paused, update_returning, claim_jobs}
use stevy.Store.{Job, Store, Result, ok, err, M}

-- The first row, in the order of claims, that passes a test.
pub record IsFirst (test : Job → Bool) (rows : List Job) (r : Job) : Type 0 where
  pub found : find_row (has_id r.id) rows ≡ some r
  pub passes : test r ≡ true
  pub least : All (λ x. test x ≡ true → claims_before x r ≡ false) rows

module _ (test : Job → Bool) (rows : List Job) (d : Distinct rows) where
  pick_one :
      (xs : List Job)
      → sort claims_before (filter test rows) ≡ xs
      → pick claims_before test 1 rows ≡ take 1 xs
  unfolding pick
  pick_one xs e = ap (take 1) e

  picked-IsFirst :
      (r : Job) (rest : List Job)
      → sort claims_before (filter test rows) ≡ r ∷ rest
      → IsFirst test rows r
  picked-IsFirst r rest e =
      let one = pick_one (r ∷ rest) e in
      let ordered =
        subst (IsSorted claims_before) e
          (sort-IsSorted claims_before claims_before-IsOrder (filter test rows)) in
      let least =
        subst (All (λ x. claims_before x r ≡ false)) (sym e)
          (head_least claims_before claims_before-IsOrder r rest ordered) in
      record {
        found = (subst (All _) one (All-pick claims_before test 1 _ rows (find_row_self rows d))).0;
        passes = (subst (All _) one (pick-holds claims_before test 1 rows)).0;
        least = All-unfilter _ test rows (All-unsort claims_before _ (filter test rows) least);
      }

  -- The sorted rows, seen as their head and the rest.
  IsFirst-of_sorted :
      (xs : List Job)
      → sort claims_before (filter test rows) ≡ xs
      → ((pick claims_before test 1 rows ≡ []) × All (λ x. test x ≡ false) rows)
        ⊎ ((r : Job) × (pick claims_before test 1 rows ≡ r ∷ []) × IsFirst test rows r)
  IsFirst-of_sorted [] e =
      inl (pick_one [] e, filter-eq-nil test rows (sort-eq-nil claims_before (filter test rows) e))
  IsFirst-of_sorted (r ∷ rest) e = inr (r, pick_one (r ∷ rest) e, picked-IsFirst r rest e)

in_ids-one : (i : Text) → in_ids (i ∷ []) ≡ has_id i
unfolding in_ids has_id
in_ids-one i = fun_ext λ r. ground arith

update_rows-none :
    (change : Job → Job) (rows : List Job) → update_rows (in_ids []) change rows ≡ rows
unfolding update_rows in_ids
update_rows-none change [] = refl
update_rows-none change (r ∷ rs) = ap (◌∷◌ r) (update_rows-none change rs)

find_row-none : (rows : List Job) → find_row (in_ids []) rows ≡ none
unfolding find_row in_ids
find_row-none [] = refl
find_row-none (r ∷ rs) = find_row-none rs

-- The test of a claim: the row's queue, status and time, and that no other transaction holds it.
abbrev pub is_claimable : (Text → Bool) → ℕ → Text → Job → Bool
is_claimable is_locked now queue r = where_claimable queue now r && not (is_locked r.id)

-- What a claim comes to: a paused queue or one with nothing to claim is left as it is; otherwise the
-- first claimable row is claimed, and no other row changes.
pub data Claimed (is_locked : Text → Bool) (now lock : ℕ) (worker queue : Text) (s : Store)
    (o : Result (Option Job) × Store) : Type 0 where
  paused :
      is_paused queue s.queues ≡ true
      → o ≡ (ok none, s)
      → Claimed is_locked now lock worker queue s o
  idle :
      is_paused queue s.queues ≡ false
      → All (λ x. is_claimable is_locked now queue x ≡ false) s.jobs
      → o ≡ (ok none, s)
      → Claimed is_locked now lock worker queue s o
  taken :
      (r : Job)
      → is_paused queue s.queues ≡ false
      → IsFirst (is_claimable is_locked now queue) s.jobs r
      → o ≡ (
        ok (some (claim_row now lock worker r)),
        record s { jobs = update_rows (has_id r.id) (claim_row now lock worker) s.jobs },
      )
      → Claimed is_locked now lock worker queue s o

module _ (is_locked : Text → Bool) (now lock : ℕ) (worker queue : Text) (s : Store) where
  returned :
      (r : Job)
      → find_row (has_id r.id) s.jobs ≡ some r
      → update_returning (in_ids (r.id ∷ [])) (claim_row now lock worker) s ≡ (
        ok (some (claim_row now lock worker r)),
        record s { jobs = update_rows (has_id r.id) (claim_row now lock worker) s.jobs },
      )
  unfolding update_returning
  returned r f = rw (in_ids-one r.id) (rw f)

  returned_none : update_returning (in_ids []) (claim_row now lock worker) s ≡ (ok none, s)
  unfolding update_returning
  returned_none = rw (find_row-none s.jobs, update_rows-none (claim_row now lock worker) s.jobs)

  claim_unpaused :
      is_paused queue s.queues ≡ false
      → claim_jobs is_locked now lock worker queue s
        ≡ update_returning
            (in_ids (ids (pick claims_before (is_claimable is_locked now queue) 1 s.jobs)))
            (claim_row now lock worker)
            s
  unfolding claim_jobs
  claim_unpaused e = rw e

  -- The claim by the sorted list of the rows that it can take.
  abbrev pub taken_first : List Job → Result (Option Job) × Store
  taken_first [] = (ok none, s)
  taken_first (r ∷ rest) = (
    ok (some (claim_row now lock worker r)),
    record s { jobs = update_rows (has_id r.id) (claim_row now lock worker) s.jobs },
  )

  pub claim_jobs-taken_first :
      Distinct s.jobs
      → is_paused queue s.queues ≡ false
      → (xs : List Job) → sort claims_before (filter (is_claimable is_locked now queue) s.jobs) ≡ xs
      → claim_jobs is_locked now lock worker queue s ≡ taken_first xs
  unfolding ids
  claim_jobs-taken_first d u [] e =
      claim_unpaused u
      ∙ rw (pick_one (is_claimable is_locked now queue) s.jobs d [] e) returned_none
  claim_jobs-taken_first d u (r ∷ rest) e =
      let first = picked-IsFirst (is_claimable is_locked now queue) s.jobs d r rest e in
      claim_unpaused u
      ∙ rw (pick_one (is_claimable is_locked now queue) s.jobs d (r ∷ rest) e)
          (returned r first.found)

  pub claim_jobs-Claimed :
      Distinct s.jobs
      → Claimed is_locked now lock worker queue s (claim_jobs is_locked now lock worker queue s)
  unfolding ids
  claim_jobs-Claimed d = elim (Bool-cases (is_paused queue s.queues)) [
    | inl e ↦ paused e (unfold claim_jobs in rw e)
    | inr e ↦ elim (IsFirst-of_sorted (is_claimable is_locked now queue) s.jobs d _ refl) [
      | inl (empty, nothing) ↦ idle e nothing (claim_unpaused e ∙ rw empty returned_none)
      | inr (r, one, first) ↦ taken r e first (claim_unpaused e ∙ rw one (returned r first.found))
    ]
  ]
