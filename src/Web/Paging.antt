-- ===== src/Web/Paging.antt =====
-- Following the links of the jobs page, `?after=`, from the first page to the last.
use stevy.Base.{
  take-all, take-map, take-take-suc, length-map, length-take, length-drop, ℕ, zero, suc, ◌+◌, ◌<◌,
  ◌≤◌, ◌≡◌, refl, sym, subst, ◌∙◌, ap, inl, inr, ◌≢◌, Bool, true, false, Option, none, some, List,
  [], ◌∷◌, ◌++◌, map, take, drop, length, filter, All, ltb, arith, Bool-cases,
}
use mathlib.Core.List.{append_assoc}
use stevy.Base.Text.{Text, text_eq, text_lt, text_lt_irrefl}
use stevy.Http.{Response, answer}
use stevy.Jobs.Once.{Falling}
use stevy.Jobs.Order.{text_lt_asym}
use stevy.Postgres.{scan_job_row}
use stevy.Statements.{map_option}
use stevy.Store.{Job, JobRow}
use stevy.Web.Pages.{
  Page, jobs_page, Formats, JobListRow, list_row, last_id, shown, next_cursor_of, page_size,
}

-- The rows of a page of jobs, and the cursor of its link to the next.
abbrev pub view_of : Response Page → Option (List JobListRow × Text)
view_of (answer code (jobs_page p)) = some (p.jobs, p.next_cursor)
view_of _ = none

-- The rows of all pages from one on; none if there are more pages than the fuel, or one is no page of
-- jobs.
unfoldable pub follow :
    (Text → Option (List JobListRow × Text)) → ℕ → Text → Option (List JobListRow)
follow view zero after = none
follow view (suc fuel) after = elim (view after) [
  | none ↦ none
  | some (jobs, []) ↦ some jobs
  | some (jobs, c ∷ t) ↦ map_option (λ more. jobs ++ more) (follow view fuel (c ∷ t))
]

-- The id is below a cursor, if there is one.
abbrev pub below : Text → Job → Bool
below [] r = true
below (c ∷ t) r = text_lt r.id (c ∷ t)

below-cursor : (c : Text) (r : Job) → c ≢ [] → below c r ≡ text_lt r.id c
below-cursor [] r ne = absurd (ne refl)
below-cursor (c ∷ t) r ne = refl

filter-below :
    (l : Job) (rows : List Job)
    → l.id ≢ []
    → All (λ y. text_lt y.id l.id ≡ true) rows
    → filter (below l.id) rows ≡ rows
filter-below l [] ne h = refl
filter-below l (r ∷ rows) ne h =
    rw (below-cursor l.id r ne ∙ h.0) (ap (◌∷◌ r) (filter-below l rows ne h.1))

-- No row has an empty id.
abbrev pub IsNamed : Job → Type 0
IsNamed r = r.id ≢ []

All-middle :
    (P : Job → Type 0) (xs : List Job) (l : Job) (ys : List Job)
    → All P (xs ++ (l ∷ ys))
    → P l × All P ys
All-middle P [] l ys a = a
All-middle P (x ∷ xs) l ys a = All-middle P xs l ys a.1

-- In a falling list, what is below the id of a row is what stands behind it.
behind :
    (xs : List Job) (l : Job) (ys : List Job)
    → Falling (xs ++ (l ∷ ys))
    → l.id ≢ []
    → filter (below l.id) (xs ++ (l ∷ ys)) ≡ ys
behind [] l ys h ne = rw (below-cursor l.id l ne ∙ text_lt_irrefl l.id) (filter-below l ys ne h.0)
behind (x ∷ xs) l ys h ne =
    rw (below-cursor l.id x ne ∙ text_lt_asym l.id x.id (All-middle _ xs l ys h.0).0)
      (behind xs l ys h.1 ne)

-- The last row of a full page.
record IsCut (n : ℕ) (rows : List Job) : Type 0 where
  before : List Job
  last : Job
  whole : rows ≡ before ++ (last ∷ drop (suc n) rows)
  cursor : last_id (map scan_job_row (take (suc n) rows)) ≡ last.id

cut : (n : ℕ) (rows : List Job) → suc n ≤ length rows → IsCut n rows
unfolding scan_job_row
cut n [] h = absurd (omega arith)
cut zero (r ∷ rows) h = record { before = []; last = r; whole = refl; cursor = refl }
cut (suc n) (r ∷ []) h = absurd (omega arith)
cut (suc n) (r ∷ q ∷ rows) h =
    let rest = cut n (q ∷ rows) (omega arith) in
    record {
      before = r ∷ rest.before;
      last = rest.last;
      whole = ap (◌∷◌ r) rest.whole;
      cursor = rest.cursor;
    }

module _ (view : Text → Option (List JobListRow × Text)) (fuel : ℕ) (after : Text)
    (jobs : List JobListRow) where
  follow-end : view after ≡ some (jobs, []) → follow view (suc fuel) after ≡ some jobs
  unfolding follow
  follow-end h = rw (h, follow) refl

  follow-link :
      (cursor : Text)
      → cursor ≢ []
      → view after ≡ some (jobs, cursor)
      → follow view (suc fuel) after ≡ map_option (λ more. jobs ++ more) (follow view fuel cursor)
  unfolding follow
  follow-link [] ne h = absurd (ne refl)
  follow-link (c ∷ t) ne h = rw (h, follow) refl

-- The rows that a page's query returns: one more than a page.
abbrev pub fetched : List Job → List JobRow
fetched rows = map scan_job_row (take (page_size + 1) rows)

last_page :
    (rows : List Job)
    → length rows ≤ 50
    → (shown (fetched rows) ≡ map scan_job_row rows) × (next_cursor_of (fetched rows) ≡ [])
last_page rows h =
    let whole = take-all 51 rows (omega arith) in
    let short : ltb 50 (length (map scan_job_row rows)) ≡ false =
      ground (arith, length-map scan_job_row rows) in
    rw whole (rw short (refl, refl))

full_page :
    (rows : List Job)
    → 51 ≤ length rows
    → (shown (fetched rows) ≡ map scan_job_row (take 50 rows))
      × (next_cursor_of (fetched rows) ≡ last_id (map scan_job_row (take 50 rows)))
full_page rows h =
    let long : ltb 50 (length (fetched rows)) ≡ true =
      ground (arith, length-map scan_job_row (take 51 rows), length-take 51 rows h) in
    let cut_off : take 50 (fetched rows) ≡ map scan_job_row (take 50 rows) =
      take-map scan_job_row 50 (take 51 rows) ∙ ap (map scan_job_row) (take-take-suc 50 rows) in
    rw long (cut_off, ap last_id cut_off)

module _ (f : Formats) (view : Text → Option (List JobListRow × Text)) (rows : List Job)
    (falls : Falling rows)
    (views : (after : Text)
      → view after
        ≡ some (
          map (list_row f) (shown (fetched (filter (below after) rows))),
          next_cursor_of (fetched (filter (below after) rows)),
        )) where
  -- The rows of the page as it shows them.
  abbrev pub listed : List Job → List JobListRow
  listed js = map (list_row f) (map scan_job_row js)

  listed-split : (n : ℕ) (js : List Job) → listed (take n js) ++ listed (drop n js) ≡ listed js
  listed-split zero js = refl
  listed-split (suc n) [] = refl
  listed-split (suc n) (j ∷ js) = ap (◌∷◌ (list_row f (scan_job_row j))) (listed-split n js)

  -- From a page that shows the rest of the rows, the links visit that rest.
  pub follow-rest :
      (fuel : ℕ) (seen rest : List Job) (after : Text)
      → rows ≡ seen ++ rest
      → filter (below after) rows ≡ rest
      → All IsNamed rest
      → length rest < fuel
      → follow view fuel after ≡ some (listed rest)
  follow-rest zero seen rest after w h named l = absurd (omega arith)
  follow-rest (suc fuel) seen rest after w h named l = elim (Bool-cases (ltb 50 (length rest))) [
    | inr short ↦
        let page = last_page rest (ground arith) in
        follow-end view fuel after (listed rest) (views after ∙ rw h (rw page.0 (rw page.1 refl)))
    | inl long ↦
        let many : 51 ≤ length rest = ground arith in
        let page = full_page rest many in
        let c = cut 49 rest (omega arith) in
        let whole : rows ≡ (seen ++ c.before) ++ (c.last ∷ drop 50 rest) =
          w
          ∙ ap (λ js. seen ++ js) c.whole
          ∙ sym (append_assoc seen c.before (c.last ∷ drop 50 rest)) in
        let named' =
          All-middle IsNamed c.before c.last (drop 50 rest) (subst (All IsNamed) c.whole named) in
        let next =
          follow-rest fuel ((seen ++ c.before) ++ (c.last ∷ [])) (drop 50 rest) c.last.id
            (whole ∙ sym (append_assoc (seen ++ c.before) (c.last ∷ []) (drop 50 rest)))
            (ap (filter (below c.last.id)) whole
              ∙ behind (seen ++ c.before) c.last (drop 50 rest) (subst Falling whole falls)
                  named'.0)
            named'.1 (omega (arith, length-drop 50 rest)) in
        follow-link view fuel after (listed (take 50 rest)) c.last.id named'.0
          (views after ∙ rw h (rw page.0 (rw (page.1 ∙ c.cursor) refl)))
        ∙ rw next (ap some (listed-split 50 rest))
  ]
