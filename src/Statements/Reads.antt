-- ===== src/Statements/Reads.antt =====
-- The queries of the drivers as calls on the store. None of them changes it.
use stevy.Base.{
  ℕ, suc, Bool, false, Option, none, some, List, [], ◌∷◌, filter, map, is_some, if◌then◌else◌,
}
use stevy.Base.Sort.{sort}
use stevy.Base.Text.{Text, text_eq}
use stevy.Store.{
  status_text, Job, JobStatusRow, QueueEntry, Env, not_found, constraint, ok, err, M, pure, ◌>>=◌,
  exec,
}
use stevy.Jobs.{find_row, has_id}
use stevy.Jobs.Queries.{
  list_rows, Counts, all_statuses, group_counts, fit_int32, in_queue, name_before,
}
use stevy.Statements.{is_paused}

-- `QueueInfo` and `QueueSummary` of internal/service/driver.go.
pub record QueueInfo : Type 0 where
  pub counts_by_status : Counts
  pub paused : Bool

pub record QueueSummary : Type 0 where
  pub name : Text
  pub paused : Bool
  pub counts_by_status : Counts

-- `SELECT … FROM jobs WHERE id = ?`; no row is `ErrNotFound`.
unfoldable pub select_row : {A : Type 0} → (Job → A) → Text → M A
unfolding find_row has_id
select_row scan id s = elim (find_row (has_id id) s.jobs) [
  | none ↦ (err not_found, s)
  | some r ↦ (ok (scan r), s)
]

abbrev pub status_row : Job → JobStatusRow
status_row r = record {
  id = r.id;
  status = status_text r.status;
  progress = r.progress;
  errors = r.errors;
}

unfoldable pub select_rows : {A : Type 0} → (Job → A) → Text → Text → ℕ → Text → M (List A)
unfolding list_rows
select_rows scan queue status limit after s =
    (ok (map scan (list_rows queue status after limit s.jobs)), s)

-- Scanning the groups' rows; a count past int32 is an error.
unfoldable pub scan_counts : (Job → Bool) → M Counts
unfolding group_counts fit_int32
scan_counts test s =
    let counts = group_counts all_statuses (filter test s.jobs) in
    if fit_int32 counts then (ok counts, s) else (err constraint, s)

-- `SELECT paused_at FROM queues WHERE name = ?`, whose error is dropped.
unfoldable pub read_paused : Option Text → Text → M Bool
unfolding is_paused
read_paused none name s = (ok (is_paused name s.queues), s)
read_paused (some m) name s = (ok false, s)

unfoldable pub read_queues : M (List QueueEntry)
read_queues s = (ok (sort name_before s.queues), s)

-- One query for each queue, after the first.
unfoldable pub summaries : Env → ℕ → List QueueEntry → M (List QueueSummary)
unfolding scan_counts in_queue
summaries e k [] = pure []
summaries e k (q ∷ qs) = do
  counts ← exec (e.fault k) (scan_counts (in_queue q.name))
  rest ← summaries e (suc k) qs
  pure (record { name = q.name; paused = is_some q.paused_at; counts_by_status = counts } ∷ rest)
