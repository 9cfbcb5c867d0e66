-- ===== src/Jobs/Queries.antt =====
-- The SELECT statements on `jobs` and `queues` that both drivers have.
use stevy.Base.{
  ℕ, zero, suc, ◌^◌, Bool, true, ◌&&◌, List, [], ◌∷◌, filter, count, take, ltb, if◌then◌else◌, ◌==◌,
}
use stevy.Base.Sort.{sort}
use stevy.Base.Text.{Text, text_eq, text_lt}
use stevy.Store.{
  Status, pending, scheduled, available, running, retryable, cancelled, discarded, completed,
  status_text, Job, QueueEntry,
}
use stevy.Jobs.Select.{newer}

-- A condition that is left out where its argument is empty.
abbrev pub given : Text → Bool → Bool
given [] test = true
given (c ∷ s) test = test

-- `queue = ? AND status = ? AND id < ?`
unfoldable pub where_listed : Text → Text → Text → Job → Bool
where_listed queue status after r =
    given queue (r.queue == queue)
    && (given status (status_text r.status == status) && given after (text_lt r.id after))

-- `SELECT … FROM jobs WHERE … ORDER BY id DESC LIMIT ?`
unfoldable pub list_rows : Text → Text → Text → ℕ → List Job → List Job
list_rows queue status after limit rows =
    take limit (sort newer (filter (where_listed queue status after) rows))

abbrev pub all_statuses : List Status
all_statuses =
    pending ∷ scheduled ∷ available ∷ running ∷ retryable ∷ cancelled ∷ discarded ∷ completed ∷ []

-- A `map[string]int32`, one entry to a key.
abbrev pub Counts : Type 0
Counts = List (Text × ℕ)

unfoldable pub has_status : Text → Job → Bool
has_status name r = status_text r.status == name

-- A group that is empty has no row.
abbrev pub add_group : Text → ℕ → Counts → Counts
add_group name zero counts = counts
add_group name (suc n) counts = (name, suc n) ∷ counts

-- `SELECT status, COUNT(*) FROM jobs GROUP BY status`
unfoldable pub group_counts : List Status → List Job → Counts
unfolding has_status
group_counts [] rows = []
group_counts (s ∷ ss) rows =
    let rest = group_counts ss rows in
    add_group (status_text s) (count (has_status (status_text s)) rows) rest

-- Indexing the map: 0 for a missing key.
unfoldable pub count_of : Text → Counts → ℕ
count_of name [] = 0
count_of name ((key, n) ∷ rest) = let other = count_of name rest in if key == name then n else other

-- Every count can be scanned into an int32.
unfoldable pub fit_int32 : Counts → Bool
fit_int32 [] = true
fit_int32 ((key, n) ∷ rest) = ltb n (2 ^ 31) && fit_int32 rest

unfoldable pub in_queue : Text → Job → Bool
in_queue queue r = r.queue == queue

-- `ORDER BY q.name`
unfoldable pub name_before : QueueEntry → QueueEntry → Bool
name_before a b = text_lt a.name b.name
