-- ===== src/Service/Stats.antt =====
-- What `GetQueue` counts, over `PGDriver`.
use stevy.Base.{
  ℕ, zero, suc, ◌^◌, ◌≤◌, ◌<◌, ◌≡◌, refl, ◌∙◌, ap, Bool, true, ◌&&◌, none, List, [], ◌∷◌, any,
  count, count-le-length, filter, length, arith, if◌then◌else◌, ◌==◌,
}
use stevy.Base.Text.{Text, text_eq, text_discrete}
use stevy.Jobs.Queries.{
  Counts, add_group, all_statuses, count_of, fit_int32, group_counts, has_status, in_queue,
}
use stevy.Postgres.{Config}
use stevy.Postgres.Contract.{pg_driver}
use stevy.Postgres.Reads.{queue_info}
use stevy.Service.{reply}
use stevy.Service.Queues.{QueueStats, counts_to_stats, get_queue}
use stevy.Statements.{is_paused}
use stevy.Statements.Reads.{scan_counts, read_paused}
use stevy.Store.{
  Status, pending, scheduled, available, running, retryable, cancelled, discarded, completed,
  status_text, Job, Store, Env,
}

-- The jobs of a queue that have a status.
abbrev pub tally : Text → Status → List Job → ℕ
tally queue st rows = count (λ r. in_queue queue r && (status_text r.status == status_text st)) rows

-- The counts of a queue, found by counting the table's rows.
abbrev pub stats_of : Text → List Job → QueueStats
stats_of queue rows = record {
  pending = tally queue pending rows;
  scheduled = tally queue scheduled rows;
  available = tally queue available rows;
  running = tally queue running rows;
  retryable = tally queue retryable rows;
  cancelled = tally queue cancelled rows;
  discarded = tally queue discarded rows;
  completed = tally queue completed rows;
}

count_of-add_group :
    (name key : Text) (n m : ℕ) (rest : Counts) (listed : Bool)
    → count_of name rest ≡ (if listed then m else 0)
    → (key ≡ name → n ≡ m)
    → count_of name (add_group key n rest)
      ≡ (if (key == name) then m else (if listed then m else 0))
unfolding count_of
count_of-add_group name key zero m rest listed h same = ground arith
count_of-add_group name key (suc n) m rest listed h same = ground arith

count_of-group_counts :
    (name : Text) (ss : List Status) (rows : List Job)
    → count_of name (group_counts ss rows)
      ≡ (if any (λ s. status_text s == name) ss then count (has_status name) rows else 0)
unfolding count_of group_counts
count_of-group_counts name [] rows = refl
count_of-group_counts name (s ∷ ss) rows =
    count_of-add_group name (status_text s) (count (has_status (status_text s)) rows)
      (count (has_status name) rows) (group_counts ss rows) (any (λ s. status_text s == name) ss)
      (count_of-group_counts name ss rows) (λ e. ap (λ t. count (has_status t) rows) e)
    ∙ ground arith

count-filter :
    (queue : Text) (st : Status) (rows : List Job)
    → count (has_status (status_text st)) (filter (in_queue queue) rows) ≡ tally queue st rows
unfolding has_status
count-filter queue st [] = refl
count-filter queue st (r ∷ rows) = ground (arith, count-filter queue st rows)

length-filter_le : (test : Job → Bool) (rows : List Job) → length (filter test rows) ≤ length rows
length-filter_le test [] = omega arith
length-filter_le test (r ∷ rows) = ground (arith, length-filter_le test rows)

fit-add_group :
    (key : Text) (n : ℕ) (rest : Counts)
    → n < 2 ^ 31
    → fit_int32 rest ≡ true
    → fit_int32 (add_group key n rest) ≡ true
unfolding fit_int32
fit-add_group key zero rest h f = f
fit-add_group key (suc n) rest h f = ground arith

fit-group_counts :
    (ss : List Status) (rows : List Job)
    → length rows < 2 ^ 31
    → fit_int32 (group_counts ss rows) ≡ true
unfolding group_counts fit_int32
fit-group_counts [] rows h = refl
fit-group_counts (s ∷ ss) rows h =
    fit-add_group (status_text s) (count (has_status (status_text s)) rows) (group_counts ss rows)
      (omega (arith, count-le-length (has_status (status_text s)) rows))
      (fit-group_counts ss rows h)

counted :
    (queue : Text) (st : Status) (rows : List Job)
    → any (λ s. status_text s == status_text st) all_statuses ≡ true
    → count_of (status_text st) (group_counts all_statuses (filter (in_queue queue) rows))
      ≡ tally queue st rows
counted queue st rows h =
    count_of-group_counts (status_text st) all_statuses (filter (in_queue queue) rows)
    ∙ rw h (count-filter queue st rows)

counts_to_stats-group_counts :
    (queue : Text) (rows : List Job)
    → counts_to_stats (group_counts all_statuses (filter (in_queue queue) rows))
      ≡ stats_of queue rows
unfolding counts_to_stats status_text text_discrete
counts_to_stats-group_counts queue rows = rw (
  counted queue pending rows refl,
  counted queue scheduled rows refl,
  counted queue available rows refl,
  counted queue running rows refl,
  counted queue retryable rows refl,
  counted queue cancelled rows refl,
  counted queue discarded rows refl,
  counted queue completed rows refl,
)

module _ (cfg : Config) (e : Env) (name : Text) (s : Store) where
  -- If its two queries do not fail and there are fewer than 2^31 jobs, `GetQueue` answers with the
  -- queue's name, whether it is paused, and for each of the eight statuses the number of the queue's
  -- jobs that have it, and changes nothing.
  pub get_queue-stats :
      e.fault 0 ≡ none
      → e.fault 1 ≡ none
      → length s.jobs < 2 ^ 31
      → get_queue (pg_driver cfg) e name s ≡ (
        reply (record {
          name = name;
          paused = is_paused name s.queues;
          stats = stats_of name s.jobs;
        }),
        s,
      )
  unfolding get_queue queue_info scan_counts read_paused
  get_queue-stats first second few =
      let fits =
        fit-group_counts all_statuses (filter (in_queue name) s.jobs)
          (omega (arith, length-filter_le (in_queue name) s.jobs)) in
      rw (first, second, scan_counts)
        (rw (fits, scan_counts) (rw (counts_to_stats-group_counts name s.jobs) refl))
