-- ===== src/Service/Queues.antt =====
-- The handlers of `QueueService` in internal/service/queue.go.
use stevy.Base.{ℕ, Bool, List, map}
use stevy.Base.Text.{Text, codes}
use stevy.Driver.{Driver}
use stevy.Jobs.Queries.{Counts, count_of}
use stevy.Service.{Rpc, answer, ◌>>=◌, to_internal, call}
use stevy.Statements.Reads.{QueueSummary}
use stevy.Store.{Env}

pub record QueueStats : Type 0 where
  pub pending : ℕ
  pub scheduled : ℕ
  pub available : ℕ
  pub running : ℕ
  pub retryable : ℕ
  pub cancelled : ℕ
  pub discarded : ℕ
  pub completed : ℕ

pub record QueueMessage : Type 0 where
  pub name : Text
  pub paused : Bool
  pub stats : QueueStats

unfoldable pub counts_to_stats : Counts → QueueStats
unfolding count_of
counts_to_stats c = record {
  pending = count_of (codes "pending") c;
  scheduled = count_of (codes "scheduled") c;
  available = count_of (codes "available") c;
  running = count_of (codes "running") c;
  retryable = count_of (codes "retryable") c;
  cancelled = count_of (codes "cancelled") c;
  discarded = count_of (codes "discarded") c;
  completed = count_of (codes "completed") c;
}

abbrev pub summary_message : QueueSummary → QueueMessage
summary_message q = record {
  name = q.name;
  paused = q.paused;
  stats = counts_to_stats q.counts_by_status;
}

module _ (d : Driver) where
  unfoldable pub list_queues : Env → Rpc (List QueueMessage)
  unfolding counts_to_stats
  list_queues e = do
    summaries ← call to_internal (d.list_queues e)
    answer (map summary_message summaries)

  unfoldable pub get_queue : Env → Text → Rpc QueueMessage
  unfolding counts_to_stats
  get_queue e name = do
    info ← call to_internal (d.queue_info e name)
    answer (record {
      name = name;
      paused = info.paused;
      stats = counts_to_stats info.counts_by_status;
    })

  unfoldable pub pause_queue : Env → Text → Rpc (Unit {0})
  pause_queue e name = call to_internal (d.pause_queue e name)

  unfoldable pub resume_queue : Env → Text → Rpc (Unit {0})
  resume_queue e name = call to_internal (d.resume_queue e name)
