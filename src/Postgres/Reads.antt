-- ===== src/Postgres/Reads.antt =====
-- internal/service/driver_pg.go: the operations of `PGDriver` that only read.
use stevy.Base.{true, List, ℤ}
use stevy.Base.Text.{Text}
use stevy.Store.{JobRow, JobStatusRow, Env, M, pure, ◌>>=◌, exec}
use stevy.Jobs.Select.{limit_or}
use stevy.Jobs.Queries.{Counts, in_queue}
use stevy.Statements.Reads.{
  QueueInfo, QueueSummary, select_row, status_row, select_rows, scan_counts, read_paused,
  read_queues, summaries,
}
use stevy.Postgres.{scan_job_row}

unfoldable pub get_job : Env → Text → M JobRow
unfolding select_row scan_job_row
get_job e id = exec (e.fault 0) (select_row scan_job_row id)

unfoldable pub get_job_status : Env → Text → M JobStatusRow
unfolding select_row
get_job_status e id = exec (e.fault 0) (select_row status_row id)

unfoldable pub list_jobs : Env → Text → Text → ℤ → Text → M (List JobRow)
unfolding select_rows limit_or scan_job_row
list_jobs e queue status limit after =
    exec (e.fault 0) (select_rows scan_job_row queue status (limit_or 50 limit) after)

unfoldable pub job_counts_by_status : Env → M Counts
unfolding scan_counts
job_counts_by_status e = exec (e.fault 0) (scan_counts (λ _. true))

unfoldable pub queue_info : Env → Text → M QueueInfo
unfolding scan_counts in_queue read_paused
queue_info e name = do
  counts ← exec (e.fault 0) (scan_counts (in_queue name))
  paused ← read_paused (e.fault 1) name
  pure (record { counts_by_status = counts; paused = paused })

unfoldable pub list_queues : Env → M (List QueueSummary)
unfolding read_queues summaries
list_queues e = do entries ← exec (e.fault 0) read_queues; summaries e 1 entries
