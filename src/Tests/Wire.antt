-- ===== src/Tests/Wire.antt =====
-- A claim over the wire, the handlers of calls by id and the scheduler's ticks at concrete inputs.
use stevy.Base.{
  ◌+◌, ◌-◌, ◌*◌, ◌≤◌, ◌≡◌, refl, Bool, true, false, not, ◌==◌, Option, some, [], ◌∷◌, arith, none,
}
use stevy.Base.Sort.{sort}
use stevy.Base.Text.{Text, codes, text_discrete, text_eq}
use stevy.Auth.{intercept, check_token, is_worker_method}
use stevy.Auth.Sessions.{context_worker_id}
use stevy.Jobs.{
  find_row, update_rows, claim_row, where_claimable, is_running, is_pending, is_terminal,
  complete_row, promote_row, cancel_row,
}
use stevy.Jobs.Keys.{Distinct}
use stevy.Jobs.Select.{claims_before, pick, ids, in_ids}
use stevy.Keys.{lookup_worker_key, find_worker}
use stevy.Postgres.{scan_job_row, claim_job, lock_micros}
use stevy.Postgres.Contract.{pg_driver}
use stevy.Rpc.{Outcome, served, receive, claim_procedure, rpc, claim_rpc}
use stevy.Rpc.Claims.{IsCaller, caller, claim_rpc-Takes}
use stevy.Scheduler.{ticks}
use stevy.Scheduler.Drain.{IsCalm, overdue, due, ticks-overdue, ticks-due}
use stevy.Service.{reply}
use stevy.Postgres.Outcomes.{pg_driver-IsById}
use stevy.Service.Replies.{Replies, handlers-Replies}
use stevy.Service.Jobs.{complete_job, promote_job, cancel_job, JobMessage, row_to_proto}
use stevy.Statements.{is_paused, claim_jobs, touch_worker, update_returning}
use stevy.Statements.Claim.Call.{Takes}
use stevy.Store.{scheduled, Job, JobRow, Store}
use stevy.Tests.{no_fault, pg, waiting, tables, mail, mail-Distinct}
use stevy.Tests.Services.{hash, keyed, doubling}

abbrev header : Text
header = codes "Bearer stw_1"

abbrev not_empty : Text → Bool
not_empty queue = not (queue == [])

abbrev claimed : Outcome (Option (JobMessage Text)) × Store
claimed =
    claim_rpc hash no_fault header doubling (pg_driver pg) no_fault not_empty (some (codes "mail"))
      keyed

abbrev taken : JobRow
taken = scan_job_row (claim_row 1000 (1000 + 300000000) (codes "w1") (waiting (codes "01B") 1))

returned : claimed ≡ (served (reply (some (row_to_proto doubling (pg_driver pg) taken))), claimed.1)
unfolding claim_rpc rpc receive intercept check_token is_worker_method lookup_worker_key find_worker
    claim_job lock_micros claim_jobs touch_worker claim_row scan_job_row where_claimable
    claims_before update_returning find_row update_rows pick ids in_ids is_paused text_discrete sort
returned = refl

claim_rpc-Takes_example :
    (queue : Text) × (some (codes "mail") ≡ some queue)
    × (not_empty queue ≡ true)
    × IsCaller (
        caller doubling hash no_fault no_fault header pg not_empty
          (some (codes "mail"))
          keyed
          claimed.1
          mail-Distinct)
    × (r : Job) × Takes
        (λ _. false)
        1000
        (1000 + lock_micros pg)
        (context_worker_id (intercept hash no_fault claim_procedure header keyed).0)
        queue
        keyed
        claimed.1
        r
    × (row_to_proto doubling (pg_driver pg) taken
        ≡ row_to_proto doubling (pg_driver pg) (
            scan_job_row (
              claim_row 1000
                (1000 + lock_micros pg)
                (context_worker_id (intercept hash no_fault claim_procedure header keyed).0)
                r)))
claim_rpc-Takes_example =
    claim_rpc-Takes doubling hash no_fault no_fault header pg not_empty (some (codes "mail")) keyed
      claimed.1 mail-Distinct (row_to_proto doubling (pg_driver pg) taken) returned

calm : IsCalm 1000 no_fault
calm = (refl, (λ id. refl), omega arith)

ticks-overdue_example :
    overdue 1000 (ticks (pg_driver pg) ((no_fault, no_fault) ∷ (no_fault, no_fault) ∷ []) mail)
    ≤ overdue 1000 mail - 1000 * 2
ticks-overdue_example =
    ticks-overdue pg 1000 ((no_fault, no_fault) ∷ (no_fault, no_fault) ∷ []) mail mail-Distinct
      (calm, (calm, tt))

handlers-Replies_example :
    Replies none
      (codes "01R")
      is_running
      (complete_row 1000 (codes "{}"))
      mail
      (complete_job doubling (pg_driver pg) no_fault (codes "01R") (codes "{}") mail)
    × Replies none
        (codes "01R")
        is_pending
        (promote_row 1000)
        mail
        (promote_job doubling (pg_driver pg) no_fault (codes "01R") mail)
    × Replies none
        (codes "01R")
        (λ st. not (is_terminal st))
        (cancel_row 1000)
        mail
        (cancel_job doubling (pg_driver pg) no_fault (codes "01R") mail)
handlers-Replies_example =
    handlers-Replies doubling (pg_driver pg) (pg_driver-IsById pg) no_fault (codes "01R") mail
      mail-Distinct (codes "{}")

abbrev delayed : Store
delayed = tables (record (waiting (codes "01A") 1) { status = scheduled } ∷ [])

at_999 : IsCalm 999 no_fault
at_999 = (refl, (λ id. refl), omega arith)

delayed-Distinct : Distinct delayed.jobs
unfolding find_row
delayed-Distinct = (refl, tt)

ticks-due_example :
    due 999 (ticks (pg_driver pg) ((no_fault, no_fault) ∷ []) delayed) ≤ due 999 delayed - 1000 * 1
ticks-due_example =
    ticks-due pg 999 ((no_fault, no_fault) ∷ []) delayed delayed-Distinct
      ((at_999, omega arith), tt)
