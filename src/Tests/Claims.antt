-- ===== src/Tests/Claims.antt =====
-- Claims of jobs on PostgreSQL.
use stevy.Base.{◌+◌, ◌≡◌, refl, false, some, [], ◌∷◌}
use stevy.Base.Sort.{sort}
use stevy.Base.Text.{codes, text_discrete, text_eq}
use stevy.Store.{Job, Store, JobRow, ok}
use stevy.Jobs.{find_row, update_rows, claim_row, where_claimable}
use stevy.Jobs.Select.{claims_before, pick, ids, in_ids}
use stevy.Postgres.{scan_job_row, claim_job, lock_micros}
use stevy.Postgres.Claims.{claim_job-Takes}
use stevy.Postgres.Overlap.{holding, claim_job-overlap}
use stevy.Statements.{is_paused, claim_jobs, touch_worker, update_returning}
use stevy.Statements.Claim.Call.{Takes}
use stevy.Tests.{no_fault, pg, waiting, worked, tables, mail, mail-Distinct}

abbrev taken : JobRow
taken = scan_job_row (claim_row 1000 (1000 + 300000000) (codes "w") (waiting (codes "01B") 1))

abbrev mail_taken : Store
mail_taken = tables (
    waiting (codes "01A") 2
    ∷ claim_row 1000 (1000 + 300000000) (codes "w") (waiting (codes "01B") 1)
    ∷ worked (codes "01R")
    ∷ [])

first_claim : claim_job pg no_fault (codes "mail") (codes "w") mail ≡ (ok (some taken), mail_taken)
unfolding claim_job lock_micros claim_jobs touch_worker claim_row scan_job_row where_claimable
    claims_before update_returning find_row update_rows pick ids in_ids is_paused text_discrete sort
first_claim = refl

claim_job-Takes_example :
    (r : Job) × Takes
      (λ _. false)
      1000
      (1000 + lock_micros pg)
      (codes "w")
      (codes "mail")
      mail
      mail_taken
      r
    × (taken ≡ scan_job_row (claim_row 1000 (1000 + lock_micros pg) (codes "w") r))
claim_job-Takes_example =
    claim_job-Takes pg no_fault (codes "mail") (codes "w") mail mail_taken mail-Distinct taken
      first_claim

-- The other claim finds `01B` held and takes `01A`, which is what the first one leaves.
claim_job-overlap_example :
    (claim_job pg (holding taken.id no_fault) (codes "mail") (codes "v") mail).0
    ≡ (claim_job pg no_fault (codes "mail") (codes "v") mail_taken).0
claim_job-overlap_example =
    claim_job-overlap pg no_fault no_fault (codes "mail") (codes "mail") (codes "w") (codes "v")
      mail mail_taken taken mail-Distinct first_claim

abbrev second_taken : JobRow
second_taken =
    scan_job_row (claim_row 1000 (1000 + 300000000) (codes "v") (waiting (codes "01A") 2))

second_claim :
    (claim_job pg no_fault (codes "mail") (codes "v") mail_taken).0 ≡ ok (some second_taken)
unfolding claim_job lock_micros claim_jobs touch_worker claim_row scan_job_row where_claimable
    claims_before update_returning find_row update_rows pick ids in_ids is_paused text_discrete sort
second_claim = refl
