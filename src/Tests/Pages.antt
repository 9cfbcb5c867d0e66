-- ===== src/Tests/Pages.antt =====
-- The laws of the jobs page, of keys' deletion and of the settings at concrete inputs.
use stevy.Base.{◌≡◌, refl, ◌≢◌, ◌⊎◌, false, none, some, [], map, any, All, arith}
use stevy.Base.Text.{Text, codes, text_discrete}
use stevy.Base.Trim.{byte_eq}
use stevy.Cmd.{with_migrate, Outside, Backend}
use stevy.Keys.{delete_api_key, is_users_key}
use stevy.Keys.Deletion.{others_keys, delete_api_key-others}
use stevy.Postgres.{scan_job_row}
use stevy.Store.{User, ok}
use stevy.Tests.{no_fault, pg, mail, mail-Distinct, formats}
use stevy.Web.{current_user}
use stevy.Web.Pages.{list_row}
use stevy.Web.Paging.{follow, IsNamed}
use stevy.Web.Visits.{listed_jobs, page_after, follow-index}
use stevy.Dialect.{sqlite}
use stevy.Sqlite.Contract.{sqlite_driver}

abbrev same : Text → Text
same t = t

abbrev a : User
a = record {
  id = codes "u";
  google_id = codes "g";
  email = codes "a@b.c";
  name = codes "A";
  created_at = 0;
}

is_a : current_user same no_fault (some (codes "u.u")) mail ≡ (some a, mail)
unfolding current_user text_discrete
is_a = refl

named : All IsNamed mail.jobs
named = ((λ h. ground arith), ((λ h. ground arith), ((λ h. ground arith), tt)))

follow-index_example :
    follow
      (page_after formats same pg no_fault no_fault no_fault
        (codes "h")
        (codes "available")
        (some (codes "u.u"))
        mail
        a
        is_a
        refl)
      4
      []
    ≡ some (map (list_row formats) (map scan_job_row (listed_jobs (codes "available") mail)))
follow-index_example =
    follow-index formats same pg no_fault no_fault no_fault (codes "h") (codes "available")
      (some (codes "u.u")) mail a is_a refl mail-Distinct named

delete_api_key-others_example :
    let after = delete_api_key no_fault (codes "u") (codes "k") mail in
    (others_keys (codes "u") after.1.api_keys ≡ others_keys (codes "u") mail.api_keys)
    × (((after.0 ≡ ok tt) × (any (is_users_key (codes "k") (codes "u")) after.1.api_keys ≡ false))
        ⊎ ((after.0 ≢ ok tt) × (after.1.api_keys ≡ mail.api_keys)))
delete_api_key-others_example = delete_api_key-others no_fault (codes "u") (codes "k") mail

abbrev pub outside : Outside
outside = record {
  parse_duration = λ t. none;
  parse_flags = λ args. with_migrate false;
  open_pool = λ dsn. none;
  open_file = λ file. none;
  goose_up = λ dialect dir. none;
  entry = λ at msg. msg;
  json = λ t. some t;
  format_time = λ t. codes "t";
}

abbrev pub file_backend : Backend
file_backend = record {
  dialect = sqlite;
  driver =
      sqlite_driver
        (record { lock_duration = 30000000000; json = λ t. some t; format_time = λ t. codes "t" });
}
