-- ===== src/Keys/Workers.antt =====
-- `ListWorkers` of internal/db/db.go: the workers with the e-mail of the user that made them.
use stevy.Base.{ℕ, Bool, Option, none, some, List, [], ◌∷◌, ltb, ◌==◌}
use stevy.Base.Sort.{sort}
use stevy.Base.Text.{Text, codes, text_eq}
use stevy.Keys.{find_user}
use stevy.Store.{User, Worker, Env, Error, failed, Result, ok, err, M, exec}

pub record WorkerSummary : Type 0 where
  pub id : Text
  pub name : Text
  pub created_by : Text
  pub created_at : ℕ
  pub last_seen_at : Option ℕ

-- `ORDER BY w.created_at DESC`
unfoldable pub later_worker : Worker → Worker → Bool
later_worker a b = ltb b.created_at a.created_at

-- `LEFT JOIN users u ON w.created_by = u.id`; none is NULL.
abbrev pub joined : List User → Option Text → Option User
joined users none = none
joined users (some creator) = find_user (λ u. u.id == creator) users

abbrev pub null_email : Error
null_email = failed (codes "converting NULL to string is unsupported")

-- Scanning a row: a NULL does not go into a Go string.
abbrev pub scan_worker : Worker → Option User → Result WorkerSummary
scan_worker w none = err null_email
scan_worker w (some u) = ok (record {
  id = w.id;
  name = w.name;
  created_by = u.email;
  created_at = w.created_at;
  last_seen_at = w.last_seen_at;
})

abbrev pub add_scanned :
    Result WorkerSummary → Result (List WorkerSummary) → Result (List WorkerSummary)
add_scanned (err e) rest = err e
add_scanned (ok w) (err e) = err e
add_scanned (ok w) (ok ws) = ok (w ∷ ws)

unfoldable pub scan_workers : List User → List Worker → Result (List WorkerSummary)
scan_workers users [] = ok []
scan_workers users (w ∷ ws) =
    let rest = scan_workers users ws in add_scanned (scan_worker w (joined users w.created_by)) rest

unfoldable pub list_workers : Env → M (List WorkerSummary)
unfolding later_worker scan_workers
list_workers e = exec (e.fault 0) λ s. (scan_workers s.users (sort later_worker s.workers), s)
