-- ===== src/Jobs/Select.antt =====
-- `SELECT id FROM jobs WHERE … ORDER BY … LIMIT …`, as the claim and the scheduler's two statements
-- have it, and the test `id IN (…)` on its result.
use stevy.Base.{
  ℕ, Bool, true, false, Option, none, some, List, map, ltb, filter, take, any, ◌==◌, if◌then◌else◌,
  ℤ, pos, negsuc, suc, zero,
}
use stevy.Base.Sort.{sort}
use stevy.Base.Text.{Text, text_eq, text_lt}
use stevy.Store.{Job}

-- `ORDER BY priority ASC, scheduled_at ASC, id ASC`
unfoldable pub claims_before : Job → Job → Bool
claims_before a b =
    if ltb a.priority b.priority
    then true
    else if ltb b.priority a.priority
    then false
    else if ltb a.scheduled_at b.scheduled_at
    then true
    else if ltb b.scheduled_at a.scheduled_at
    then false
    else text_lt a.id b.id

-- `ORDER BY scheduled_at ASC`
unfoldable pub due_before : Job → Job → Bool
due_before a b = ltb a.scheduled_at b.scheduled_at

-- `ORDER BY lock_expires_at ASC`
abbrev pub lock_of : Option ℕ → ℕ
lock_of none = 0
lock_of (some t) = t

unfoldable pub lock_before : Job → Job → Bool
lock_before a b = ltb (lock_of a.lock_expires_at) (lock_of b.lock_expires_at)

-- `ORDER BY id DESC`
unfoldable pub newer : Job → Job → Bool
newer a b = text_lt b.id a.id

-- The rows that the query picks.
unfoldable pub pick : (Job → Job → Bool) → (Job → Bool) → ℕ → List Job → List Job
pick before test limit rows = take limit (sort before (filter test rows))

unfoldable pub ids : List Job → List Text
ids rows = map (λ r. r.id) rows

-- `id IN (…)`
unfoldable pub in_ids : List Text → Job → Bool
in_ids is r = any (λ i. r.id == i) is

-- A limit that is not positive gives way to a default.
unfoldable pub limit_or : ℕ → ℤ → ℕ
limit_or default (pos zero) = default
limit_or default (pos (suc n)) = suc n
limit_or default (negsuc n) = default
