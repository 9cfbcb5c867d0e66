-- ===== src/Dialect.antt =====
-- internal/dialect/dialect.go: the database that a connection URL names, and the placeholders of a
-- query. The decimal text of a number is a parameter.
pub mod Placeholders
use stevy.Base.{
  ℕ, suc, ◌+◌, Bool, true, false, ◌||◌, Option, none, some, List, [], ◌∷◌, ◌++◌, drop, length,
  if◌then◌else◌, ◌==◌,
}
use stevy.Base.Text.{Text, codes, has_prefix, text_eq}
use stevy.Base.Utf8.{runes}

pub data Dialect : Type 0 where
  postgres sqlite : Dialect

-- `none` is the error "unknown database dialect".
unfoldable pub from_dsn : Text → Option Dialect
from_dsn dsn =
    if has_prefix dsn (codes "postgres://") || has_prefix dsn (codes "postgresql://")
    then some postgres
    else if has_prefix dsn (codes "sqlite://")
        || (has_prefix dsn (codes "sqlite3://") || has_prefix dsn (codes "file:"))
    then some sqlite
    else none

-- The loop of `Q` over the rest of the query's runes, from placeholder `n` on.
unfoldable pub number_from : (ℕ → Text) → ℕ → List Text → Text
number_from decimal n [] = []
number_from decimal n (r ∷ rest) =
    let placed = number_from decimal (suc n) rest in
    let kept = number_from decimal n rest in
    if r == codes "?" then (b'$' ∷ decimal n) ++ placed else r ++ kept

unfoldable pub q : (ℕ → Text) → Dialect → Text → Text
unfolding number_from runes
q decimal sqlite query = query
q decimal postgres query = number_from decimal 1 (runes query)

unfoldable pub strip_sqlite_prefix : Text → Text
strip_sqlite_prefix dsn =
    if has_prefix dsn (codes "sqlite://")
    then drop (length (codes "sqlite://")) dsn
    else if has_prefix dsn (codes "sqlite3://")
    then drop (length (codes "sqlite3://")) dsn
    else dsn
