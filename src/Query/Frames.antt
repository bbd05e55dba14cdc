-- ===== src/Query/Frames.antt =====
-- `build_frame_query` of backend/poseidon/core/data/query_builder.py, on an entity that the loader has
-- found.
use latest_poseidon.Prelude.{
  ℕ, zero, suc, ◌+◌, ◌/◌, ◌%◌, String, str_eq, Bool, true, false, not, Option, none, some, List, [],
  ◌∷◌, ◌++◌, Result, ok, err, ◌>>=◌, ◌>>◌, leb, ltb, if◌then◌else◌,
}
use latest_poseidon.Periods.Windows.{PeriodWindow}
use latest_poseidon.Query.Sql.{
  sql, Clause, Entity, QueryError, repeated, ratio, no_group_by, many_buckets, unit_mixed, Filters,
  comma, lines, date_expr, metric_exprs, coalesced, table_name, is_member, is_volume_mode,
  where_clause,
}
use latest_poseidon.Query.Rules.{
  require, require_scope_value, require_certified_metrics, require_dimension, validate_filters,
}
use latest_poseidon.Query.Builders.{Query}
pub mod Correct

-- `FrameQuerySpec`
pub record FrameQuerySpec : Type 0 where
  pub metrics : List String
  pub period : PeriodWindow
  pub group_by : List String
  pub filters : Filters
  pub scope_value : Option String

-- `TIME_BUCKETS`
abbrev pub time_bucket : String → Option String
time_bucket col =
    if str_eq col "MONTH"
    then some "month"
    else if str_eq col "QUARTER"
    then some "quarter"
    else if str_eq col "YEAR"
    then some "year"
    else none

-- The loop over `seen`.
unfoldable pub require_distinct : List String → List String → Result QueryError (Unit {0})
require_distinct seen [] = ok tt
require_distinct seen (col ∷ cols) =
    require (not (is_member col seen)) (repeated col) >> require_distinct (col ∷ seen) cols

abbrev pub one_if_some : Option String → ℕ
one_if_some none = 0
one_if_some (some bucket) = 1

-- len(buckets)
unfoldable pub count_buckets : List String → ℕ
count_buckets [] = 0
count_buckets (col ∷ cols) = one_if_some (time_bucket col) + count_buckets cols

abbrev pub require_groupable : Entity → String → Option String → Result QueryError (Unit {0})
require_groupable entity col none = require_dimension entity col
require_groupable entity col (some bucket) = ok tt

-- The loop over the columns that are no time bucket.
unfoldable pub require_dimensions : Entity → List String → Result QueryError (Unit {0})
require_dimensions entity [] = ok tt
require_dimensions entity (col ∷ cols) =
    require_groupable entity col (time_bucket col) >> require_dimensions entity cols

abbrev pub projection : Entity → Clause → String → Option String → Clause
projection entity date col none = coalesced entity col ++ sql " AS " ∷ sql col ∷ []
projection entity date col (some bucket) =
    sql "CAST(DATE_TRUNC('"
    ∷ sql bucket
    ∷ sql "', "
    ∷ (date ++ sql ") AS DATE) AS \"" ∷ sql col ∷ sql "\"" ∷ [])

-- The loop over `group_by` that renders `projections`.
unfoldable pub projections : Entity → Clause → List String → List Clause
projections entity date [] = []
projections entity date (col ∷ cols) =
    projection entity date col (time_bucket col) ∷ projections entity date cols

abbrev pub digit : List String → ℕ → String
digit [] i = ""
digit (d ∷ ds) zero = d
digit (d ∷ ds) (suc i) = digit ds i

abbrev pub digits : List String
digits = "0" ∷ "1" ∷ "2" ∷ "3" ∷ "4" ∷ "5" ∷ "6" ∷ "7" ∷ "8" ∷ "9" ∷ []

-- `str(i)`: the decimal digits, of which there are fewer than `i + 1`.
unfoldable pub numeral : ℕ → ℕ → Clause
numeral zero i = []
numeral (suc fuel) i =
    let rest = numeral fuel (i / 10) in
    (if ltb i 10 then [] else rest) ++ sql (digit digits (i % 10)) ∷ []

-- str(i) for i in range(first, first + len(group_by))
unfoldable pub positions : ℕ → List String → List Clause
positions first [] = []
positions first (col ∷ cols) = numeral (suc first) first ∷ positions (suc first) cols

abbrev pub is_empty : List String → Bool
is_empty [] = true
is_empty (col ∷ cols) = false

-- `build_frame_query`
unfoldable pub build_frame_query :
    (String → String) → Entity → FrameQuerySpec → String → Result QueryError Query
build_frame_query lower entity spec dialect = do
  scoped ← require_scope_value entity.row_scope spec.scope_value
  certified ← require_certified_metrics entity spec.metrics
  additive ← require (not (is_member "WIN_RATE" spec.metrics)) ratio
  grouped ← require (not (is_empty spec.group_by)) no_group_by
  distinct ← require_distinct [] spec.group_by
  bucketed ← require (leb (count_buckets spec.group_by) 1) many_buckets
  dimensions ← require_dimensions entity spec.group_by
  filtered ← validate_filters entity spec.filters
  plain ← require (not (is_volume_mode entity spec.filters)) unit_mixed
  date ← date_expr entity dialect
  select ← metric_exprs entity spec.metrics
  (where_sql, params) ←
      where_clause entity dialect spec.metrics spec.period spec.filters spec.scope_value []
  table ← table_name lower entity dialect
  ok (
    lines (
        (sql "SELECT " ∷ comma (projections entity date spec.group_by ++ select))
        ∷ (sql "FROM " ∷ table)
        ∷ (sql "WHERE " ∷ where_sql)
        ∷ (sql "GROUP BY " ∷ comma (positions 1 spec.group_by))
        ∷ []),
    params,
  )
