-- ===== src/Query/Sql.antt =====
-- SQL as text with placeholders, the certified entities, and the conditions of a WHERE clause, each of
-- which appends what it binds to the parameters (backend/poseidon/core/data/query_builder.py).
use latest_poseidon.Prelude.{
  ℕ, String, str_eq, Bool, true, false, not, ◌&&◌, ◌||◌, Option, none, some, List, [], ◌∷◌, ◌++◌,
  map, lookup, Result, ok, err, ◌>>=◌, if◌then◌else◌,
}
use latest_poseidon.Calendar.{Date}
use latest_poseidon.Periods.Windows.{PeriodWindow}

-- A piece of a statement: certified text, or the placeholder `%s`.
pub data Fragment : Type 0 where
  sql : String → Fragment
  placeholder : Fragment

abbrev pub Clause : Type 0
Clause = List Fragment

-- What is bound to a placeholder; `absent` is `None`.
pub data Param : Type 0 where
  text_param : String → Param
  search_param : String → Param
  date_param : Date → Param
  number_param : ℕ → Param
  absent : Param

-- `Column`
pub record Column : Type 0 where
  pub name : String
  pub role : String
  pub type_name : String

-- `RowScope`
pub record RowScope : Type 0 where
  pub column : String
  pub claim : String

-- `Entity`, without the texts that the builder does not read. A metric is its name and its SQL.
pub record Entity : Type 0 where
  pub name : String
  pub fqn : String
  pub date_column : String
  pub columns : List Column
  pub metrics : List (String × String)
  pub hierarchy_levels : List String
  pub dual_purpose_exclusion : Option String
  pub dual_purpose_pivot_column : Option String
  pub dual_purpose_pivot_value : Option String
  pub null_placeholder : String
  pub row_scope : Option RowScope

-- The errors, by what their messages say.
pub data QueryError : Type 0 where
  unknown_metric not_a_dimension no_values repeated : String → QueryError
  unscoped unexpected_scope no_identity empty_claim : QueryError
  unknown_dialect missing_column : String → QueryError
  unit_mixed wrong_order_by bad_top_n bad_order wrong_group_by no_level ratio no_group_by
        many_buckets :
      QueryError

abbrev pub Filters : Type 0
Filters = List (String × List String)

abbrev pub joined : Clause → List Clause → Clause
joined separator [] = []
joined separator (c ∷ []) = c
joined separator (c ∷ d ∷ rest) = c ++ (separator ++ joined separator (d ∷ rest))

-- " AND ".join(conditions), ", ".join(...) and "\n".join(clauses)
abbrev pub and_all : List Clause → Clause
and_all conditions = joined (sql " AND " ∷ []) conditions

abbrev pub comma : List Clause → Clause
comma parts = joined (sql ", " ∷ []) parts

abbrev pub lines : List Clause → Clause
lines clauses = joined (sql "\n" ∷ []) clauses

-- `_scope_condition`
unfoldable pub scope_condition :
    Option RowScope → Option String → List Param → Option Clause × List Param
scope_condition none scope_value params = (none, params)
scope_condition (some scope) none params =
    (some (sql scope.column ∷ sql " = " ∷ placeholder ∷ []), params ++ absent ∷ [])
scope_condition (some scope) (some value) params =
    (some (sql scope.column ∷ sql " = " ∷ placeholder ∷ []), params ++ text_param value ∷ [])

-- if scope is not None: conditions.append(scope)
abbrev pub append_some : List Clause → Option Clause → List Clause
append_some conditions none = conditions
append_some conditions (some c) = conditions ++ c ∷ []

-- `_table_name`; `lower` is `str.lower`.
unfoldable pub table_name : (String → String) → Entity → String → Result QueryError Clause
table_name lower entity dialect =
    if str_eq dialect "postgres"
    then ok (sql "synthetic." ∷ sql (lower entity.name) ∷ [])
    else if str_eq dialect "snowflake"
    then ok (sql entity.fqn ∷ [])
    else err (unknown_dialect dialect)

abbrev pub find_column : String → List Column → Option Column
find_column name [] = none
find_column name (c ∷ cs) = if str_eq c.name name then some c else find_column name cs

abbrev pub typed_date : String → Option Column → Result QueryError Clause
typed_date name none = err (missing_column name)
typed_date name (some c) =
    if str_eq c.type_name "VARCHAR"
    then ok (sql "TO_DATE(" ∷ sql name ∷ sql ")" ∷ [])
    else ok (sql name ∷ [])

-- `_date_expr`
unfoldable pub date_expr : Entity → String → Result QueryError Clause
date_expr entity dialect =
    if str_eq dialect "snowflake"
    then typed_date entity.date_column (find_column entity.date_column entity.columns)
    else ok (sql entity.date_column ∷ [])

abbrev pub aliased : String → Option String → Result QueryError Clause
aliased name none = err (missing_column name)
aliased name (some metric) = ok (sql metric ∷ sql " AS \"" ∷ sql name ∷ sql "\"" ∷ [])

-- `_metric_expr`, of each metric in turn.
unfoldable pub metric_exprs : Entity → List String → Result QueryError (List Clause)
metric_exprs entity [] = ok []
metric_exprs entity (m ∷ ms) = do
  e ← aliased m (lookup m entity.metrics)
  es ← metric_exprs entity ms
  ok (e ∷ es)

-- ", ".join(["%s"] * len(values))
abbrev pub placeholders_for : List String → Clause
placeholders_for values = comma (map (λ v. placeholder ∷ []) values)

-- COALESCE(col, 'placeholder')
abbrev pub coalesced : Entity → String → Clause
coalesced entity col =
    sql "COALESCE(" ∷ sql col ∷ sql ", '" ∷ sql entity.null_placeholder ∷ sql "')" ∷ []

-- `_filter_conditions`
unfoldable pub filter_conditions : Entity → Filters → List Param → List Clause × List Param
filter_conditions entity [] params = ([], params)
filter_conditions entity ((col, values) ∷ filters) params =
    let rest = filter_conditions entity filters (params ++ map text_param values) in
    (
      (coalesced entity col ++ (sql " IN (" ∷ (placeholders_for values ++ sql ")" ∷ []))) ∷ rest.0,
      rest.1,
    )

abbrev pub is_member : String → List String → Bool
is_member x [] = false
is_member x (y ∷ ys) = str_eq y x || is_member x ys

abbrev pub all_equal : String → List String → Bool
all_equal x [] = true
all_equal x (y ∷ ys) = str_eq y x && all_equal x ys

-- set(values) == {pivot value}
abbrev pub pins : Option String → Option (List String) → Bool
pins (some value) (some (v ∷ vs)) = all_equal value (v ∷ vs)
pins _ _ = false

-- `_is_volume_mode`
unfoldable pub is_volume_mode : Entity → Filters → Bool
is_volume_mode entity filters = elim entity.dual_purpose_pivot_column [
  | none ↦ false
  | some column ↦ pins entity.dual_purpose_pivot_value (lookup column filters)
]

-- The dual-purpose guard, where it applies.
unfoldable pub guard : Entity → Bool → List Clause
guard entity applies = elim entity.dual_purpose_exclusion [
  | none ↦ []
  | some exclusion ↦ if applies && not (str_eq exclusion "") then (sql exclusion ∷ []) ∷ [] else []
]

-- `_where_clause`
unfoldable pub where_clause :
    Entity
    → String
    → List String
    → PeriodWindow
    → Filters
    → Option String
    → List Param
    → Result QueryError (Clause × List Param)
where_clause entity dialect metrics period filters scope_value params = do
  date ← date_expr entity dialect
  let dated =
      date ++ (sql " >= " ∷ placeholder ∷ sql " AND " ∷ (date ++ sql " < " ∷ placeholder ∷ []))
  let filtered =
      filter_conditions entity filters
        (params ++ date_param period.start ∷ date_param period.end ∷ [])
  let guarded =
      guard entity (is_member "MONETARY_TOTAL" metrics && not (is_volume_mode entity filters))
  let scope = scope_condition entity.row_scope scope_value filtered.1
  ok (and_all (append_some (dated ∷ (filtered.0 ++ guarded)) scope.0), scope.1)
