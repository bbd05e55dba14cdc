-- ===== src/Query/Builders.antt =====
-- The builders of backend/poseidon/core/data/query_builder.py, on an entity that the loader has found.
use latest_poseidon.Prelude.{
  ℕ, String, str_eq, Bool, true, false, ◌||◌, Option, none, some, List, [], ◌∷◌, ◌++◌, Result, ok,
  err, ◌>>=◌, leb, if◌then◌else◌,
}
use latest_poseidon.Periods.Windows.{PeriodWindow}
use latest_poseidon.Query.Sql.{
  sql, placeholder, Clause, Param, search_param, number_param, Entity, QueryError, wrong_order_by,
  bad_top_n, bad_order, wrong_group_by, unit_mixed, Filters, and_all, comma, lines, append_some,
  scope_condition, table_name, date_expr, metric_exprs, filter_conditions, coalesced, is_member,
  is_volume_mode, guard, where_clause,
}
use latest_poseidon.Query.Rules.{
  require, require_scope_value, require_certified_metrics, require_dimension, validate_filters,
  volume_mode_required_group_by,
}

-- `MetricQuerySpec`
pub record MetricQuerySpec : Type 0 where
  pub metrics : List String
  pub period : PeriodWindow
  pub filters : Filters
  pub scope_value : Option String

-- `BreakdownQuerySpec`
pub record BreakdownQuerySpec : Type 0 where
  pub metrics : List String
  pub period : PeriodWindow
  pub group_by : String
  pub order_by_metric : String
  pub top_n : ℕ
  pub filters : Filters
  pub scope_value : Option String
  pub order : String

-- A statement and its parameters.
abbrev pub Query : Type 0
Query = Clause × List Param

-- HAVING SUM("#_INQUIRIES") >= 5
abbrev pub small_sample : List String → List Clause
small_sample metrics =
    if is_member "WIN_RATE" metrics then (sql "HAVING SUM(\"#_INQUIRIES\") >= 5" ∷ []) ∷ [] else []

-- Volume mode has no plain aggregate.
unfoldable pub refuse_volume_mode : Entity → Bool → Result QueryError (Unit {0})
refuse_volume_mode entity false = ok tt
refuse_volume_mode entity true = do required ← volume_mode_required_group_by entity; err unit_mixed

-- Volume mode groups by the level below the pivot.
unfoldable pub check_volume_mode : Entity → Bool → String → Result QueryError (Unit {0})
check_volume_mode entity false group_by = ok tt
check_volume_mode entity true group_by = do
  required ← volume_mode_required_group_by entity
  require (str_eq group_by required) wrong_group_by

abbrev pub nulls_last : String → String
nulls_last dialect = if str_eq dialect "postgres" then " NULLS LAST" else ""

abbrev pub upper : String → String
upper order = if str_eq order "desc" then "DESC" else "ASC"

-- conditions.append(f"{column} ILIKE %s"), with its parameter.
abbrev pub search_condition : String → Option String → List Clause × List Param
search_condition column none = ([], [])
search_condition column (some search) =
    ((sql column ∷ sql " ILIKE " ∷ placeholder ∷ []) ∷ [], search_param search ∷ [])

-- A WHERE clause, where there is a condition.
abbrev pub where_if : List Clause → List Clause
where_if [] = []
where_if (c ∷ conditions) = (sql "WHERE " ∷ and_all (c ∷ conditions)) ∷ []

module _ (lower : String → String) (entity : Entity) where
  -- `build_metric_query`
  unfoldable pub build_metric_query : MetricQuerySpec → String → Result QueryError Query
  build_metric_query spec dialect = do
    scoped ← require_scope_value entity.row_scope spec.scope_value
    certified ← require_certified_metrics entity spec.metrics
    filtered ← validate_filters entity spec.filters
    plain ← refuse_volume_mode entity (is_volume_mode entity spec.filters)
    select ← metric_exprs entity spec.metrics
    (where_sql, params) ←
        where_clause entity dialect spec.metrics spec.period spec.filters spec.scope_value []
    table ← table_name lower entity dialect
    ok (
      lines (
          (sql "SELECT " ∷ comma select)
          ∷ (sql "FROM " ∷ table)
          ∷ (sql "WHERE " ∷ where_sql)
          ∷ small_sample spec.metrics),
      params,
    )

  -- `build_breakdown_query`
  unfoldable pub build_breakdown_query : BreakdownQuerySpec → String → Result QueryError Query
  build_breakdown_query spec dialect = do
    scoped ← require_scope_value entity.row_scope spec.scope_value
    certified ← require_certified_metrics entity spec.metrics
    grouped ← require_dimension entity spec.group_by
    filtered ← validate_filters entity spec.filters
    ordered ← require (is_member spec.order_by_metric spec.metrics) wrong_order_by
    counted ← require (leb 1 spec.top_n) bad_top_n
    directed ← require (str_eq spec.order "desc" || str_eq spec.order "asc") bad_order
    united ← check_volume_mode entity (is_volume_mode entity spec.filters) spec.group_by
    select ← metric_exprs entity spec.metrics
    (where_sql, params) ←
        where_clause entity dialect spec.metrics spec.period spec.filters spec.scope_value []
    table ← table_name lower entity dialect
    ok (
      lines (
          (sql "SELECT "
            ∷ comma
                ((coalesced entity spec.group_by ++ sql " AS " ∷ sql spec.group_by ∷ []) ∷ select))
          ∷ (sql "FROM " ∷ table)
          ∷ (sql "WHERE " ∷ where_sql)
          ∷ (sql "GROUP BY 1" ∷ [])
          ∷ (small_sample spec.metrics
              ++ (sql "ORDER BY \""
                  ∷ sql spec.order_by_metric
                  ∷ sql "\" "
                  ∷ sql (upper spec.order)
                  ∷ sql (nulls_last dialect)
                  ∷ [])
                ∷ (sql "LIMIT " ∷ placeholder ∷ [])
                ∷ [])),
      params ++ number_param spec.top_n ∷ [],
    )

  -- `build_dimension_values_query`
  unfoldable pub build_dimension_values_query :
      String → Option String → String → Option String → Result QueryError Query
  build_dimension_values_query column search dialect scope_value = do
    scoped ← require_scope_value entity.row_scope scope_value
    certified ← require_dimension entity column
    let searched = search_condition column search
    let scope = scope_condition entity.row_scope scope_value searched.1
    table ← table_name lower entity dialect
    ok (
      lines (
          (sql "SELECT DISTINCT " ∷ sql column ∷ [])
          ∷ (sql "FROM " ∷ table)
          ∷ (sql "WHERE "
              ∷ and_all (append_some ((sql column ∷ sql " IS NOT NULL" ∷ []) ∷ searched.0) scope.0))
          ∷ (sql "ORDER BY " ∷ sql column ∷ [])
          ∷ []),
      scope.1,
    )

  -- `build_period_range_query`
  unfoldable pub build_period_range_query : String → Option String → Result QueryError Query
  build_period_range_query dialect scope_value = do
    scoped ← require_scope_value entity.row_scope scope_value
    date ← date_expr entity dialect
    table ← table_name lower entity dialect
    let scope = scope_condition entity.row_scope scope_value []
    ok (
      lines (
          (sql "SELECT MIN("
            ∷ (date ++ sql ") AS \"MIN_DATE\", MAX(" ∷ (date ++ sql ") AS \"MAX_DATE\"" ∷ [])))
          ∷ (sql "FROM " ∷ table)
          ∷ where_if (append_some [] scope.0)),
      scope.1,
    )

  -- `build_months_query`
  unfoldable pub build_months_query : Filters → String → Option String → Result QueryError Query
  build_months_query filters dialect scope_value = do
    scoped ← require_scope_value entity.row_scope scope_value
    valid ← validate_filters entity filters
    date ← date_expr entity dialect
    let filtered = filter_conditions entity filters []
    let scope = scope_condition entity.row_scope scope_value filtered.1
    table ← table_name lower entity dialect
    ok (
      lines (
          (sql "SELECT DISTINCT CAST(DATE_TRUNC('month', "
            ∷ (date ++ sql ") AS DATE) AS \"MONTH\"" ∷ []))
          ∷ (sql "FROM " ∷ table)
          ∷ (where_if (append_some (filtered.0 ++ guard entity true) scope.0)
              ++ (sql "ORDER BY 1" ∷ []) ∷ [])),
      scope.1,
    )
