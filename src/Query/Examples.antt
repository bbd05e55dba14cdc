-- ===== src/Query/Examples.antt =====
-- The queries of a small scoped entity, and the builders' theorems at them.
use latest_poseidon.Prelude.{◌≡◌, refl, String, none, some, [], ◌∷◌, Result, ok, err, lookup}
use latest_poseidon.Periods.Windows.{PeriodWindow}
use latest_poseidon.Query.Sql.{
  Entity, QueryError, many_buckets, RowScope, metric_exprs, where_clause, date_expr, table_name,
  filter_conditions, guard, scope_condition, is_volume_mode,
}
use latest_poseidon.Query.Rules.{
  resolve_row_scope_value, require_scope_value, require_certified_metrics, require_dimension,
  require_filter_values, validate_filters,
}
use latest_poseidon.Query.Builders.{
  Query, MetricQuerySpec, BreakdownQuerySpec, build_dimension_values_query,
  build_period_range_query, build_months_query, refuse_volume_mode, check_volume_mode,
}
use latest_poseidon.Query.Frames.{
  FrameQuerySpec, build_frame_query, require_distinct, count_buckets,
}
use latest_poseidon.Query.Lookups.{IsLookup, build_dimension_values_query-IsLookup}
use latest_poseidon.Query.Callers.{IsCallers, resolve_row_scope_value-IsCallers}

abbrev owner_scope : RowScope
owner_scope = record { column = "OWNER"; claim = "email" }

abbrev sales : Entity
sales = record {
  name = "SALES";
  fqn = "DB.SALES";
  date_column = "DT";
  columns =
      record { name = "PORT"; role = "dimension"; type_name = "VARCHAR" }
      ∷ record { name = "OWNER"; role = "dimension"; type_name = "VARCHAR" }
      ∷ record { name = "DT"; role = "date"; type_name = "VARCHAR" }
      ∷ [];
  metrics = ("GP", "SUM(GP)") ∷ [];
  hierarchy_levels = [];
  dual_purpose_exclusion = none;
  dual_purpose_pivot_column = none;
  dual_purpose_pivot_value = none;
  null_placeholder = "Unknown";
  row_scope = some owner_scope;
}

abbrev lower : String → String
lower s = "sales"

abbrev may : PeriodWindow
may = record {
  start = record { year = 2025; month = 5; day = 1 };
  end = record { year = 2025; month = 6; day = 1 };
}

abbrev gp_spec : MetricQuerySpec
gp_spec = record {
  metrics = "GP" ∷ [];
  period = may;
  filters = ("PORT", "Antwerp" ∷ "Lagos" ∷ []) ∷ [];
  scope_value = some "ana@x";
}

abbrev top_spec : BreakdownQuerySpec
top_spec = record {
  metrics = "GP" ∷ [];
  period = may;
  group_by = "PORT";
  order_by_metric = "GP";
  top_n = 5;
  filters = [];
  scope_value = some "ana@x";
  order = "desc";
}

-- The query of a builder that returns.
abbrev query_of : Result QueryError Query → Query
query_of (ok q) = q
query_of (err e) = ([], [])

ports_built :
    build_dimension_values_query lower sales "PORT" (some "ant") "postgres" (some "ana@x")
    ≡ ok (
        query_of
          (build_dimension_values_query lower sales "PORT" (some "ant") "postgres" (some "ana@x")))
unfolding build_dimension_values_query require_scope_value require_certified_metrics
    require_dimension require_filter_values validate_filters is_volume_mode refuse_volume_mode
    check_volume_mode metric_exprs lookup where_clause date_expr table_name filter_conditions guard
    scope_condition
ports_built = refl

build_dimension_values_query-IsLookup_example :
    IsLookup lower sales "PORT" (some "ant") "postgres" (some "ana@x") (
      query_of
        (build_dimension_values_query lower sales "PORT" (some "ant") "postgres" (some "ana@x")))
build_dimension_values_query-IsLookup_example =
    build_dimension_values_query-IsLookup lower sales "PORT" (some "ant") "postgres" (some "ana@x")
      ports_built

range_built :
    build_period_range_query lower sales "snowflake" (some "ana@x")
    ≡ ok (query_of (build_period_range_query lower sales "snowflake" (some "ana@x")))
unfolding build_period_range_query require_scope_value require_certified_metrics require_dimension
    require_filter_values validate_filters is_volume_mode refuse_volume_mode check_volume_mode
    metric_exprs lookup where_clause date_expr table_name filter_conditions guard scope_condition
range_built = refl

months_built :
    build_months_query lower sales gp_spec.filters "postgres" (some "ana@x")
    ≡ ok (query_of (build_months_query lower sales gp_spec.filters "postgres" (some "ana@x")))
unfolding build_months_query require_scope_value require_certified_metrics require_dimension
    require_filter_values validate_filters is_volume_mode refuse_volume_mode check_volume_mode
    metric_exprs lookup where_clause date_expr table_name filter_conditions guard scope_condition
months_built = refl

resolved_ana :
    resolve_row_scope_value (some owner_scope) (some (λ claim. some "ana@x")) ≡ ok (some "ana@x")
unfolding resolve_row_scope_value
resolved_ana = refl

resolve_row_scope_value-IsCallers_example :
    IsCallers (some owner_scope) (some (λ claim. some "ana@x")) (some "ana@x")
    × (require_scope_value (some owner_scope) (some "ana@x") ≡ ok tt)
resolve_row_scope_value-IsCallers_example =
    resolve_row_scope_value-IsCallers (some owner_scope) (some (λ claim. some "ana@x")) resolved_ana

abbrev monthly_spec : FrameQuerySpec
monthly_spec = record {
  metrics = "GP" ∷ [];
  period = may;
  group_by = "PORT" ∷ "MONTH" ∷ [];
  filters = [];
  scope_value = some "ana@x";
}

two_months :
    build_frame_query lower sales
      (record {
        metrics = "GP" ∷ [];
        period = may;
        group_by = "YEAR" ∷ "MONTH" ∷ [];
        filters = [];
        scope_value = some "ana@x";
      })
      "postgres"
    ≡ err many_buckets
unfolding build_frame_query require_scope_value require_certified_metrics require_distinct
    count_buckets lookup
two_months = refl
