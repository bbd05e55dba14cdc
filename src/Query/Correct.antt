-- ===== src/Query/Correct.antt =====
-- What each builder returns, when it returns.
use latest_poseidon.Prelude.{String, List, [], ◌∷◌, ◌++◌, map}
use latest_poseidon.Query.Sql.{Clause, number_param, Entity}
use latest_poseidon.Query.Builders.{
  Query, MetricQuerySpec, BreakdownQuerySpec, small_sample, upper, nulls_last,
}
use latest_poseidon.Query.Filled.{Pieces, text, bound, plain}
use latest_poseidon.Query.Conditions.{all_of}
use latest_poseidon.Query.Statements.{select_from}

-- The statement of a metric query: the metrics of the table where all the conditions hold.
abbrev pub metric_pieces : Entity → MetricQuerySpec → Clause → List Clause → Clause → Pieces
metric_pieces entity spec date select table =
    select_from (map plain select) table
      (all_of entity date spec.metrics spec.period spec.filters spec.scope_value)
      (map plain (small_sample spec.metrics))

-- The column that a breakdown groups by, with the placeholder of its missing values.
abbrev group_column : Entity → String → Pieces
group_column entity col =
    text "COALESCE("
    ∷ text col
    ∷ text ", '"
    ∷ text entity.null_placeholder
    ∷ text "')"
    ∷ text " AS "
    ∷ text col
    ∷ []

abbrev order_and_limit : BreakdownQuerySpec → String → List Pieces
order_and_limit spec dialect =
    (text "ORDER BY \""
      ∷ text spec.order_by_metric
      ∷ text "\" "
      ∷ text (upper spec.order)
      ∷ text (nulls_last dialect)
      ∷ [])
    ∷ (text "LIMIT " ∷ bound (number_param spec.top_n) ∷ [])
    ∷ []

-- What follows the conditions of a breakdown: the groups, the order and the limit.
abbrev ordered_groups : BreakdownQuerySpec → String → List Pieces
ordered_groups spec dialect =
    (text "GROUP BY 1" ∷ [])
    ∷ (map plain (small_sample spec.metrics) ++ order_and_limit spec dialect)

-- The statement of a breakdown.
abbrev pub breakdown_pieces :
    Entity → BreakdownQuerySpec → String → Clause → List Clause → Clause → Pieces
breakdown_pieces entity spec dialect date select table =
    select_from (group_column entity spec.group_by ∷ map plain select) table
      (all_of entity date spec.metrics spec.period spec.filters spec.scope_value)
      (ordered_groups spec dialect)
