-- ===== src/Query/Rules.antt =====
-- What backend/poseidon/core/data/query_builder.py refuses before it renders anything.
use latest_poseidon.Prelude.{
  String, str_eq, Bool, true, false, ◌&&◌, ◌||◌, Option, none, some, List, [], ◌∷◌, lookup, Result,
  ok, err, ◌>>◌, if◌then◌else◌,
}
use latest_poseidon.Query.Sql.{
  Column, RowScope, Entity, QueryError, unknown_metric, not_a_dimension, no_values, unscoped,
  unexpected_scope, no_identity, empty_claim, no_level, Filters,
}

abbrev pub require : Bool → QueryError → Result QueryError (Unit {0})
require true e = ok tt
require false e = err e

-- `_require_scope_value`
unfoldable pub require_scope_value : Option RowScope → Option String → Result QueryError (Unit {0})
require_scope_value none none = ok tt
require_scope_value none (some value) = err unexpected_scope
require_scope_value (some scope) none = err unscoped
require_scope_value (some scope) (some value) = ok tt

abbrev pub is_some {ℓ} : {A : Type ℓ} → Option A → Bool
is_some none = false
is_some (some a) = true

-- `_require_certified_metrics`
unfoldable pub require_certified_metrics : Entity → List String → Result QueryError (Unit {0})
require_certified_metrics entity [] = ok tt
require_certified_metrics entity (m ∷ ms) =
    require (is_some (lookup m entity.metrics)) (unknown_metric m)
    >> require_certified_metrics entity ms

abbrev pub has_dimension : String → List Column → Bool
has_dimension col [] = false
has_dimension col (c ∷ cs) =
    (str_eq c.name col && str_eq c.role "dimension") || has_dimension col cs

-- `_require_dimension`
unfoldable pub require_dimension : Entity → String → Result QueryError (Unit {0})
require_dimension entity col = require (has_dimension col entity.columns) (not_a_dimension col)

-- `_require_filter_values`
unfoldable pub require_filter_values : String → List String → Result QueryError (Unit {0})
require_filter_values col [] = err (no_values col)
require_filter_values col (v ∷ vs) = ok tt

-- `_validate_filters`
unfoldable pub validate_filters : Entity → Filters → Result QueryError (Unit {0})
validate_filters entity [] = ok tt
validate_filters entity ((col, values) ∷ filters) =
    require_dimension entity col
    >> (require_filter_values col values >> validate_filters entity filters)

-- `levels[pivot_index + 1]`, of the levels from the pivot on.
abbrev pub below : String → List String → Result QueryError String
below pivot [] = err no_level
below pivot (l ∷ []) = err no_level
below pivot (l ∷ m ∷ levels) = if str_eq l pivot then ok m else below pivot (m ∷ levels)

-- `_volume_mode_required_group_by`; both of its errors say that there is no level.
unfoldable pub volume_mode_required_group_by : Entity → Result QueryError String
volume_mode_required_group_by entity = elim entity.dual_purpose_pivot_column [
  | none ↦ err no_level
  | some pivot ↦ below pivot entity.hierarchy_levels
]

abbrev pub claimed : Option String → Result QueryError (Option String)
claimed none = err empty_claim
claimed (some value) = if str_eq value "" then err empty_claim else ok (some value)

-- `resolve_row_scope_value`; a user is the function from a claim to its value.
unfoldable pub resolve_row_scope_value :
    Option RowScope → Option (String → Option String) → Result QueryError (Option String)
resolve_row_scope_value none user = ok none
resolve_row_scope_value (some scope) none = err no_identity
resolve_row_scope_value (some scope) (some user) = claimed (user scope.claim)
