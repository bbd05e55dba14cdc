-- ===== src/Query/Statements.antt =====
-- A statement of a builder as one text with its parameters in place.
use latest_poseidon.Prelude.{
  ◌≡◌, refl, ap, ap₂, ◌∙◌, String, Option, none, some, List, [], ◌∷◌, ◌++◌, ok,
}
use latest_poseidon.Query.Sql.{
  sql, Clause, Param, RowScope, Entity, comma, lines, table_name, date_expr, metric_exprs,
}
use latest_poseidon.Query.Rules.{require_scope_value}
use latest_poseidon.Query.Builders.{Query}
use latest_poseidon.Query.Filled.{
  Pieces, text, clause_of, params_of, between, plain, clauses_of, params_all, clause_of-between,
  params_of-between, params_of-plain,
}

-- An entity with a scope is given a value for it, and one without a scope is given none.
abbrev pub HasScopeValue : Option RowScope → Option String → Type 0
HasScopeValue none value = value ≡ none
HasScopeValue (some scope) value = (v : String) × (value ≡ some v)

pub require_scope_value-HasScopeValue :
    (scope : Option RowScope) (value : Option String)
    → require_scope_value scope value ≡ ok tt
    → HasScopeValue scope value
unfolding require_scope_value
require_scope_value-HasScopeValue none none h = refl
require_scope_value-HasScopeValue none (some v) h = absurd (cc h)
require_scope_value-HasScopeValue (some s) none h = absurd (cc h)
require_scope_value-HasScopeValue (some s) (some v) h = (v, refl)

-- A query that says what the pieces say of the certified texts of the date, the metrics and the table:
-- a placeholder for each value, and the values as the parameters, in their order.
pub record IsStatement (lower : String → String) (entity : Entity) (dialect : String)
    (metrics : List String) (scope_value : Option String)
    (pieces : Clause → List Clause → Clause → Pieces) (q : Query) : Type 0 where
  pub date : Clause
  pub is_date : date_expr entity dialect ≡ ok date
  pub select : List Clause
  pub is_select : metric_exprs entity metrics ≡ ok select
  pub table : Clause
  pub is_table : table_name lower entity dialect ≡ ok table
  pub has_scope : HasScopeValue entity.row_scope scope_value
  pub is_sql : q.0 ≡ clause_of (pieces date select table)
  pub is_params : q.1 ≡ params_of (pieces date select table)

-- SELECT ... FROM ... WHERE all of the conditions, and further lines.
abbrev select_lines : List Pieces → Clause → List Pieces → List Pieces → List Pieces
select_lines columns table conditions after =
    (text "SELECT " ∷ between ", " columns)
    ∷ (text "FROM " ∷ plain table)
    ∷ (text "WHERE " ∷ between " AND " conditions)
    ∷ after

abbrev pub select_from : List Pieces → Clause → List Pieces → List Pieces → Pieces
select_from columns table conditions after =
    between "\n" (select_lines columns table conditions after)

module _ (columns : List Pieces) (table : Clause) (conditions after : List Pieces) where
  pub select_from-clause :
      {columns' : List Clause} {w : Clause} {after' : List Clause}
      → clauses_of columns ≡ columns'
      → clause_of (plain table) ≡ table
      → clause_of (between " AND " conditions) ≡ w
      → clauses_of after ≡ after'
      → clause_of (select_from columns table conditions after)
        ≡ lines
            ((sql "SELECT " ∷ comma columns') ∷ (sql "FROM " ∷ table) ∷ (sql "WHERE " ∷ w) ∷ after')
  select_from-clause {columns'} {w} {after'} c t wh a =
      clause_of-between "\n" (select_lines columns table conditions after)
      ∙ ap₂ (λ x l. lines ((sql "SELECT " ∷ x) ∷ l)) (clause_of-between ", " columns ∙ ap comma c)
          (ap₂ (λ x l. (sql "FROM " ∷ x) ∷ l) t (ap₂ (λ x l. (sql "WHERE " ∷ x) ∷ l) wh a))

  pub select_from-params :
      {ps extra : List Param}
      → params_all columns ≡ []
      → params_of (between " AND " conditions) ≡ ps
      → params_all after ≡ extra
      → params_of (select_from columns table conditions after) ≡ ps ++ extra
  select_from-params {ps} {extra} c wh a =
      params_of-between "\n" (select_lines columns table conditions after)
      ∙ ap₂ (λ x l. x ++ l) (params_of-between ", " columns ∙ c)
          (ap₂ (λ x l. x ++ l) (params_of-plain table) (ap₂ (λ x l. x ++ l) wh a))
