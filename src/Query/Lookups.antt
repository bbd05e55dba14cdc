-- ===== src/Query/Lookups.antt =====
-- The list of a dimension's values, as one text with its parameters in place.
use latest_poseidon.Prelude.{
  ◌≡◌, refl, sym, ap, ap₂, ◌∙◌, String, Option, none, some, List, [], ◌∷◌, ◌++◌, append-nil, ok,
  >>=-eq-ok, ok-injective,
}
use latest_poseidon.Query.Sql.{
  sql, Clause, search_param, Entity, and_all, lines, append_some, scope_condition, table_name,
}
use latest_poseidon.Query.Rules.{require_scope_value, require_dimension}
use latest_poseidon.Query.Builders.{Query, search_condition, build_dimension_values_query}
use latest_poseidon.Query.Placeholders.{table_name-placeholders}
use latest_poseidon.Query.Filled.{
  Pieces, text, bound, clause_of, params_of, between, plain, clauses_of, params_all,
  clauses_of-append, params_all-append, clause_of-between, params_of-between, clause_of-plain,
  params_of-plain,
}
use latest_poseidon.Query.Conditions.{in_scope, scope-clauses, scope-params}
use latest_poseidon.Query.Statements.{HasScopeValue, require_scope_value-HasScopeValue}

-- The search that a user types, where there is one.
abbrev pub matches : String → Option String → List Pieces
matches column none = []
matches column (some search) =
    (text column ∷ text " ILIKE " ∷ bound (search_param search) ∷ []) ∷ []

abbrev value_conditions : Entity → String → Option String → Option String → List Pieces
value_conditions entity column search scope_value =
    (text column ∷ text " IS NOT NULL" ∷ [])
    ∷ (matches column search ++ in_scope entity.row_scope scope_value)

abbrev value_lines : Entity → String → Option String → Option String → Clause → List Pieces
value_lines entity column search scope_value table =
    (text "SELECT DISTINCT " ∷ text column ∷ [])
    ∷ (text "FROM " ∷ plain table)
    ∷ (text "WHERE " ∷ between " AND " (value_conditions entity column search scope_value))
    ∷ (text "ORDER BY " ∷ text column ∷ [])
    ∷ []

-- The statement of a list of values.
pub record IsLookup (lower : String → String) (entity : Entity) (column : String)
    (search : Option String) (dialect : String) (scope_value : Option String) (q : Query)
    : Type 0 where
  pub table : Clause
  pub is_table : table_name lower entity dialect ≡ ok table
  pub has_scope : HasScopeValue entity.row_scope scope_value
  pub is_sql : q.0 ≡ clause_of (between "\n" (value_lines entity column search scope_value table))
  pub is_params :
      q.1 ≡ params_of (between "\n" (value_lines entity column search scope_value table))

matches-clauses :
    (column : String) (search : Option String)
    → clauses_of (matches column search) ≡ (search_condition column search).0
matches-clauses column none = refl
matches-clauses column (some s) = refl

matches-params :
    (column : String) (search : Option String)
    → params_all (matches column search) ≡ (search_condition column search).1
matches-params column none = refl
matches-params column (some s) = refl

module _ (entity : Entity) (column : String) (search scope_value : Option String)
    (scoped : require_scope_value entity.row_scope scope_value ≡ ok tt) where
  conditions-clause :
      clause_of (between " AND " (value_conditions entity column search scope_value))
      ≡ and_all (
          append_some
            ((sql column ∷ sql " IS NOT NULL" ∷ []) ∷ (search_condition column search).0)
            (scope_condition entity.row_scope scope_value (search_condition column search).1).0)
  conditions-clause =
      let scope = in_scope entity.row_scope scope_value in
      let c : Clause = sql column ∷ sql " IS NOT NULL" ∷ [] in
      clause_of-between " AND " (value_conditions entity column search scope_value)
      ∙ ap (λ l. and_all (c ∷ l))
          (clauses_of-append (matches column search) scope
            ∙ ap (λ l. l ++ clauses_of scope) (matches-clauses column search))
      ∙ ap and_all (
          scope-clauses entity.row_scope scope_value (search_condition column search).1
            (c ∷ (search_condition column search).0) scoped)

  conditions-params :
      params_of (between " AND " (value_conditions entity column search scope_value))
      ≡ (scope_condition entity.row_scope scope_value (search_condition column search).1).1
  conditions-params =
      let scope = in_scope entity.row_scope scope_value in
      params_of-between " AND " (value_conditions entity column search scope_value)
      ∙ params_all-append (matches column search) scope
      ∙ ap (λ l. l ++ params_all scope) (matches-params column search)
      ∙ scope-params entity.row_scope scope_value (search_condition column search).1 scoped

-- The list of a dimension's values that is built says, with each value bound to its own placeholder,
-- exactly this: the distinct values of the column in the entity's table that are not missing, AND that
-- match the search where there is one, AND where the column of the scope is the caller's value, which a
-- scoped entity always has; in their order.
pub build_dimension_values_query-IsLookup :
    (lower : String → String) (entity : Entity) (column : String) (search : Option String)
    (dialect : String) (scope_value : Option String) {q : Query}
    → build_dimension_values_query lower entity column search dialect scope_value ≡ ok q
    → IsLookup lower entity column search dialect scope_value q
unfolding build_dimension_values_query
build_dimension_values_query-IsLookup lower entity column search dialect scope_value {q} h =
    let (u, scoped, h1) = >>=-eq-ok (require_scope_value entity.row_scope scope_value) _ h in
    let (_, _, h2) = >>=-eq-ok (require_dimension entity column) _ h1 in
    let (table, ht, h3) = >>=-eq-ok (table_name lower entity dialect) _ h2 in
    let said = value_lines entity column search scope_value table in
    record {
      table = table;
      is_table = ht;
      has_scope = require_scope_value-HasScopeValue entity.row_scope scope_value scoped;
      is_sql =
          sym (ap (λ x. x.0) (ok-injective h3))
          ∙ sym (
              clause_of-between "\n" said
              ∙ ap₂
                  (λ t w. lines (
                    (sql "SELECT DISTINCT " ∷ sql column ∷ [])
                    ∷ (sql "FROM " ∷ t)
                    ∷ (sql "WHERE " ∷ w)
                    ∷ (sql "ORDER BY " ∷ sql column ∷ [])
                    ∷ []))
                  (clause_of-plain table (table_name-placeholders lower entity dialect ht))
                  (conditions-clause entity column search scope_value scoped));
      is_params =
          sym (ap (λ x. x.1) (ok-injective h3))
          ∙ sym (
              params_of-between "\n" said
              ∙ ap₂ (λ t w. t ++ (w ++ [])) (params_of-plain table)
                  (conditions-params entity column search scope_value scoped)
              ∙ append-nil _);
    }
