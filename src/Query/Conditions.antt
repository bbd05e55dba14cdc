-- ===== src/Query/Conditions.antt =====
-- The WHERE clause as one statement with its parameters in place.
use latest_poseidon.Prelude.{
  ◌≡◌, refl, sym, ap, ap₂, ◌∙◌, String, str_eq, Bool, if◌then◌else◌, arith, ◌&&◌, not, Option, none,
  some, List, [], ◌∷◌, ◌++◌, append_assoc, append-nil, map, ok, >>=-eq-ok, ok-injective,
}
use latest_poseidon.Periods.Windows.{PeriodWindow}
use latest_poseidon.Query.Sql.{
  sql, placeholder, coalesced, comma, and_all, Clause, Param, text_param, date_param, RowScope,
  Entity, Filters, append_some, scope_condition, date_expr, placeholders_for, filter_conditions,
  is_member, is_volume_mode, guard, where_clause,
}
use latest_poseidon.Query.Rules.{require_scope_value}
use latest_poseidon.Query.Placeholders.{date_expr-placeholders}
use latest_poseidon.Query.Filled.{
  Pieces, text, bound, clause_of, params_of, between, plain, clauses_of, params_all,
  clause_of-append, params_of-append, clauses_of-append, params_all-append, clause_of-between,
  params_of-between, clause_of-plain, params_of-plain,
}

-- The date is from the period's start on and before its end.
abbrev pub in_period : Clause → PeriodWindow → Pieces
in_period date period =
    plain date
    ++ (text " >= "
        ∷ bound (date_param period.start)
        ∷ text " AND "
        ∷ (plain date ++ text " < " ∷ bound (date_param period.end) ∷ []))

abbrev values_of : List String → List Pieces
values_of values = map (λ v. bound (text_param v) ∷ []) values

-- A column has one of the values of its filter.
abbrev pub one_of : Entity → String × List String → Pieces
one_of entity (col, values) =
    text "COALESCE("
    ∷ text col
    ∷ text ", '"
    ∷ text entity.null_placeholder
    ∷ text "')"
    ∷ text " IN ("
    ∷ (between ", " (values_of values) ++ text ")" ∷ [])

-- The column of the scope is the caller's value.
abbrev pub in_scope : Option RowScope → Option String → List Pieces
in_scope (some scope) (some value) =
    (text scope.column ∷ text " = " ∷ bound (text_param value) ∷ []) ∷ []
in_scope _ _ = []

-- The guard of an entity whose rows mix two purposes: its text, where it has one and it applies.
abbrev pub kept_apart : Option String → Bool → List Pieces
kept_apart none applies = []
kept_apart (some exclusion) applies =
    if applies && not (str_eq exclusion "") then (text exclusion ∷ []) ∷ [] else []

-- All the conditions of a query: the period, every filter, the guard where it applies, and the scope.
abbrev pub all_of :
    Entity → Clause → List String → PeriodWindow → Filters → Option String → List Pieces
all_of entity date metrics period filters scope_value =
    in_period date period
    ∷ (map (one_of entity) filters
        ++ (kept_apart entity.dual_purpose_exclusion
              (is_member "MONETARY_TOTAL" metrics && not (is_volume_mode entity filters))
            ++ in_scope entity.row_scope scope_value))

kept_apart-clauses :
    (entity : Entity) (applies : Bool)
    → clauses_of (kept_apart entity.dual_purpose_exclusion applies) ≡ guard entity applies
unfolding guard
kept_apart-clauses entity applies = ground arith

kept_apart-params : (o : Option String) (applies : Bool) → params_all (kept_apart o applies) ≡ []
kept_apart-params none applies = refl
kept_apart-params (some exclusion) applies = ground arith

in_period-clause :
    (date : Clause) (period : PeriodWindow)
    → clause_of (plain date) ≡ date
    → clause_of (in_period date period)
      ≡ date ++ (sql " >= " ∷ placeholder ∷ sql " AND " ∷ (date ++ sql " < " ∷ placeholder ∷ []))
in_period-clause date period h =
    clause_of-append (plain date) _
    ∙ ap₂ (λ d e. d ++ (sql " >= " ∷ placeholder ∷ sql " AND " ∷ e)) h
        (clause_of-append (plain date) _ ∙ ap (λ d. d ++ sql " < " ∷ placeholder ∷ []) h)

in_period-params :
    (date : Clause) (period : PeriodWindow)
    → params_of (in_period date period) ≡ date_param period.start ∷ date_param period.end ∷ []
in_period-params date period =
    params_of-append (plain date) _
    ∙ ap₂ (λ d e. d ++ date_param period.start ∷ e) (params_of-plain date)
        (params_of-append (plain date) _
          ∙ ap (λ d. d ++ date_param period.end ∷ []) (params_of-plain date))

values_of-clauses :
    (values : List String) → clauses_of (values_of values) ≡ map (λ v. placeholder ∷ []) values
values_of-clauses [] = refl
values_of-clauses (v ∷ vs) = ap (λ l. (placeholder ∷ []) ∷ l) (values_of-clauses vs)

values_of-params : (values : List String) → params_all (values_of values) ≡ map text_param values
values_of-params [] = refl
values_of-params (v ∷ vs) = ap (λ l. text_param v ∷ l) (values_of-params vs)

in_list-clause :
    (values : List String)
    → clause_of (between ", " (values_of values) ++ text ")" ∷ [])
      ≡ placeholders_for values ++ sql ")" ∷ []
in_list-clause values =
    clause_of-append (between ", " (values_of values)) _
    ∙ ap (λ c. c ++ sql ")" ∷ []) (clause_of-between ", " (values_of values))
    ∙ ap (λ l. comma l ++ sql ")" ∷ []) (values_of-clauses values)

in_list-params :
    (values : List String)
    → params_of (between ", " (values_of values) ++ text ")" ∷ []) ≡ map text_param values
in_list-params values =
    params_of-append (between ", " (values_of values)) _
    ∙ append-nil _
    ∙ params_of-between ", " (values_of values)
    ∙ values_of-params values

filters-clauses :
    (entity : Entity) (filters : Filters) (params : List Param)
    → clauses_of (map (one_of entity) filters) ≡ (filter_conditions entity filters params).0
unfolding filter_conditions
filters-clauses entity [] params = refl
filters-clauses entity ((col, values) ∷ filters) params =
    ap₂ (λ c l. (coalesced entity col ++ (sql " IN (" ∷ c)) ∷ l) (in_list-clause values)
      (filters-clauses entity filters (params ++ map text_param values))

filters-params :
    (entity : Entity) (filters : Filters) (params : List Param)
    → params ++ params_all (map (one_of entity) filters)
      ≡ (filter_conditions entity filters params).1
unfolding filter_conditions
filters-params entity [] params = append-nil params
filters-params entity ((col, values) ∷ filters) params =
    ap (λ l. params ++ (l ++ params_all (map (one_of entity) filters))) (in_list-params values)
    ∙ sym (append_assoc params (map text_param values) _)
    ∙ filters-params entity filters (params ++ map text_param values)

pub scope-clauses :
    (scope : Option RowScope) (value : Option String) (params : List Param) (cs : List Clause)
    → require_scope_value scope value ≡ ok tt
    → cs ++ clauses_of (in_scope scope value)
      ≡ append_some cs (scope_condition scope value params).0
unfolding scope_condition require_scope_value
scope-clauses none none params cs h = append-nil cs
scope-clauses none (some v) params cs h = absurd (cc h)
scope-clauses (some s) none params cs h = absurd (cc h)
scope-clauses (some s) (some v) params cs h = refl

pub scope-params :
    (scope : Option RowScope) (value : Option String) (params : List Param)
    → require_scope_value scope value ≡ ok tt
    → params ++ params_all (in_scope scope value) ≡ (scope_condition scope value params).1
unfolding scope_condition require_scope_value
scope-params none none params h = append-nil params
scope-params none (some v) params h = absurd (cc h)
scope-params (some s) none params h = absurd (cc h)
scope-params (some s) (some v) params h = refl

-- What `_where_clause` returns is the conditions joined by AND, each with its parameters in place.
pub record IsWhere (entity : Entity) (dialect : String) (metrics : List String)
    (period : PeriodWindow) (filters : Filters) (scope_value : Option String)
    (r : Clause × List Param) : Type 0 where
  pub date : Clause
  pub is_date : date_expr entity dialect ≡ ok date
  pub clause :
      clause_of (between " AND " (all_of entity date metrics period filters scope_value)) ≡ r.0
  pub params :
      params_of (between " AND " (all_of entity date metrics period filters scope_value)) ≡ r.1

pub where_clause-IsWhere :
    (entity : Entity) (dialect : String) (metrics : List String) (period : PeriodWindow)
    (filters : Filters) (scope_value : Option String) {r : Clause × List Param}
    → require_scope_value entity.row_scope scope_value ≡ ok tt
    → where_clause entity dialect metrics period filters scope_value [] ≡ ok r
    → IsWhere entity dialect metrics period filters scope_value r
unfolding where_clause
where_clause-IsWhere entity dialect metrics period filters scope_value s h =
    let (date, hd, h1) = >>=-eq-ok (date_expr entity dialect) _ h in
    let applies = is_member "MONETARY_TOTAL" metrics && not (is_volume_mode entity filters) in
    let guarded = guard entity applies in
    let kept = kept_apart entity.dual_purpose_exclusion applies in
    let dates = date_param period.start ∷ date_param period.end ∷ [] in
    let one = map (one_of entity) filters in
    let scope = in_scope entity.row_scope scope_value in
    let dated =
      in_period-clause date period
        (clause_of-plain date (date_expr-placeholders entity dialect hd)) in
    record {
      date = date;
      is_date = hd;
      clause =
          clause_of-between " AND " (all_of entity date metrics period filters scope_value)
          ∙ ap₂ (λ d l. and_all (d ∷ l)) dated
              (clauses_of-append one _
                ∙ ap₂ (λ a b. a ++ b) (filters-clauses entity filters dates)
                    (clauses_of-append kept scope
                      ∙ ap (λ a. a ++ clauses_of scope) (kept_apart-clauses entity applies))
                ∙ sym (append_assoc (filter_conditions entity filters dates).0 guarded _))
          ∙ ap and_all (
              scope-clauses entity.row_scope scope_value (filter_conditions entity filters dates).1
                _ s)
          ∙ ap (λ x. x.0) (ok-injective h1);
      params =
          params_of-between " AND " (all_of entity date metrics period filters scope_value)
          ∙ ap₂ (λ d l. d ++ l) (in_period-params date period)
              (params_all-append one _
                ∙ ap (λ a. params_all one ++ a)
                    (params_all-append kept scope
                      ∙ ap (λ a. a ++ params_all scope)
                          (kept_apart-params entity.dual_purpose_exclusion applies)))
          ∙ ap (λ a. a ++ params_all scope) (filters-params entity filters dates)
          ∙ scope-params entity.row_scope scope_value _ s
          ∙ ap (λ x. x.1) (ok-injective h1);
    }
