-- ===== src/Query/Placeholders.antt =====
-- The certified texts of a query have no placeholder.
use latest_poseidon.Prelude.{
  ℕ, ◌+◌, ◌≡◌, refl, subst, String, Option, none, some, List, [], ◌∷◌, ◌++◌, ok, >>=-eq-ok,
  ok-injective, lookup, arith,
}
use latest_poseidon.Query.Sql.{
  sql, placeholder, Clause, Entity, typed_date, date_expr, find_column, table_name, metric_exprs,
  aliased,
}
use latest_poseidon.Query.Builders.{small_sample}

-- The placeholders of a clause, and of clauses.
abbrev pub placeholders : Clause → ℕ
placeholders [] = 0
placeholders (sql s ∷ c) = placeholders c
placeholders (placeholder ∷ c) = 1 + placeholders c

abbrev pub placeholders_all : List Clause → ℕ
placeholders_all [] = 0
placeholders_all (c ∷ cs) = placeholders c + placeholders_all cs

pub placeholders-append : (c d : Clause) → placeholders (c ++ d) ≡ placeholders c + placeholders d
placeholders-append [] d = omega arith
placeholders-append (sql s ∷ c) d = placeholders-append c d
placeholders-append (placeholder ∷ c) d = omega (arith, placeholders-append c d)

pub placeholders_all-append :
    (cs ds : List Clause) → placeholders_all (cs ++ ds) ≡ placeholders_all cs + placeholders_all ds
placeholders_all-append [] ds = omega arith
placeholders_all-append (c ∷ cs) ds = omega (arith, placeholders_all-append cs ds)

typed_date-placeholders :
    (name : String) (o : _) {c : Clause} → typed_date name o ≡ ok c → placeholders c ≡ 0
typed_date-placeholders name none h = absurd (cc)
typed_date-placeholders name (some col) {c} h = ground (arith, h)

pub date_expr-placeholders :
    (entity : Entity) (dialect : String) {c : Clause}
    → date_expr entity dialect ≡ ok c
    → placeholders c ≡ 0
unfolding date_expr
date_expr-placeholders entity dialect h = ground (
  arith,
  h,
  typed_date-placeholders entity.date_column (find_column entity.date_column entity.columns),
)

pub table_name-placeholders :
    (lower : String → String) (entity : Entity) (dialect : String) {c : Clause}
    → table_name lower entity dialect ≡ ok c
    → placeholders c ≡ 0
unfolding table_name
table_name-placeholders lower entity dialect h = ground (arith, h)

aliased-placeholders :
    (name : String) (o : Option String) {c : Clause} → aliased name o ≡ ok c → placeholders c ≡ 0
aliased-placeholders name none h = absurd (cc h)
aliased-placeholders name (some m) {c} h = subst (λ x. placeholders x ≡ 0) (ok-injective h) refl

pub metric_exprs-placeholders :
    (entity : Entity) (metrics : List String) {cs : List Clause}
    → metric_exprs entity metrics ≡ ok cs
    → placeholders_all cs ≡ 0
unfolding metric_exprs
metric_exprs-placeholders entity [] h = subst (λ x. placeholders_all x ≡ 0) (ok-injective h) refl
metric_exprs-placeholders entity (m ∷ ms) h =
    let (e, he, h1) = >>=-eq-ok (aliased m (lookup m entity.metrics)) _ h in
    let (es, hes, h2) = >>=-eq-ok (metric_exprs entity ms) _ h1 in
    let none_here : placeholders_all (e ∷ es) ≡ 0 = omega (
      arith,
      aliased-placeholders m (lookup m entity.metrics) he,
      metric_exprs-placeholders entity ms hes,
    ) in
    subst (λ x. placeholders_all x ≡ 0) (ok-injective h2) none_here

pub small_sample-placeholders :
    (metrics : List String) → placeholders_all (small_sample metrics) ≡ 0
small_sample-placeholders metrics = ground arith
