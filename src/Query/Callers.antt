-- ===== src/Query/Callers.antt =====
-- Where the scope's value comes from.
use latest_poseidon.Prelude.{
  ◌≡◌, ◌≢◌, refl, String, str_eq, eq_iff, Bool-cases, inl, inr, Option, none, some, ok,
}
use latest_poseidon.Query.Sql.{RowScope}
use latest_poseidon.Query.Rules.{claimed, resolve_row_scope_value, require_scope_value}

-- The value that a caller has for a scope: none where there is no scope, and otherwise what the
-- caller's own claim says, which is not empty.
abbrev pub IsCallers : Option RowScope → Option (String → Option String) → Option String → Type 0
IsCallers none user value = value ≡ none
IsCallers (some scope) none value = ⊥
IsCallers (some scope) (some user) none = ⊥
IsCallers (some scope) (some user) (some v) = (user scope.claim ≡ some v) × (v ≢ "")

claimed-some :
    (o : Option String) {value : Option String}
    → claimed o ≡ ok value
    → (v : String) × (value ≡ some v) × (o ≡ some v) × (v ≢ "")
claimed-some none h = absurd (cc h)
claimed-some (some v) {value} h = elim (Bool-cases (str_eq v "")) [
  | inl t ↦ absurd (cc (rw t at h))
  | inr f ↦ (v, cc (rw f at h), refl, λ e. cc ((eq_iff v "").1 e, f))
]

-- A value that is resolved for a caller is one that every builder accepts for the entity: none where
-- the entity has no scope, and otherwise the caller's own claim, which is not empty. Without an
-- identity nothing is resolved for a scoped entity.
pub resolve_row_scope_value-IsCallers :
    (scope : Option RowScope) (user : Option (String → Option String)) {value : Option String}
    → resolve_row_scope_value scope user ≡ ok value
    → IsCallers scope user value × (require_scope_value scope value ≡ ok tt)
unfolding resolve_row_scope_value require_scope_value
resolve_row_scope_value-IsCallers none user {value} h = let e : value ≡ none = cc h in (e, rw e)
resolve_row_scope_value-IsCallers (some scope) none h = absurd (cc h)
resolve_row_scope_value-IsCallers (some scope) (some user) {value} h =
    let (v, e, c, n) = claimed-some (user scope.claim) h in rw e ((c, n), refl)
