-- ===== src/Prelude/Dict.antt =====
-- Python's `dict` with text keys, as an association list without the order of insertion.
use Prim.Native.String.{String}
use mathlib.Core.Path.{◌≡◌, subst}
use mathlib.Core.Logic.{inl, inr}
use mathlib.Core.Option.{Option, none, some}
use mathlib.Core.List.{List, [], ◌∷◌}
use text.Mathlib.Text.{◌==◌}
use latest_poseidon.Prelude.Tests.{if◌then◌else◌, Bool-cases}
use latest_poseidon.Prelude.Lists.{All}

module _ {ℓ} {V : Type ℓ} where
  -- d.get(k)
  unfoldable pub lookup : String → List (String × V) → Option V
  lookup key [] = none
  lookup key (entry ∷ table) =
      let rest = lookup key table in if entry.0 == key then some entry.1 else rest

  -- A property of every value of a table is one of every value found in it.
  pub lookup-All {κ} :
      (P : V → Type κ) (k : String) {v : V} (m : List (String × V))
      → All (λ e. P e.1) m
      → lookup k m ≡ some v
      → P v
  unfolding lookup
  lookup-All P k [] h e = absurd (cc)
  lookup-All P k {v} ((j, w) ∷ m) h e = elim (Bool-cases (j == k)) [
    | inl t ↦ (let q : w ≡ v = cc (rw t at e) in subst P q h.0)
    | inr f ↦ lookup-All P k m h.1 (rw f at e)
  ]
