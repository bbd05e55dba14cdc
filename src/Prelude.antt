-- ===== src/Prelude.antt =====
-- The names that the other modules share: the libraries', passed on, and those of the children.
mod Tests
mod Lists
mod Outcome
mod Dict
mod Sorting
mod Perms
mod Members
mod Sorted
mod Kept
mod Equal
pub use Tests.*
pub use Lists.*
pub use Outcome.*
unfoldable pub use Dict.{lookup}
pub use Dict.{lookup-All}
pub use Prim.Native.Nat.{ℕ, zero, suc, ◌+◌, ◌-◌, ◌*◌, ◌/◌, ◌%◌, ◌^◌, ◌≤◌, ◌<◌, min, max}
pub use Prim.Native.String.{String}
pub use mathlib.Core.Path.{◌≡◌, refl, sym, ap, ap₂, ◌∙◌, subst, fun_ext, ◌≡⟨◌⟩◌, ◌∎}
pub use mathlib.Core.Logic.{◌≢◌, ◌↔◌, ◌⊎◌, inl, inr}
pub use mathlib.Core.Bool.{Bool, true, false, not, ◌&&◌, ◌||◌}
pub use mathlib.Core.Option.{Option, none, some}
pub use mathlib.Core.List.{
  List, [], ◌∷◌, ◌++◌, map, reverse, reverse-append, append-nil, append_assoc,
}
pub use native.Mathlib.Omega.{arith}
pub use text.Mathlib.TextEquality.{eq_iff}
pub use text.Mathlib.Text.{◌==◌ as str_eq}
unfoldable pub use native.Mathlib.Decide.{dec_le, dec_lt, ℕ_discrete}
unfoldable pub use Sorting.{codes_le, insert_by, sort_by}
pub use Sorting.{
  codes, insert_by-All, sort_by-All, All-sort_by, LeadsAll, sort_by-LeadsAll, codes_le_total,
  codes_le_trans,
}
pub use mathlib.Core.List.{Permᴰ}
unfoldable pub use Perms.{keep}
pub use Perms.{keep-All, keep-passes, keep-Perm, sort_by-Perm, codes_le_antisym}
pub use mathlib.Core.List.{Memᴰ}
pub use Members.*
pub use Sorted.{IsSorted, IsBefore, sort_by-reorders, take-IsBefore-drop, sort_by-IsSorted}
pub use Kept.{keep-true, keep-false, keep-keep, keep-implied, insert_by-front, sort_by-keep}
pub use Equal.*
