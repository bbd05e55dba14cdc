-- ===== src/Prelude/Equal.antt =====
-- A text, a number and a test against themselves.
use Prim.Native.Nat.{ℕ}
use Prim.Native.String.{String}
use mathlib.Core.Path.{◌≡◌, refl}
use mathlib.Core.Bool.{Bool, true, false, not}
use native.Mathlib.Omega.{arith}
use text.Mathlib.TextEquality.{eq_iff}
use text.Mathlib.Text.{◌==◌ as str_eq}
use latest_poseidon.Prelude.Tests.{◌==◌}

pub same_text : (s : String) → str_eq s s ≡ true
same_text s = (eq_iff s s).1 refl

pub same_number : (n : ℕ) → (n == n) ≡ true
same_number n = ground arith

pub not-true : (b : Bool) → not b ≡ true → b ≡ false
not-true true h = absurd (cc h)
not-true false h = refl
