-- ===== src/Prelude/Sorting.antt =====
-- `sorted` of Python: a stable sort by a Boolean order, and membership and order of what it returns.
use Prim.Native.Nat.{ℕ}
use Prim.Native.Char.{code}
use Prim.Native.String.{String}
use mathlib.Core.Path.{◌≡◌, refl}
use mathlib.Core.Logic.{inl, inr}
use mathlib.Core.Bool.{Bool, true, false}
use mathlib.Core.List.{List, [], ◌∷◌}
use native.Mathlib.Omega.{arith}
use latest_poseidon.Prelude.Tests.{if◌then◌else◌, Bool-cases, ltb, ◌==◌}
use latest_poseidon.Prelude.Lists.{All}

-- The code points of a text.
abbrev pub codes : String → List ℕ
codes String.[] = []
codes (String.◌∷◌ c s) = code c ∷ codes s

-- `a <= b` on texts, by code points.
unfoldable pub codes_le : List ℕ → List ℕ → Bool
codes_le [] ys = true
codes_le (x ∷ xs) [] = false
codes_le (x ∷ xs) (y ∷ ys) =
    let rest = codes_le xs ys in if ltb x y then true else if x == y then rest else false

module _ {ℓ} {A : Type ℓ} (le : A → A → Bool) where
  -- Behind the elements that are at most as large: equal ones keep their order.
  unfoldable pub insert_by : A → List A → List A
  insert_by a [] = a ∷ []
  insert_by a (x ∷ xs) = if le a x then a ∷ x ∷ xs else x ∷ insert_by a xs

  unfoldable pub sort_by : List A → List A
  unfolding insert_by
  sort_by [] = []
  sort_by (x ∷ xs) = insert_by x (sort_by xs)

  pub insert_by-All {κ} :
      (P : A → Type κ) (a : A) (xs : List A) → P a → All P xs → All P (insert_by a xs)
  unfolding insert_by
  insert_by-All P a [] h k = (h, tt)
  insert_by-All P a (x ∷ xs) h k = elim (Bool-cases (le a x)) [
    | inl t ↦ rw t (h, k)
    | inr f ↦ rw f (k.0, insert_by-All P a xs h k.1)
  ]

  -- What holds of every element holds of every element of the sorted list.
  pub sort_by-All {κ} : (P : A → Type κ) (xs : List A) → All P xs → All P (sort_by xs)
  unfolding sort_by
  sort_by-All P [] h = tt
  sort_by-All P (x ∷ xs) h = insert_by-All P x (sort_by xs) h.0 (sort_by-All P xs h.1)

  All-insert_by {κ} :
      (P : A → Type κ) (a : A) (xs : List A) → All P (insert_by a xs) → P a × All P xs
  unfolding insert_by
  All-insert_by P a [] h = h
  All-insert_by P a (x ∷ xs) h = elim (Bool-cases (le a x)) [
    | inl t ↦ rw t at h
    | inr f ↦
        let g : All P (x ∷ insert_by a xs) = rw f at h in
        let (p, k) = All-insert_by P a xs g.1 in (p, (g.0, k))
  ]

  -- And the other way round: sorting drops nothing.
  pub All-sort_by {κ} : (P : A → Type κ) (xs : List A) → All P (sort_by xs) → All P xs
  unfolding sort_by
  All-sort_by P [] h = tt
  All-sort_by P (x ∷ xs) h =
      let (p, k) = All-insert_by P x (sort_by xs) h in (p, All-sort_by P xs k)

  -- The first element is at most every other one.
  abbrev pub LeadsAll : List A → Type 0
  LeadsAll [] = Unit
  LeadsAll (x ∷ xs) = All (λ y. le x y ≡ true) (x ∷ xs)

module _ {ℓ} {A : Type ℓ} (le : A → A → Bool) (total : (a b : A) → le a b ≡ false → le b a ≡ true)
    (transitive : (a b c : A) → le a b ≡ true → le b c ≡ true → le a c ≡ true) where
  le_self : (a : A) → le a a ≡ true
  le_self a = elim (Bool-cases (le a a)) [ inl t ↦ t | inr f ↦ total a a f ]

  All-weaken :
      (a x : A) (xs : List A)
      → le a x ≡ true
      → All (λ y. le x y ≡ true) xs
      → All (λ y. le a y ≡ true) xs
  All-weaken a x [] h k = tt
  All-weaken a x (y ∷ ys) h k = (transitive a x y h k.0, All-weaken a x ys h k.1)

  insert_by-LeadsAll : (a : A) (xs : List A) → LeadsAll le xs → LeadsAll le (insert_by le a xs)
  unfolding insert_by
  insert_by-LeadsAll a [] h = (le_self a, tt)
  insert_by-LeadsAll a (x ∷ xs) h = elim (Bool-cases (le a x)) [
    | inl t ↦ rw t (le_self a, All-weaken a x (x ∷ xs) t h)
    | inr f ↦ rw f (h.0, insert_by-All le (λ y. le x y ≡ true) a xs (total a x f) h.1)
  ]

  -- The sorted list begins with a least element.
  pub sort_by-LeadsAll : (xs : List A) → LeadsAll le (sort_by le xs)
  unfolding sort_by
  sort_by-LeadsAll [] = tt
  sort_by-LeadsAll (x ∷ xs) = insert_by-LeadsAll x (sort_by le xs) (sort_by-LeadsAll xs)

pub codes_le_total : (xs ys : List ℕ) → codes_le xs ys ≡ false → codes_le ys xs ≡ true
unfolding codes_le
codes_le_total [] ys h = cc
codes_le_total (x ∷ xs) [] h = refl
codes_le_total (x ∷ xs) (y ∷ ys) h = ground (arith, codes_le_total xs ys)

pub codes_le_trans :
    (xs ys zs : List ℕ) → codes_le xs ys ≡ true → codes_le ys zs ≡ true → codes_le xs zs ≡ true
unfolding codes_le
codes_le_trans [] ys zs h k = refl
codes_le_trans (x ∷ xs) [] zs h k = cc
codes_le_trans (x ∷ xs) (y ∷ ys) [] h k = k
codes_le_trans (x ∷ xs) (y ∷ ys) (z ∷ zs) h k = ground (arith, codes_le_trans xs ys zs)
