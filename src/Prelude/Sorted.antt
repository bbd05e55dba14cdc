-- ===== src/Prelude/Sorted.antt =====
-- What `sorted` returns: a reordering of its argument in which no element is before a smaller one.
use Prim.Native.Nat.{ℕ, zero, suc}
use mathlib.Core.Path.{◌≡◌, refl}
use mathlib.Core.Logic.{inl, inr}
use mathlib.Core.Bool.{Bool, true, false}
use mathlib.Core.List.{List, [], ◌∷◌, Permᴰ}
use mathlib.Core.List.Permᴰ as Permᴰ
use latest_poseidon.Prelude.Tests.{Bool-cases}
use latest_poseidon.Prelude.Lists.{All, take, drop}
use latest_poseidon.Prelude.Sorting.{insert_by, sort_by, insert_by-All}
use latest_poseidon.Prelude.Members.{All-weaken}

drop-All {ℓ κ} : {A : Type ℓ} (P : A → Type κ) (n : ℕ) (xs : List A) → All P xs → All P (drop n xs)
drop-All P zero xs h = h
drop-All P (suc n) [] h = tt
drop-All P (suc n) (x ∷ xs) h = drop-All P n xs h.1

module _ {ℓ} {A : Type ℓ} (le : A → A → Bool) where
  abbrev pub IsBefore : A → List A → Type 0
  IsBefore x ys = All (λ y. le x y ≡ true) ys

  -- Every element is at most every later one.
  abbrev pub IsSorted : List A → Type 0
  IsSorted [] = Unit
  IsSorted (x ∷ xs) = IsBefore x xs × IsSorted xs

  insert_by-Perm : (a : A) (xs : List A) → Permᴰ (insert_by le a xs) (a ∷ xs)
  unfolding insert_by
  insert_by-Perm a [] = Permᴰ.refl _
  insert_by-Perm a (x ∷ xs) = elim (Bool-cases (le a x)) [
    | inl t ↦ rw t (Permᴰ.refl _)
    | inr f ↦ rw f (Permᴰ.trans (Permᴰ.cons refl (insert_by-Perm a xs)) (Permᴰ.swap refl refl))
  ]

  pub sort_by-reorders : (xs : List A) → Permᴰ (sort_by le xs) xs
  unfolding sort_by
  sort_by-reorders [] = Permᴰ.nil
  sort_by-reorders (x ∷ xs) =
      Permᴰ.trans (insert_by-Perm x (sort_by le xs)) (Permᴰ.cons refl (sort_by-reorders xs))

  -- The first elements are at most the others.
  pub take-IsBefore-drop :
      (n : ℕ) (xs : List A) → IsSorted xs → All (λ x. IsBefore x (drop n xs)) (take n xs)
  take-IsBefore-drop zero xs h = tt
  take-IsBefore-drop (suc n) [] h = tt
  take-IsBefore-drop (suc n) (x ∷ xs) h = (drop-All _ n xs h.0, take-IsBefore-drop n xs h.1)

module _ {ℓ} {A : Type ℓ} (le : A → A → Bool) (total : (a b : A) → le a b ≡ false → le b a ≡ true)
    (transitive : (a b c : A) → le a b ≡ true → le b c ≡ true → le a c ≡ true) where
  insert_by-IsSorted : (a : A) (xs : List A) → IsSorted le xs → IsSorted le (insert_by le a xs)
  unfolding insert_by
  insert_by-IsSorted a [] h = (tt, tt)
  insert_by-IsSorted a (x ∷ xs) h = elim (Bool-cases (le a x)) [
    | inl t ↦ rw t ((t, All-weaken _ _ xs (λ y k. transitive a x y t k) h.0), h)
    | inr f ↦
        rw f (
          insert_by-All le (λ y. le x y ≡ true) a xs (total a x f) h.0,
          insert_by-IsSorted a xs h.1,
        )
  ]

  pub sort_by-IsSorted : (xs : List A) → IsSorted le (sort_by le xs)
  unfolding sort_by
  sort_by-IsSorted [] = tt
  sort_by-IsSorted (x ∷ xs) = insert_by-IsSorted x (sort_by le xs) (sort_by-IsSorted xs)
