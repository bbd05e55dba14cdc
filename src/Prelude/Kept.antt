-- ===== src/Prelude/Kept.antt =====
-- Filters and sorting: a filter of a sorted list is the sorted list of what it keeps.
use mathlib.Core.Path.{◌≡◌, refl, sym, ◌∙◌, ap}
use mathlib.Core.Logic.{inl, inr}
use mathlib.Core.Bool.{Bool, true, false}
use mathlib.Core.List.{List, [], ◌∷◌}
use latest_poseidon.Prelude.Tests.{Bool-cases}
use latest_poseidon.Prelude.Sorting.{insert_by, sort_by}
use latest_poseidon.Prelude.Members.{All-weaken}
use latest_poseidon.Prelude.Perms.{keep, keep-All}
use latest_poseidon.Prelude.Sorted.{IsBefore, IsSorted, sort_by-IsSorted}

module _ {ℓ} {A : Type ℓ} where
  pub keep-true :
      (p : A → Bool) (x : A) (xs : List A) → p x ≡ true → keep p (x ∷ xs) ≡ x ∷ keep p xs
  unfolding keep
  keep-true p x xs h = rw h

  pub keep-false : (p : A → Bool) (x : A) (xs : List A) → p x ≡ false → keep p (x ∷ xs) ≡ keep p xs
  unfolding keep
  keep-false p x xs h = rw h

  -- Two filters commute.
  pub keep-keep : (p q : A → Bool) (xs : List A) → keep p (keep q xs) ≡ keep q (keep p xs)
  keep-keep p q [] = unfold keep in refl
  keep-keep p q (x ∷ xs) = elim (Bool-cases (p x)) [
    | inl a ↦ elim (Bool-cases (q x)) [
      | inl b ↦
          rw
            (
              keep-true q x xs b,
              keep-true p x xs a,
              keep-true p x (keep q xs) a,
              keep-true q x (keep p xs) b,
            )
            (ap (λ l. x ∷ l) (keep-keep p q xs))
      | inr b ↦
          rw (keep-false q x xs b, keep-true p x xs a, keep-false q x (keep p xs) b)
            (keep-keep p q xs)
    ]
    | inr a ↦ elim (Bool-cases (q x)) [
      | inl b ↦
          rw (keep-true q x xs b, keep-false p x xs a, keep-false p x (keep q xs) a)
            (keep-keep p q xs)
      | inr b ↦ rw (keep-false q x xs b, keep-false p x xs a) (keep-keep p q xs)
    ]
  ]

  -- A filter that passes whatever another passes takes nothing from what that one keeps.
  pub keep-implied :
      (p q : A → Bool) (xs : List A)
      → ((x : A) → p x ≡ true → q x ≡ true)
      → keep p (keep q xs) ≡ keep p xs
  keep-implied p q [] h = unfold keep in refl
  keep-implied p q (x ∷ xs) h = elim (Bool-cases (p x)) [
    | inl a ↦
        rw (keep-true q x xs (h x a), keep-true p x (keep q xs) a, keep-true p x xs a)
          (ap (λ l. x ∷ l) (keep-implied p q xs h))
    | inr a ↦ elim (Bool-cases (q x)) [
      | inl b ↦
          rw (keep-true q x xs b, keep-false p x (keep q xs) a, keep-false p x xs a)
            (keep-implied p q xs h)
      | inr b ↦ rw (keep-false q x xs b, keep-false p x xs a) (keep-implied p q xs h)
    ]
  ]

module _ {ℓ} {A : Type ℓ} (le : A → A → Bool) where
  -- What is before every element is inserted in front.
  pub insert_by-front : (a : A) (xs : List A) → IsBefore le a xs → insert_by le a xs ≡ a ∷ xs
  unfolding insert_by
  insert_by-front a [] h = refl
  insert_by-front a (x ∷ xs) h = rw h.0

  keep-insert_by-false :
      (p : A → Bool) (a : A) (xs : List A) → p a ≡ false → keep p (insert_by le a xs) ≡ keep p xs
  unfolding insert_by
  keep-insert_by-false p a [] h = keep-false p a [] h
  keep-insert_by-false p a (x ∷ xs) h = elim (Bool-cases (le a x)) [
    | inl t ↦ rw t (keep-false p a (x ∷ xs) h)
    | inr f ↦ rw f (elim (Bool-cases (p x)) [
      | inl b ↦
          rw (keep-true p x (insert_by le a xs) b, keep-true p x xs b)
            (ap (λ l. x ∷ l) (keep-insert_by-false p a xs h))
      | inr b ↦
          rw (keep-false p x (insert_by le a xs) b, keep-false p x xs b)
            (keep-insert_by-false p a xs h)
    ])
  ]

module _ {ℓ} {A : Type ℓ} (le : A → A → Bool) (total : (a b : A) → le a b ≡ false → le b a ≡ true)
    (transitive : (a b c : A) → le a b ≡ true → le b c ≡ true → le a c ≡ true) where
  keep-insert_by :
      (p : A → Bool) (a : A) (xs : List A)
      → p a ≡ true
      → IsSorted le xs
      → keep p (insert_by le a xs) ≡ insert_by le a (keep p xs)
  unfolding insert_by
  keep-insert_by p a [] h s = keep-true p a [] h ∙ unfold keep in refl
  keep-insert_by p a (x ∷ xs) h s = elim (Bool-cases (le a x)) [
    | inl t ↦ rw t (
        keep-true p a (x ∷ xs) h
        ∙ sym (
            insert_by-front le a (keep p (x ∷ xs)) (
              keep-All p (λ y. le a y ≡ true) (x ∷ xs)
                (t, All-weaken _ _ xs (λ y k. transitive a x y t k) s.0))))
    | inr f ↦ rw f (elim (Bool-cases (p x)) [
      | inl b ↦
          rw (keep-true p x (insert_by le a xs) b, keep-true p x xs b, f)
            (ap (λ l. x ∷ l) (keep-insert_by p a xs h s.1))
      | inr b ↦
          rw (keep-false p x (insert_by le a xs) b, keep-false p x xs b)
            (keep-insert_by p a xs h s.1)
    ])
  ]

  -- Filtering and sorting commute.
  pub sort_by-keep : (p : A → Bool) (xs : List A) → sort_by le (keep p xs) ≡ keep p (sort_by le xs)
  unfolding sort_by
  sort_by-keep p [] = unfold keep in refl
  sort_by-keep p (x ∷ xs) = elim (Bool-cases (p x)) [
    | inl b ↦ rw (keep-true p x xs b) (
        ap (insert_by le x) (sort_by-keep p xs)
        ∙ sym (keep-insert_by p x (sort_by le xs) b (sort_by-IsSorted le total transitive xs)))
    | inr b ↦
        rw (keep-false p x xs b)
          (sort_by-keep p xs ∙ sym (keep-insert_by-false le p x (sort_by le xs) b))
  ]
