-- ===== src/Prelude/Perms.antt =====
-- Lists up to order: what a filter keeps, and that `sorted` by an antisymmetric order forgets the
-- order of its argument.
use Prim.Native.Char.{code}
use Prim.Native.String.{String}
use mathlib.Core.Path.{◌≡◌, refl, sym, ◌∙◌, ap, ap₂}
use mathlib.Core.Logic.{inl, inr}
use mathlib.Core.Bool.{Bool, true, false}
use mathlib.Core.List.{List, [], ◌∷◌, Permᴰ}
use mathlib.Core.List.Permᴰ as Permᴰ
use native.Mathlib.Omega.{arith}
use text.Mathlib.TextEquality.{Char-path}
use latest_poseidon.Prelude.Tests.{if◌then◌else◌, Bool-cases}
use latest_poseidon.Prelude.Lists.{All}
use latest_poseidon.Prelude.Sorting.{codes, codes_le, insert_by, sort_by}

module _ {ℓ} {A : Type ℓ} (p : A → Bool) where
  -- [x for x in xs if p(x)]
  unfoldable pub keep : List A → List A
  keep [] = []
  keep (x ∷ xs) = let rest = keep xs in if p x then x ∷ rest else rest

  pub keep-All {κ} : (P : A → Type κ) (xs : List A) → All P xs → All P (keep xs)
  unfolding keep
  keep-All P [] h = tt
  keep-All P (x ∷ xs) h = elim (Bool-cases (p x)) [
    | inl t ↦ rw t (h.0, keep-All P xs h.1)
    | inr f ↦ rw f (keep-All P xs h.1)
  ]

  -- What is kept passes the test.
  pub keep-passes : (xs : List A) → All (λ x. p x ≡ true) (keep xs)
  unfolding keep
  keep-passes [] = tt
  keep-passes (x ∷ xs) = elim (Bool-cases (p x)) [
    | inl t ↦ rw t (t, keep-passes xs)
    | inr f ↦ rw f (keep-passes xs)
  ]

  keep-swap : (x y : A) (xs : List A) → Permᴰ (keep (x ∷ y ∷ xs)) (keep (y ∷ x ∷ xs))
  unfolding keep
  keep-swap x y xs = elim (Bool-cases (p x)) [
    | inl a ↦ elim (Bool-cases (p y)) [
      | inl b ↦ rw (a, b) (Permᴰ.swap refl refl)
      | inr b ↦ rw (a, b) (Permᴰ.refl _)
    ]
    | inr a ↦ rw a (Permᴰ.refl _)
  ]

  keep-cons :
      (x : A) (xs ys : List A) → Permᴰ (keep xs) (keep ys) → Permᴰ (keep (x ∷ xs)) (keep (x ∷ ys))
  unfolding keep
  keep-cons x xs ys h = elim (Bool-cases (p x)) [
    | inl a ↦ rw a (Permᴰ.cons refl h)
    | inr a ↦ rw a h
  ]

  pub keep-Perm : {xs ys : List A} → Permᴰ xs ys → Permᴰ (keep xs) (keep ys)
  keep-Perm Permᴰ.nil = Permᴰ.refl _
  keep-Perm (Permᴰ.cons {a = a} {l₁ = xs} {l₂ = ys} e h) =
      rw (sym e) (keep-cons a xs ys (keep-Perm h))
  keep-Perm (Permᴰ.swap {a = a} {b = b} {l = l} e f) = rw (sym e, sym f) (keep-swap a b l)
  keep-Perm (Permᴰ.trans h k) = Permᴰ.trans (keep-Perm h) (keep-Perm k)

module _ {ℓ} {A : Type ℓ} (le : A → A → Bool) (total : (a b : A) → le a b ≡ false → le b a ≡ true)
    (transitive : (a b c : A) → le a b ≡ true → le b c ≡ true → le a c ≡ true)
    (antisymmetric : (a b : A) → le a b ≡ true → le b a ≡ true → a ≡ b) where
  -- Two elements in front of the same list.
  pair : A → A → List A → List A
  pair a b xs = if le a b then a ∷ b ∷ xs else b ∷ a ∷ xs

  pair_comm : (a b : A) (xs : List A) → pair a b xs ≡ pair b a xs
  unfolding pair
  pair_comm a b xs = elim (Bool-cases (le a b)) [
    | inl t ↦ elim (Bool-cases (le b a)) [
      | inl u ↦ (let e = antisymmetric a b t u in rw (t, u, e))
      | inr u ↦ rw (t, u)
    ]
    | inr f ↦ (let u = total a b f in rw (f, u))
  ]

  -- What is before the second of two is no later than the third.
  first_before : (a b x : A) → le b x ≡ true → le a x ≡ false → le a b ≡ false
  first_before a b x h f = elim (Bool-cases (le a b)) [
    | inl t ↦ absurd (cc (transitive a b x t h, f))
    | inr g ↦ g
  ]

  insert_by-swap :
      (a b : A) (xs : List A)
      → insert_by le a (insert_by le b xs) ≡ insert_by le b (insert_by le a xs)
  unfolding insert_by pair
  insert_by-swap a b [] = pair_comm a b []
  insert_by-swap a b (x ∷ xs) = elim (Bool-cases (le b x)) [
    | inl bx ↦ elim (Bool-cases (le a x)) [
      | inl ax ↦ rw (bx, ax, bx) (pair_comm a b (x ∷ xs))
      | inr ax ↦ rw (bx, ax, first_before a b x bx ax, bx)
    ]
    | inr bx ↦ elim (Bool-cases (le a x)) [
      | inl ax ↦ rw (bx, ax, first_before b a x ax bx, bx)
      | inr ax ↦ rw (bx, ax, bx) (ap (λ r. x ∷ r) (insert_by-swap a b xs))
    ]
  ]

  -- A list and a reordering of it are sorted into the same list.
  pub sort_by-Perm : {xs ys : List A} → Permᴰ xs ys → sort_by le xs ≡ sort_by le ys
  unfolding sort_by
  sort_by-Perm Permᴰ.nil = refl
  sort_by-Perm (Permᴰ.cons e h) = ap₂ (insert_by le) e (sort_by-Perm h)
  sort_by-Perm (Permᴰ.swap {a = a} {b = b} {l = l} e f) =
      insert_by-swap a b (sort_by le l)
      ∙ ap₂ (λ x y. insert_by le x (insert_by le y (sort_by le l))) f e
  sort_by-Perm (Permᴰ.trans h k) = sort_by-Perm h ∙ sort_by-Perm k

pub codes_le_antisym :
    (s t : String)
    → codes_le (codes s) (codes t) ≡ true
    → codes_le (codes t) (codes s) ≡ true
    → s ≡ t
unfolding codes_le
codes_le_antisym String.[] String.[] h k = refl
codes_le_antisym String.[] (String.◌∷◌ d t) h k = absurd (cc)
codes_le_antisym (String.◌∷◌ c s) String.[] h k = absurd (cc)
codes_le_antisym (String.◌∷◌ c s) (String.◌∷◌ d t) h k =
    let e : code c ≡ code d = ground arith in
    ap₂ String.◌∷◌ (Char-path c d e) (codes_le_antisym s t (ground arith) (ground arith))
