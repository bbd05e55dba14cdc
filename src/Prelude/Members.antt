-- ===== src/Prelude/Members.antt =====
-- `All` and membership through the list functions.
use Prim.Native.Nat.{ℕ, zero, suc}
use mathlib.Core.Path.{◌≡◌, refl, sym, ◌∙◌, subst}
use mathlib.Core.Logic.{◌⊎◌, inl, inr}
use mathlib.Core.Bool.{Bool, true, false}
use mathlib.Core.List.{List, [], ◌∷◌, map, Memᴰ}
use native.Mathlib.Omega.{arith}
use latest_poseidon.Prelude.Tests.{Bool-cases}
use latest_poseidon.Prelude.Lists.{All, length, take}
use latest_poseidon.Prelude.Perms.{keep}

module _ {ℓ} {A : Type ℓ} where
  pub List-cases : (xs : List A) → (xs ≡ []) ⊎ ((x : A) × (ys : List A) × (xs ≡ x ∷ ys))
  List-cases [] = inl refl
  List-cases (x ∷ xs) = inr (x, xs, refl)

  pub All-Mem {κ} : (P : A → Type κ) (xs : List A) → ((x : A) → Memᴰ x xs → P x) → All P xs
  All-Mem P [] h = tt
  All-Mem P (x ∷ xs) h = (h x (Memᴰ.head refl), All-Mem P xs (λ y m. h y (Memᴰ.tail m)))

  pub All-at {κ} : (P : A → Type κ) (xs : List A) {x : A} → All P xs → Memᴰ x xs → P x
  All-at P [] h m = elim m [ ]
  All-at P (y ∷ xs) h (Memᴰ.head e) = subst P (sym e) h.0
  All-at P (y ∷ xs) h (Memᴰ.tail m) = All-at P xs h.1 m

  pub All-map₂ {κ μ ν} :
      (P : A → Type κ) (Q : A → Type μ) (R : A → Type ν) (xs : List A)
      → ((x : A) → P x → Q x → R x)
      → All P xs
      → All Q xs
      → All R xs
  All-map₂ P Q R [] f h k = tt
  All-map₂ P Q R (x ∷ xs) f h k = (f x h.0 k.0, All-map₂ P Q R xs f h.1 k.1)

  pub All-weaken {κ μ} :
      (P : A → Type κ) (Q : A → Type μ) (xs : List A) → ((x : A) → P x → Q x) → All P xs → All Q xs
  All-weaken P Q [] f h = tt
  All-weaken P Q (x ∷ xs) f h = (f x h.0, All-weaken P Q xs f h.1)

  pub take-All {κ} : (P : A → Type κ) (n : ℕ) (xs : List A) → All P xs → All P (take n xs)
  take-All P zero xs h = tt
  take-All P (suc n) [] h = tt
  take-All P (suc n) (x ∷ xs) h = (h.0, take-All P n xs h.1)

  pub Mem-singleton : (xs : List A) {a b : A} → length xs ≡ 1 → Memᴰ a xs → Memᴰ b xs → a ≡ b
  Mem-singleton [] h m n = absurd (omega (arith, h))
  Mem-singleton (x ∷ []) h (Memᴰ.head e) (Memᴰ.head f) = e ∙ sym f
  Mem-singleton (x ∷ []) h (Memᴰ.head e) (Memᴰ.tail n) = elim n [ ]
  Mem-singleton (x ∷ []) h (Memᴰ.tail m) n = elim m [ ]
  Mem-singleton (x ∷ y ∷ xs) h m n = absurd (omega (arith, h))

  keep-skip :
      (p : A → Bool) (x : A) (xs : List A) {y : A} → Memᴰ y (keep p xs) → Memᴰ y (keep p (x ∷ xs))
  unfolding keep
  keep-skip p x xs m = elim (Bool-cases (p x)) [ inl t ↦ rw t (Memᴰ.tail m) | inr f ↦ rw f m ]

  keep-first : (p : A → Bool) (x : A) (xs : List A) → p x ≡ true → Memᴰ x (keep p (x ∷ xs))
  unfolding keep
  keep-first p x xs h = rw h (Memᴰ.head refl)

  -- What passes the test is kept.
  pub keep-Mem : (p : A → Bool) (xs : List A) {y : A} → Memᴰ y xs → p y ≡ true → Memᴰ y (keep p xs)
  keep-Mem p [] m h = elim m [ ]
  keep-Mem p (x ∷ xs) (Memᴰ.head e) h = rw e (keep-first p x xs (rw (sym e) h))
  keep-Mem p (x ∷ xs) (Memᴰ.tail m) h = keep-skip p x xs (keep-Mem p xs m h)

  -- Nothing is kept where nothing passes.
  pub keep-none :
      (p : A → Bool) (xs : List A) → All (λ _. ⊥) (keep p xs) → All (λ x. p x ≡ false) xs
  unfolding keep
  keep-none p [] h = tt
  keep-none p (x ∷ xs) h = elim (Bool-cases (p x)) [
    | inl t ↦ absurd ((rw t at h).0)
    | inr f ↦ (f, keep-none p xs (rw f at h))
  ]

module _ {ℓ κ} {A : Type ℓ} {B : Type κ} (f : A → B) where
  pub map-All {μ} : (P : B → Type μ) (xs : List A) → All (λ x. P (f x)) xs → All P (map f xs)
  map-All P [] h = tt
  map-All P (x ∷ xs) h = (h.0, map-All P xs h.1)

  pub All-map {μ} : (P : B → Type μ) (xs : List A) → All P (map f xs) → All (λ x. P (f x)) xs
  All-map P [] h = tt
  All-map P (x ∷ xs) h = (h.0, All-map P xs h.1)
