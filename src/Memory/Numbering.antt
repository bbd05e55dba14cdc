-- ===== src/Memory/Numbering.antt =====
-- The versions of a user are numbered without a gap, and what a write does to them.
use latest_poseidon.Prelude.{
  ℕ, zero, suc, ◌+◌, ◌-◌, ◌≤◌, ◌<◌, ◌≡◌, refl, sym, subst, ap, ◌∙◌, inl, inr, String, str_eq,
  eq_iff, Bool, true, false, not, List, [], ◌∷◌, All, take, leb, ltb, ltb→lt, max, Bool-cases,
  sort_by-All, arith, keep, keep-passes, sort_by, IsBefore, All-weaken, insert_by, keep-true,
  keep-false, keep-keep, keep-implied, insert_by-front, sort_by-keep, ok,
}
use latest_poseidon.Memory.{
  Version, is_users, newer, versions_of, maximum, max_version, has_key, insert_version, is_stale,
  prune,
}

-- Versions numbered from `n` down, one by one.
abbrev pub Descends : ℕ → List Version → Type 0
Descends n [] = Unit {0}
Descends zero (v ∷ vs) = ⊥
Descends (suc n) (v ∷ vs) = (v.version ≡ suc n) × Descends n vs

-- The table of each user is numbered from the greatest version down.
abbrev pub IsMemory : List Version → Type 0
IsMemory table = (u : String) → Descends (max_version u table) (versions_of u table)

newer_total : (v w : Version) → newer v w ≡ false → newer w v ≡ true
newer_total v w h = ground arith

newer_trans : (u v w : Version) → newer u v ≡ true → newer v w ≡ true → newer u w ≡ true
newer_trans u v w h k = ground arith

pub versions_of-keep :
    (p : Version → Bool) (u : String) (table : List Version)
    → versions_of u (keep p table) ≡ keep p (versions_of u table)
unfolding versions_of
versions_of-keep p u table =
    ap (sort_by newer) (keep-keep (is_users u) p table)
    ∙ sort_by-keep newer newer_total newer_trans p (keep (is_users u) table)

maximum-insert_by :
    (v : Version) (vs : List Version) → maximum (insert_by newer v vs) ≡ max v.version (maximum vs)
unfolding insert_by
maximum-insert_by v [] = refl
maximum-insert_by v (w ∷ vs) = elim (Bool-cases (newer v w)) [
  | inl t ↦ rw t
  | inr f ↦ rw f (omega (arith, maximum-insert_by v vs))
]

maximum-sort_by : (vs : List Version) → maximum (sort_by newer vs) ≡ maximum vs
unfolding sort_by
maximum-sort_by [] = refl
maximum-sort_by (v ∷ vs) =
    maximum-insert_by v (sort_by newer vs) ∙ ap (λ n. max v.version n) (maximum-sort_by vs)

pub max_version-versions_of :
    (u : String) (table : List Version) → max_version u table ≡ maximum (versions_of u table)
unfolding max_version versions_of
max_version-versions_of u table = sym (maximum-sort_by (keep (is_users u) table))

-- The greatest version bounds every version.
maximum-bound : (vs : List Version) (n : ℕ) → maximum vs ≤ n → All (λ v. v.version ≤ n) vs
maximum-bound [] n h = tt
maximum-bound (v ∷ vs) n h = (omega (arith, h), maximum-bound vs n (omega (arith, h)))

pub Descends-bound : (n : ℕ) (vs : List Version) → Descends n vs → maximum vs ≤ n
Descends-bound n [] h = omega arith
Descends-bound zero (v ∷ vs) h = elim h [ ]
Descends-bound (suc n) (v ∷ vs) h = omega (arith, h.0, Descends-bound n vs h.1)

-- A list that is numbered down is numbered from its maximum.
Descends-maximum : (n : ℕ) (vs : List Version) → Descends n vs → Descends (maximum vs) vs
Descends-maximum n [] h = tt
Descends-maximum zero (v ∷ vs) h = elim h [ ]
Descends-maximum (suc n) (v ∷ vs) h =
    let e : suc n ≡ maximum (v ∷ vs) = omega (arith, h.0, Descends-bound n vs h.1) in
    subst (λ k. Descends k (v ∷ vs)) e h

pub Descends-versions_of :
    (n : ℕ) (u : String) (table : List Version)
    → Descends n (versions_of u table)
    → Descends (max_version u table) (versions_of u table)
Descends-versions_of n u table h =
    subst (λ k. Descends k (versions_of u table)) (sym (max_version-versions_of u table))
      (Descends-maximum n (versions_of u table) h)

pub Descends-next :
    (n : ℕ) (v : Version) (vs : List Version)
    → v.version ≡ n + 1
    → Descends n vs
    → Descends (n + 1) (v ∷ vs)
Descends-next n v vs e h =
    let k : suc n ≡ n + 1 = omega arith in subst (λ k. Descends k (v ∷ vs)) k (omega (arith, e), h)

pub Descends-take : (k n : ℕ) (vs : List Version) → Descends n vs → Descends n (take k vs)
Descends-take zero n vs h = tt
Descends-take (suc k) n [] h = tt
Descends-take (suc k) zero (v ∷ vs) h = elim h [ ]
Descends-take (suc k) (suc n) (v ∷ vs) h = (h.0, Descends-take k n vs h.1)

-- The row after the greatest version has a new key.
has_key-new :
    (v : Version) (table : List Version)
    → max_version v.user_sub table < v.version
    → has_key v table ≡ false
unfolding has_key max_version
has_key-new v [] h = refl
has_key-new v (w ∷ table) h = elim (Bool-cases (is_users v.user_sub w)) [
  | inl m ↦
      (let g : max w.version (maximum (keep (is_users v.user_sub) table)) < v.version =
          subst (λ l. maximum l < v.version) (keep-true (is_users v.user_sub) w table m) h in
        let rest = has_key-new v table (omega (arith, g)) in ground (arith, m, g, rest))
  | inr m ↦
      (let g = subst (λ l. maximum l < v.version) (keep-false (is_users v.user_sub) w table m) h in
        let rest = has_key-new v table g in ground (arith, m, rest))
]

pub insert_version-new :
    (v : Version) (table : List Version)
    → max_version v.user_sub table < v.version
    → insert_version v table ≡ ok (v ∷ table)
unfolding insert_version
insert_version-new v table h = rw (has_key-new v table h)

same_user : (u : String) → str_eq u u ≡ true
same_user u = (eq_iff u u).1 refl

own_front :
    (v : Version) (table : List Version)
    → IsBefore newer v (versions_of v.user_sub table)
    → versions_of v.user_sub (v ∷ table) ≡ v ∷ versions_of v.user_sub table
unfolding versions_of sort_by
own_front v table h =
    rw (keep-true (is_users v.user_sub) v table (same_user v.user_sub))
      (insert_by-front newer v (sort_by newer (keep (is_users v.user_sub) table)) h)

bounded-IsBefore :
    (v : Version) (vs : List Version) → All (λ w. w.version ≤ v.version) vs → IsBefore newer v vs
bounded-IsBefore v vs h = All-weaken _ _ vs (λ w k. ground (arith, k)) h

-- The newest version stands first.
pub versions_of-own :
    (v : Version) (table : List Version)
    → max_version v.user_sub table ≤ v.version
    → versions_of v.user_sub (v ∷ table) ≡ v ∷ versions_of v.user_sub table
versions_of-own v table h =
    let b =
      maximum-bound (versions_of v.user_sub table) v.version
        (omega (arith, h, max_version-versions_of v.user_sub table)) in
    own_front v table (bounded-IsBefore v (versions_of v.user_sub table) b)

pub versions_of-other :
    (u : String) (v : Version) (table : List Version)
    → str_eq v.user_sub u ≡ false
    → versions_of u (v ∷ table) ≡ versions_of u table
unfolding versions_of
versions_of-other u v table h = rw (keep-false (is_users u) v table h)

-- What a prune spares of a user's versions.
abbrev is_fresh : String → ℕ → ℕ → Version → Bool
is_fresh u kept next v = not (is_stale u kept next v)

is_fresh_iff :
    (u : String) (kept next : ℕ) (v : Version)
    → is_users u v ≡ true
    → is_fresh u kept next v ≡ ltb next (v.version + kept)
unfolding is_stale
is_fresh_iff u kept next v h = ground (arith, h)

is_fresh-other :
    (u u' : String) (kept next : ℕ) (v : Version)
    → str_eq u u' ≡ false
    → is_users u' v ≡ true
    → is_fresh u kept next v ≡ true
unfolding is_stale
is_fresh-other u u' kept next v h k =
    ground (arith, h, k, eq_iff v.user_sub u, eq_iff v.user_sub u', eq_iff u u')

take_nil : (k : ℕ) → ◌≡◌ {A = List Version} (take k []) []
take_nil zero = refl
take_nil (suc k) = refl

take-suc : (k m : ℕ) (v : Version) (vs : List Version) → k ≡ suc m → take k (v ∷ vs) ≡ v ∷ take m vs
take-suc k m v vs e = rw e

take_none : (k : ℕ) (vs : List Version) → k ≡ 0 → take k vs ≡ []
take_none k vs e = rw e

-- A prune of numbered versions keeps the first of them.
keep-is_fresh :
    (u : String) (kept next n : ℕ) (vs : List Version)
    → n ≤ next
    → All (λ v. is_users u v ≡ true) vs
    → Descends n vs
    → keep (is_fresh u kept next) vs ≡ take (n + kept - next) vs
keep-is_fresh u kept next n [] h a d = unfold keep in sym (take_nil (n + kept - next))
keep-is_fresh u kept next zero (v ∷ vs) h a d = elim d [ ]
keep-is_fresh u kept next (suc n) (v ∷ vs) h a d =
    let same = is_fresh_iff u kept next v a.0 in
    let rest = keep-is_fresh u kept next n vs (omega (arith, h)) a.1 d.1 in
    elim (Bool-cases (ltb next (suc n + kept))) [
      | inl t ↦
          (let l = ltb→lt next (suc n + kept) t in
            rw (keep-true (is_fresh u kept next) v vs (same ∙ rw d.0 t), rest)
              (sym (take-suc (suc n + kept - next) (n + kept - next) v vs (omega (arith, l)))))
      | inr f ↦
          (let l : suc n + kept ≤ next = ground (arith, f) in
            rw (keep-false (is_fresh u kept next) v vs (same ∙ rw d.0 f), rest)
              (take_none (n + kept - next) vs (omega (arith, l))
                ∙ sym (take_none (suc n + kept - next) (v ∷ vs) (omega (arith, l)))))
    ]

versions_of-users :
    (u : String) (table : List Version) → All (λ v. is_users u v ≡ true) (versions_of u table)
unfolding versions_of
versions_of-users u table =
    sort_by-All newer _ (keep (is_users u) table) (keep-passes (is_users u) table)

-- A prune after a write, for the user who wrote: the newest of the versions, or all of them.
abbrev pub retain : ℕ → List Version → List Version
retain zero vs = vs
retain (suc k) vs = take (suc k) vs

prune-suc :
    (u : String) (k next : ℕ) (table : List Version)
    → prune u (suc k) next table ≡ keep (is_fresh u (suc k) next) table
unfolding prune
prune-suc u k next table = let h : leb 1 (suc k) ≡ true = ground arith in rw h

pub versions_of-prune :
    (u : String) (kept next : ℕ) (table : List Version)
    → Descends next (versions_of u table)
    → versions_of u (prune u kept next table) ≡ retain kept (versions_of u table)
unfolding prune
versions_of-prune u zero next table d = refl
versions_of-prune u (suc k) next table d =
    ap (versions_of u) (prune-suc u k next table)
    ∙ versions_of-keep (is_fresh u (suc k) next) u table
    ∙ keep-is_fresh u (suc k) next next (versions_of u table) (omega arith)
        (versions_of-users u table) d
    ∙ ap (λ n. take n (versions_of u table)) {y = suc k} (omega arith)

-- And for another user.
pub versions_of-prune_other :
    (u u' : String) (kept next : ℕ) (table : List Version)
    → str_eq u u' ≡ false
    → versions_of u' (prune u kept next table) ≡ versions_of u' table
unfolding prune versions_of
versions_of-prune_other u u' kept next table h = elim (Bool-cases (leb 1 kept)) [
  | inl t ↦ rw t (
      ap (sort_by newer) (
        keep-implied (is_users u') (is_fresh u kept next) table
          (λ v k. is_fresh-other u u' kept next v h k)))
  | inr f ↦ rw f
]

pub retain-Descends : (k n : ℕ) (vs : List Version) → Descends n vs → Descends n (retain k vs)
retain-Descends zero n vs d = d
retain-Descends (suc k) n vs d = Descends-take (suc k) n vs d
