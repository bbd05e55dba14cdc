-- ===== src/History/Pages.antt =====
-- Pages by key: the newest rows before a cursor, and the cursor of the next page. The two queries of
-- backend/poseidon/core/chat/history.py that page differ in their tables only.
use latest_poseidon.Prelude.{
  not-true, ℕ, zero, suc, ◌+◌, ◌≤◌, ◌<◌, ◌≡◌, ◌≢◌, refl, sym, ap, ◌∙◌, inl, inr, String, Bool, true,
  false, ◌&&◌, ◌||◌, not, Option, none, some, List, [], ◌∷◌, ◌++◌, All, All-map₂, take, drop,
  length, length-take, take-append-drop, codes, codes_le, codes_le_total, codes_le_trans,
  codes_le_antisym, ltb, ltb→lt, ◌==◌, if◌then◌else◌, Bool-cases, arith, keep, keep-true,
  keep-false, keep-implied, keep-All, sort_by, insert_by, sort_by-keep, sort_by-IsSorted, IsSorted,
  sort_by-All, insert_by-All, Memᴰ, All-at, keep-passes, lt→ltb, append-nil, ap₂, min,
}
use latest_poseidon.History.Lists.{keep_whole, take-take, length-drop, take_all}

-- What rows are ordered by.
abbrev pub Key : Type 0
Key = ℕ × String

-- (t, i) <= (u, j)
unfoldable pub key_le : Key → Key → Bool
key_le a b = ltb a.0 b.0 || (a.0 == b.0 && codes_le (codes a.1) (codes b.1))

key_le_total : (a b : Key) → key_le a b ≡ false → key_le b a ≡ true
unfolding key_le
key_le_total a b h = ground (arith, h, codes_le_total (codes a.1) (codes b.1))

key_le_trans : (a b c : Key) → key_le a b ≡ true → key_le b c ≡ true → key_le a c ≡ true
unfolding key_le
key_le_trans a b c h k = ground (arith, h, k, codes_le_trans (codes a.1) (codes b.1) (codes c.1))

key_le_antisym : (a b : Key) → key_le a b ≡ true → key_le b a ≡ true → a.1 ≡ b.1
unfolding key_le
key_le_antisym a b h k = codes_le_antisym a.1 b.1 (ground (arith, h, k)) (ground (arith, h, k))

more_test : (n m : ℕ) → ltb n (min (suc n) m) ≡ ltb n m
more_test n m = ground arith

-- The pages from a cursor on, as long as there is a next one.
abbrev pub continue {ℓ} : {A : Type ℓ} → (Option Key → List A) → Option Key → List A
continue next none = []
continue next (some c) = next (some c)

module _ {ℓ} {A : Type ℓ} (key : A → Key) where
  -- ORDER BY time DESC, id DESC
  abbrev pub newest_first : A → A → Bool
  newest_first x y = key_le (key y) (key x)

  -- WHERE (time, id) < (cursor_time, cursor_id), where there is a cursor.
  abbrev pub is_before : Option Key → A → Bool
  is_before none x = true
  is_before (some c) x = not (key_le c (key x))

  -- The rows of a query with LIMIT limit + 1.
  unfoldable pub fetched : ℕ → Option Key → List A → List A
  fetched limit cursor rows = take (limit + 1) (sort_by newest_first (keep (is_before cursor) rows))

  abbrev pub last_key : List A → Option Key
  last_key [] = none
  last_key (x ∷ []) = some (key x)
  last_key (x ∷ y ∷ xs) = last_key (y ∷ xs)

  -- rows[:limit], and the key of its last row if there are more.
  unfoldable pub page : ℕ → Option Key → List A → List A × Option Key
  unfolding fetched
  page limit cursor rows =
      let got = fetched limit cursor rows in
      (take limit got, if ltb limit (length got) then last_key (take limit got) else none)

  -- Rows whose ids are all different.
  abbrev pub HasKeys : List A → Type 0
  HasKeys [] = Unit {0}
  HasKeys (x ∷ xs) = All (λ y. (key y).1 ≢ (key x).1) xs × HasKeys xs

  pub keep-HasKeys : (p : A → Bool) (xs : List A) → HasKeys xs → HasKeys (keep p xs)
  keep-HasKeys p [] h = unfold keep in tt
  keep-HasKeys p (x ∷ xs) h = elim (Bool-cases (p x)) [
    | inl t ↦ rw (keep-true p x xs t) (keep-All p _ xs h.0, keep-HasKeys p xs h.1)
    | inr f ↦ rw (keep-false p x xs f) (keep-HasKeys p xs h.1)
  ]

  -- Every later row is before every earlier one.
  abbrev pub Descending : List A → Type 0
  Descending [] = Unit {0}
  Descending (x ∷ xs) = All (λ y. is_before (some (key x)) y ≡ true) xs × Descending xs

  insert_by-HasKeys :
      (a : A) (xs : List A)
      → All (λ y. (key y).1 ≢ (key a).1) xs
      → HasKeys xs
      → HasKeys (insert_by newest_first a xs)
  unfolding insert_by
  insert_by-HasKeys a [] h k = (tt, tt)
  insert_by-HasKeys a (x ∷ xs) h k = elim (Bool-cases (newest_first a x)) [
    | inl t ↦ rw t (h, k)
    | inr f ↦ rw f (
      insert_by-All newest_first (λ y. (key y).1 ≢ (key x).1) a xs (λ e. h.0 (sym e)) k.0,
      insert_by-HasKeys a xs h.1 k.1,
    )
  ]

  sort_by-HasKeys : (xs : List A) → HasKeys xs → HasKeys (sort_by newest_first xs)
  unfolding sort_by
  sort_by-HasKeys [] h = tt
  sort_by-HasKeys (x ∷ xs) h =
      insert_by-HasKeys x (sort_by newest_first xs)
        (sort_by-All newest_first (λ y. (key y).1 ≢ (key x).1) xs h.0) (sort_by-HasKeys xs h.1)

  strictly_before :
      (x y : A)
      → newest_first x y ≡ true
      → (key y).1 ≢ (key x).1
      → is_before (some (key x)) y ≡ true
  strictly_before x y h n = elim (Bool-cases (key_le (key x) (key y))) [
    | inl t ↦ absurd (n (key_le_antisym (key y) (key x) h t))
    | inr f ↦ ap not f
  ]

  sorted-Descending : (xs : List A) → IsSorted newest_first xs → HasKeys xs → Descending xs
  sorted-Descending [] s k = tt
  sorted-Descending (x ∷ xs) s k =
      (All-map₂ _ _ _ xs (λ y h n. strictly_before x y h n) s.0 k.0, sorted-Descending xs s.1 k.1)

  -- Rows with different ids, newest first, descend strictly.
  pub newest-Descending : (xs : List A) → HasKeys xs → Descending (sort_by newest_first xs)
  newest-Descending xs h =
      sorted-Descending (sort_by newest_first xs)
        (sort_by-IsSorted newest_first (λ x y. key_le_total (key y) (key x))
          (λ x y z h k. key_le_trans (key z) (key y) (key x) k h) xs)
        (sort_by-HasKeys xs h)

  is_before_self : (x : A) → is_before (some (key x)) x ≡ false
  is_before_self x = elim (Bool-cases (key_le (key x) (key x))) [
    | inl t ↦ ap not t
    | inr f ↦ absurd (cc (f, key_le_total (key x) (key x) f))
  ]

  -- What is before a row that is before a cursor is before the cursor.
  is_before_trans :
      (cursor : Option Key) (y z : A)
      → is_before cursor y ≡ true
      → is_before (some (key y)) z ≡ true
      → is_before cursor z ≡ true
  is_before_trans none y z h k = refl
  is_before_trans (some c) y z h k = elim (Bool-cases (key_le c (key z))) [
    | inl t ↦
        (let b = key_le_total (key y) (key z) (not-true (key_le (key y) (key z)) k) in
          absurd (cc (not-true (key_le c (key y)) h, key_le_trans c (key z) (key y) t b)))
    | inr f ↦ ap not f
  ]

  is_before-earlier :
      (x z : A) → is_before (some (key x)) z ≡ true → is_before (some (key z)) x ≡ false
  is_before-earlier x z h =
      ap not (key_le_total (key x) (key z) (not-true (key_le (key x) (key z)) h))

  -- The last row of a page that is not the last page, and what is before it.
  record Cut (limit : ℕ) (rows : List A) : Type ℓ where
    row : A
    is_row : Memᴰ row rows
    is_last : last_key (take limit rows) ≡ some (key row)
    rest : keep (is_before (some (key row))) rows ≡ drop limit rows

  cut :
      (limit : ℕ) (rows : List A)
      → 1 ≤ limit
      → limit < length rows
      → Descending rows
      → Cut limit rows
  cut zero rows h l d = absurd (omega (arith, h))
  cut (suc n) [] h l d = absurd (omega (arith, l))
  cut (suc zero) (x ∷ rows) h l d = record {
    row = x;
    is_row = Memᴰ.head refl;
    is_last = refl;
    rest =
        keep-false (is_before (some (key x))) x rows (is_before_self x)
        ∙ keep_whole (is_before (some (key x))) rows d.0;
  }
  cut (suc (suc n)) (x ∷ []) h l d = absurd (omega (arith, l))
  cut (suc (suc n)) (x ∷ y ∷ rows) h l d =
      let c = cut (suc n) (y ∷ rows) (omega arith) (omega (arith, l)) d.1 in
      record {
        row = c.row;
        is_row = Memᴰ.tail c.is_row;
        is_last = c.is_last;
        rest =
            keep-false (is_before (some (key c.row))) x (y ∷ rows) (
              is_before-earlier x c.row
                (All-at (λ z. is_before (some (key x)) z ≡ true) (y ∷ rows) d.0 c.is_row))
            ∙ c.rest;
      }

  keep-Descending : (p : A → Bool) (xs : List A) → Descending xs → Descending (keep p xs)
  keep-Descending p [] d = unfold keep in tt
  keep-Descending p (x ∷ xs) d = elim (Bool-cases (p x)) [
    | inl t ↦ rw (keep-true p x xs t) (keep-All p _ xs d.0, keep-Descending p xs d.1)
    | inr f ↦ rw (keep-false p x xs f) (keep-Descending p xs d.1)
  ]

  -- The rows before a cursor, newest first.
  abbrev pub remaining : Option Key → List A → List A
  remaining cursor rows = keep (is_before cursor) (sort_by newest_first rows)

  fetched-remaining :
      (limit : ℕ) (cursor : Option Key) (rows : List A)
      → fetched limit cursor rows ≡ take (suc limit) (remaining cursor rows)
  unfolding fetched
  fetched-remaining limit cursor rows = ap₂ take {y = suc limit} (omega arith) (
      sort_by-keep newest_first (λ x y. key_le_total (key y) (key x))
        (λ x y z h k. key_le_trans (key z) (key y) (key x) k h) (is_before cursor) rows)

  -- The next cursor, if more rows remain than are shown.
  abbrev next_of : ℕ → List A → Option Key
  next_of limit rest = if ltb limit (length rest) then last_key (take limit rest) else none

  page-remaining :
      (limit : ℕ) (cursor : Option Key) (rows : List A)
      → page limit cursor rows
        ≡ (take limit (remaining cursor rows), next_of limit (remaining cursor rows))
  unfolding page
  page-remaining limit cursor rows =
      let rest = remaining cursor rows in
      let shown : take limit (fetched limit cursor rows) ≡ take limit rest =
        ap (take limit) (fetched-remaining limit cursor rows) ∙ take-take limit rest in
      let more : ltb limit (length (fetched limit cursor rows)) ≡ ltb limit (length rest) =
        ap (λ l. ltb limit (length l)) (fetched-remaining limit cursor rows)
        ∙ ap (ltb limit) (length-take (suc limit) rest)
        ∙ more_test limit (length rest) in
      λ i. (shown i, if more i then last_key (shown i) else none)

  unfoldable pub pages : ℕ → ℕ → Option Key → List A → List A
  pages zero limit cursor rows = []
  pages (suc fuel) limit cursor rows =
      let p = page limit cursor rows in p.0 ++ continue (λ c. pages fuel limit c rows) p.1

  cut-remaining :
      (limit : ℕ) (cursor : Option Key) (rows : List A)
      → 1 ≤ limit
      → HasKeys rows
      → limit < length (remaining cursor rows)
      → (c : Key) × (next_of limit (remaining cursor rows) ≡ some c)
        × (remaining (some c) rows ≡ drop limit (remaining cursor rows))
  cut-remaining limit cursor rows h k l =
      let rest = remaining cursor rows in
      let sorted = sort_by newest_first rows in
      let c =
        cut limit rest h l (keep-Descending (is_before cursor) sorted (newest-Descending rows k)) in
      let shown : is_before cursor c.row ≡ true =
        All-at (λ x. is_before cursor x ≡ true) rest (keep-passes (is_before cursor) sorted)
          c.is_row in
      (
        key c.row,
        rw (lt→ltb limit (length rest) l) c.is_last,
        sym (
              keep-implied (is_before (some (key c.row))) (is_before cursor) sorted
                (λ z b. is_before_trans cursor c.row z shown b))
            ∙ c.rest,
      )

  passes_without : (xs : List A) → All (λ x. is_before none x ≡ true) xs
  passes_without [] = tt
  passes_without (x ∷ xs) = (refl, passes_without xs)

  length-insert_by : (x : A) (xs : List A) → length (insert_by newest_first x xs) ≡ suc (length xs)
  unfolding insert_by
  length-insert_by x [] = refl
  length-insert_by x (y ∷ xs) = elim (Bool-cases (newest_first x y)) [
    | inl t ↦ rw t
    | inr f ↦ rw f (ap suc (length-insert_by x xs))
  ]

  -- Without a cursor every row remains.
  pub remaining-none : (rows : List A) → remaining none rows ≡ sort_by newest_first rows
  remaining-none rows = keep_whole (is_before none) (sort_by newest_first rows) (passes_without _)

  pub length-sort_by : (rows : List A) → length (sort_by newest_first rows) ≡ length rows
  unfolding sort_by
  length-sort_by [] = refl
  length-sort_by (x ∷ rows) =
      length-insert_by x (sort_by newest_first rows) ∙ ap suc (length-sort_by rows)

  -- Page after page, a reader sees every row before the cursor, newest first, and each once.
  pub pages-remaining :
      (fuel limit : ℕ) (cursor : Option Key) (rows : List A)
      → 1 ≤ limit
      → HasKeys rows
      → length (remaining cursor rows) < fuel
      → pages fuel limit cursor rows ≡ remaining cursor rows
  unfolding pages
  pages-remaining zero limit cursor rows h k l = absurd (omega (arith, l))
  pages-remaining (suc fuel) limit cursor rows h k l =
      let rest = remaining cursor rows in
      elim (Bool-cases (ltb limit (length rest))) [
        | inl more ↦
            (let (c, e, r) = cut-remaining limit cursor rows h k (ltb→lt _ _ more) in
              rw (page-remaining limit cursor rows, e)
                (ap (λ l. take limit rest ++ l)
                    (pages-remaining fuel limit (some c) rows h k
                        (omega (arith, ap length r, length-drop limit rest, ltb→lt _ _ more))
                      ∙ r)
                  ∙ take-append-drop limit rest))
        | inr last ↦
            rw (page-remaining limit cursor rows, last)
              (append-nil (take limit rest) ∙ take_all limit rest (ground (arith, last)))
      ]
