-- ===== src/Memory/Histories.antt =====
-- What a user of the store sees: a history for each user, to which a write adds its version.
use latest_poseidon.Prelude.{
  fun_ext, ℕ, ◌+◌, ◌≡◌, refl, sym, subst, ap, ◌∙◌, inl, inr, String, str_eq, eq_iff, false, List,
  ◌∷◌, ok, err, Bool-cases, arith, if◌then◌else◌,
}
use latest_poseidon.Memory.{
  Entry, Author, Version, MemoryError, Settings, versions_of, maximum, max_version, prune,
  check_entries, write_version,
}
use latest_poseidon.Memory.Numbering.{
  Descends, IsMemory, max_version-versions_of, Descends-versions_of, Descends-next,
  insert_version-new, versions_of-own, versions_of-other, retain, versions_of-prune,
  versions_of-prune_other, retain-Descends,
}

-- The versions of each user, newest first.
abbrev pub History : Type 0
History = String → List Version

abbrev pub view : List Version → History
view table u = versions_of u table

-- The next version of a history.
abbrev pub next_version : History → String → List Entry → Author → ℕ → Version
next_version h u entries author now = record {
  user_sub = u;
  version = maximum (h u) + 1;
  entries = entries;
  created_by = author;
  created_at = now;
}

-- The history with a version more, of which the newest are retained; those of other users stay.
abbrev pub extend : Settings → History → String → List Entry → Author → ℕ → History
extend settings h u entries author now u' =
    if str_eq u u'
    then retain settings.memory_keep_versions (next_version h u entries author now ∷ h u)
    else h u'

-- The row and the table of a write that passes its checks.
abbrev pub row_of : String → List Entry → Author → ℕ → List Version → Version
row_of u entries author now table = record {
  user_sub = u;
  version = max_version u table + 1;
  entries = entries;
  created_by = author;
  created_at = now;
}

abbrev pub written : Settings → String → List Entry → Author → ℕ → List Version → List Version
written settings u entries author now table =
    prune u settings.memory_keep_versions (max_version u table + 1)
      (row_of u entries author now table ∷ table)

pub write_version-ok :
    (settings : Settings) (u : String) (entries : List Entry) (author : Author) (now : ℕ)
    (table : List Version)
    → check_entries settings entries ≡ ok tt
    → write_version settings u entries author now table
      ≡ ok (row_of u entries author now table, written settings u entries author now table)
unfolding write_version
write_version-ok settings u entries author now table h =
    rw (h, insert_version-new (row_of u entries author now table) table (omega arith))

pub write_version-err :
    (settings : Settings) (u : String) (entries : List Entry) (author : Author) (now : ℕ)
    (table : List Version) {e : MemoryError}
    → check_entries settings entries ≡ err e
    → write_version settings u entries author now table ≡ err e
unfolding write_version
write_version-err settings u entries author now table h = rw h

module _ (u : String) (entries : List Entry) (author : Author) (now : ℕ)
    (table : List Version) where
  -- The row that is written is the next version of the history.
  pub row_of-view :
      row_of u entries author now table ≡ next_version (view table) u entries author now
  row_of-view =
      ap
        (λ (n : ℕ). record {
          user_sub = u;
          version = n + 1;
          entries = entries;
          created_by = author;
          created_at = now;
        })
        (max_version-versions_of u table)

  pushed :
      versions_of u (row_of u entries author now table ∷ table)
      ≡ row_of u entries author now table ∷ versions_of u table
  pushed = versions_of-own (row_of u entries author now table) table (omega arith)

  pushed-Descends :
      IsMemory table
      → Descends
          (max_version u table + 1)
          (versions_of u (row_of u entries author now table ∷ table))
  pushed-Descends m = subst (Descends (max_version u table + 1)) (sym pushed) (
      Descends-next (max_version u table) (row_of u entries author now table) (versions_of u table)
        refl (m u))

module _ (settings : Settings) (u : String) (entries : List Entry) (author : Author) (now : ℕ)
    (table : List Version) (m : IsMemory table) where
  pub written-own :
      versions_of u (written settings u entries author now table)
      ≡ retain settings.memory_keep_versions
          (next_version (view table) u entries author now ∷ versions_of u table)
  written-own =
      versions_of-prune u settings.memory_keep_versions (max_version u table + 1)
        (row_of u entries author now table ∷ table) (pushed-Descends u entries author now table m)
      ∙ ap (retain settings.memory_keep_versions) (
          pushed u entries author now table
          ∙ ap (λ v. v ∷ versions_of u table) (row_of-view u entries author now table))

  written-other :
      (u' : String)
      → str_eq u u' ≡ false
      → versions_of u' (written settings u entries author now table) ≡ versions_of u' table
  written-other u' h =
      versions_of-prune_other u u' settings.memory_keep_versions (max_version u table + 1)
        (row_of u entries author now table ∷ table) h
      ∙ versions_of-other u' (row_of u entries author now table) table h

  pub written-extend :
      view (written settings u entries author now table)
      ≡ extend settings (view table) u entries author now
  written-extend = fun_ext (λ u'. elim (Bool-cases (str_eq u u')) [
    | inl t ↦ rw t (
        ap (λ x. versions_of x (written settings u entries author now table))
          (sym ((eq_iff u u').0 t))
        ∙ written-own)
    | inr f ↦ rw f (written-other u' f)
  ])

  written-Descends :
      (u' : String)
      → (n : ℕ) × Descends n (versions_of u' (written settings u entries author now table))
  written-Descends u' = elim (Bool-cases (str_eq u u')) [
    | inl t ↦ (
      max_version u table + 1,
      subst
          (λ x.
            Descends (max_version u table + 1)
              (versions_of x (written settings u entries author now table)))
          ((eq_iff u u').0 t)
          (subst (Descends (max_version u table + 1))
            (sym (
              versions_of-prune u settings.memory_keep_versions (max_version u table + 1)
                (row_of u entries author now table ∷ table)
                (pushed-Descends u entries author now table m)))
            (retain-Descends settings.memory_keep_versions (max_version u table + 1) _
              (pushed-Descends u entries author now table m))),
    )
    | inr f ↦ (
      max_version u' table,
      subst (Descends (max_version u' table)) (sym (written-other u' f)) (m u'),
    )
  ]

  pub written-IsMemory : IsMemory (written settings u entries author now table)
  written-IsMemory u' =
      let (n, d) = written-Descends u' in
      Descends-versions_of n u' (written settings u entries author now table) d
