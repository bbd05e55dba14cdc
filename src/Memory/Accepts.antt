-- ===== src/Memory/Accepts.antt =====
-- Which entries the store accepts, and that what it accepts is what the user then has.
use latest_poseidon.Prelude.{
  not-true, ℕ, zero, suc, ◌+◌, ◌≤◌, ◌≡◌, ◌≢◌, ◌⊎◌, ◌↔◌, refl, sym, subst, ap, ◌∙◌, inl, inr, String,
  str_eq, eq_iff, Bool, true, false, ◌&&◌, some, List, [], ◌∷◌, All, length, codes, leb, leb→le,
  Result, ok, err, Result-cases, Bool-cases, arith, keep, ◌>>◌,
}
use latest_poseidon.AgentLoop.Types.{Text}
use latest_poseidon.AgentLoop.Content.{is_space}
use latest_poseidon.Memory.{
  Field, text, other, shown, is_truthy, Entry, Author, user, Version, MemoryError, missing_field,
  unknown_type, blank_statement, too_large, Settings, is_entry_type, is_blank, check, is_users,
  versions_of, first, get_current, max_version, validate_entry, validate_entries, check_entries,
  render_entries_markdown, render_current, render_markdown, write_version, find_version, restore,
}
use latest_poseidon.Memory.Numbering.{IsMemory, retain}
use latest_poseidon.Memory.Histories.{
  view, next_version, row_of, row_of-view, written, written-own, write_version-ok,
  write_version-err,
}
use latest_poseidon.Memory.Runs.{restore-found}

-- A character that is no white space.
abbrev pub HasInk : Text → Type 0
HasInk [] = ⊥
HasInk (c ∷ t) = (is_space c ≡ false) ⊎ HasInk t

-- One of the four types of an entry.
abbrev pub IsType : Field → Type 0
IsType k =
    (k ≡ text "preference") ⊎ ((k ≡ text "scope") ⊎ ((k ≡ text "fact") ⊎ (k ≡ text "correction")))

-- An entry as the design asks for it: typed, with a statement that is not blank, and attributed.
pub record IsEntry (e : Entry) : Type 0 where
  pub is_type : IsType e.kind
  pub is_said : HasInk (codes (shown e.statement))
  pub has_source : e.source_conversation_id ≢ text ""
  pub has_time : e.at ≢ text ""

-- What the store accepts under its settings.
abbrev pub Accepts : Settings → List Entry → Type 0
Accepts settings entries =
    All IsEntry entries × (length (render_entries_markdown entries) ≤ settings.memory_max_chars)

is_blank-false : (t : Text) → is_blank t ≡ false → HasInk t
is_blank-false [] h = absurd (cc h)
is_blank-false (c ∷ t) h = elim (Bool-cases (is_space c)) [
  | inl s ↦ inr (is_blank-false t (rw s at h))
  | inr n ↦ inl n
]

HasInk-is_blank : (t : Text) → HasInk t → is_blank t ≡ false
HasInk-is_blank [] h = elim h [ ]
HasInk-is_blank (c ∷ t) (inl n) = rw n
HasInk-is_blank (c ∷ t) (inr h) = rw (HasInk-is_blank t h) (ground arith)

is_truthy_ne : (f : Field) → is_truthy f ≡ true → f ≢ text ""
is_truthy_ne f h e = absurd (cc (subst (λ g. is_truthy g ≡ true) e h))

ne-is_truthy : (f : Field) → f ≢ text "" → is_truthy f ≡ true
ne-is_truthy (text s) h = elim (Bool-cases (str_eq s "")) [
  | inl t ↦ absurd (h (ap text ((eq_iff s "").0 t)))
  | inr f ↦ rw f
]
ne-is_truthy (other s) h = refl

is_entry_type-IsType : (k : Field) → is_entry_type k ≡ true → IsType k
is_entry_type-IsType (text s) h = elim (Bool-cases (str_eq s "preference")) [
  | inl a ↦ inl (ap text ((eq_iff s "preference").0 a))
  | inr a ↦ elim (Bool-cases (str_eq s "scope")) [
    | inl b ↦ inr (inl (ap text ((eq_iff s "scope").0 b)))
    | inr b ↦ elim (Bool-cases (str_eq s "fact")) [
      | inl c ↦ inr (inr (inl (ap text ((eq_iff s "fact").0 c))))
      | inr c ↦ inr (inr (inr (ap text ((eq_iff s "correction").0 (ground (arith, h, a, b, c))))))
    ]
  ]
]
is_entry_type-IsType (other s) h = absurd (cc h)

IsType-is_entry_type : (k : Field) → IsType k → (is_entry_type k ≡ true) × (is_truthy k ≡ true)
IsType-is_entry_type k (inl e) = rw e (refl, refl)
IsType-is_entry_type k (inr (inl e)) = rw e (refl, refl)
IsType-is_entry_type k (inr (inr (inl e))) = rw e (refl, refl)
IsType-is_entry_type k (inr (inr (inr e))) = rw e (refl, refl)

HasInk-ne : (f : Field) → HasInk (codes (shown f)) → f ≢ text ""
HasInk-ne f h e = subst (λ g. HasInk (codes (shown g))) e h

check-true : (b : Bool) (e : MemoryError) → check b e ≡ ok tt → b ≡ true
check-true true e h = refl
check-true false e h = absurd (cc h)

>>-ok : (r s : Result MemoryError (Unit {0})) → (r >> s) ≡ ok tt → (r ≡ ok tt) × (s ≡ ok tt)
>>-ok (ok u) s h = (refl, h)
>>-ok (err e) s h = absurd (cc h)

and_true : (a b : Bool) → (a && b) ≡ true → (a ≡ true) × (b ≡ true)
and_true true b h = (refl, h)
and_true false b h = absurd (cc h)

validate_entry-IsEntry : (e : Entry) → validate_entry e ≡ ok tt → IsEntry e
unfolding validate_entry
validate_entry-IsEntry e h =
    let (a, h1) = >>-ok _ _ h in
    let (b, c) = >>-ok _ _ h1 in
    let (_, a1) = and_true _ _ (check-true _ missing_field a) in
    let (_, a2) = and_true _ _ a1 in
    let (s, t) = and_true _ _ a2 in
    record {
      is_type = is_entry_type-IsType e.kind (check-true _ unknown_type b);
      is_said = is_blank-false _ (not-true _ (check-true _ blank_statement c));
      has_source = is_truthy_ne e.source_conversation_id s;
      has_time = is_truthy_ne e.at t;
    }

IsEntry-validate_entry : (e : Entry) → IsEntry e → validate_entry e ≡ ok tt
unfolding validate_entry
IsEntry-validate_entry e h =
    let (k, t) = IsType-is_entry_type e.kind h.is_type in
    rw (
      t,
      ne-is_truthy e.statement (HasInk-ne e.statement h.is_said),
      ne-is_truthy e.source_conversation_id h.has_source,
      ne-is_truthy e.at h.has_time,
      k,
      HasInk-is_blank (codes (shown e.statement)) h.is_said,
    )

validate_entries-All : (es : List Entry) → validate_entries es ≡ ok tt → All IsEntry es
unfolding validate_entries
validate_entries-All [] h = tt
validate_entries-All (e ∷ es) h =
    let (a, b) = >>-ok (validate_entry e) (validate_entries es) h in
    (validate_entry-IsEntry e a, validate_entries-All es b)

All-validate_entries : (es : List Entry) → All IsEntry es → validate_entries es ≡ ok tt
unfolding validate_entries
All-validate_entries [] h = refl
All-validate_entries (e ∷ es) h = rw (IsEntry-validate_entry e h.0) (All-validate_entries es h.1)

-- What is checked before a write is what the store accepts.
pub check_entries-Accepts :
    (settings : Settings) (es : List Entry)
    → (check_entries settings es ≡ ok tt) ↔ Accepts settings es
unfolding check_entries
check_entries-Accepts settings es = (
  λ h.
      let (a, b) = >>-ok (validate_entries es) _ h in
      (validate_entries-All es a, leb→le _ _ (check-true _ too_large b)),
  λ a.
      let fits : leb (length (render_entries_markdown es)) settings.memory_max_chars ≡ true =
        ground (arith, a.1) in
      rw (All-validate_entries es a.0, fits),
)

-- A write returns a row exactly if the store accepts its entries: each has one of the four types, a
-- statement that is not blank, and a source and a time that are not empty (white space will do), and
-- together they render to at most `memory_max_chars` characters. On any table, so no write ever meets a
-- key that is taken.
pub write_version_iff :
    (settings : Settings) (u : String) (entries : List Entry) (author : Author) (now : ℕ)
    (table : List Version)
    → ((r : Version × List Version) × (write_version settings u entries author now table ≡ ok r))
      ↔ Accepts settings entries
write_version_iff settings u entries author now table = (
  λ (r, h). elim (Result-cases (check_entries settings entries)) [
    | inl (tt, e) ↦ (check_entries-Accepts settings entries).0 e
    | inr (x, e) ↦ absurd (cc (h, write_version-err settings u entries author now table e))
  ],
  λ a. (
    _,
    write_version-ok settings u entries author now table
        ((check_entries-Accepts settings entries).1 a),
  ),
)

first-retain : (k : ℕ) (v : Version) (vs : List Version) → first (retain k (v ∷ vs)) ≡ some v
first-retain zero v vs = refl
first-retain (suc k) v vs = refl

-- The row that a write returns is what the user then has.
pub written-current :
    (settings : Settings) (u : String) (entries : List Entry) (author : Author) (now : ℕ)
    (table : List Version)
    → IsMemory table
    → get_current u (written settings u entries author now table)
      ≡ some (row_of u entries author now table)
unfolding get_current
written-current settings u entries author now table m =
    ap first (written-own settings u entries author now table m)
    ∙ first-retain settings.memory_keep_versions (next_version (view table) u entries author now)
        (versions_of u table)
    ∙ ap (λ v. some v) (sym (row_of-view u entries author now table))

render_markdown-some :
    (u : String) (table : List Version) {v : Version}
    → get_current u table ≡ some v
    → render_markdown u table ≡ render_entries_markdown v.entries
unfolding render_markdown
render_markdown-some u table h = ap render_current h

-- The table after a restore of a version: its entries are current again, in a new row by the user.
pub record IsRestored (settings : Settings) (u : String) (now : ℕ) (v : Version)
    (table table' : List Version) (row : Version) : Type 0 where
  pub current : get_current u table' ≡ some row
  pub same_entries : row.entries ≡ v.entries
  pub by_user : row.created_by ≡ user
  pub numbered : row.version ≡ max_version u table + 1
  pub injected : render_markdown u table' ≡ render_entries_markdown v.entries
  pub fits : length (render_markdown u table') ≤ settings.memory_max_chars

-- A restore of a version that the user's table held when it was looked up, and whose entries the store
-- still accepts, returns. Whatever was written in between, its entries are then current in a new row,
-- numbered one above the greatest version, by the user even where the distiller wrote the old one; and
-- what is injected into prompts is their rendered form, which is within the cap.
pub restore-IsRestored :
    (settings : Settings) (u : String) (n now : ℕ) (seen table : List Version) {v : Version}
    → IsMemory table
    → find_version n (keep (is_users u) seen) ≡ ok v
    → Accepts settings v.entries
    → (row : Version) × (table' : List Version) × (restore settings u n now seen table
        ≡ ok (row, table'))
      × IsRestored settings u now v table table' row
restore-IsRestored settings u n now seen table {v} m h a =
    let current = written-current settings u v.entries user now table m in
    let injected = render_markdown-some u (written settings u v.entries user now table) current in
    (
      row_of u v.entries user now table,
      written settings u v.entries user now table,
      restore-found settings u n now seen table h
          ∙ write_version-ok settings u v.entries user now table
              ((check_entries-Accepts settings v.entries).1 a),
      record {
        current = current;
        same_entries = refl;
        by_user = refl;
        numbered = refl;
        injected = injected;
        fits = subst (λ t. length t ≤ settings.memory_max_chars) (sym injected) a.1;
      },
    )
