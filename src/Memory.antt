-- ===== src/Memory.antt =====
-- backend/poseidon/core/personalization/memory.py: the memory of each user, a table of numbered versions
-- that is only appended to and pruned. A method is a function of the table; a transaction that raises
-- leaves the table as it was. The lock that `write_version` takes makes its transactions of one user
-- follow one another, so each is one step.
pub mod Numbering
pub mod Histories
pub mod Runs
pub mod Accepts
pub mod Examples
use latest_poseidon.Prelude.{
  ℕ, ◌+◌, String, str_eq, Bool, true, false, ◌&&◌, ◌||◌, not, Option, none, some, List, [], ◌∷◌,
  ◌++◌, map, length, codes, Result, ok, err, ◌>>=◌, ◌>>◌, leb, ◌==◌, max, if◌then◌else◌, keep,
  sort_by,
}
use latest_poseidon.AgentLoop.Types.{Text}
use latest_poseidon.AgentLoop.Content.{join, newline, is_space}

-- A value of an entry, which is JSON: a text, or another value that is true to Python, with its `str`. A
-- key that is missing reads as the empty text, as any value does that is false to Python.
pub data Field : Type 0 where
  text other : String → Field

abbrev pub shown : Field → String
shown (text s) = s
shown (other s) = s

-- bool(field)
abbrev pub is_truthy : Field → Bool
is_truthy (text s) = not (str_eq s "")
is_truthy (other s) = true

-- An entry; `kind` is its `type`.
pub record Entry : Type 0 where
  pub kind : Field
  pub statement : Field
  pub source_conversation_id : Field
  pub at : Field

pub data Author : Type 0 where
  user distiller : Author

-- A row of `user_memory`.
pub record Version : Type 0 where
  pub user_sub : String
  pub version : ℕ
  pub entries : List Entry
  pub created_by : Author
  pub created_at : ℕ

-- `MemoryValidationError` for its three reasons, `MemoryTooLarge`, `LookupError`, and the duplicate key
-- of the table.
pub data MemoryError : Type 0 where
  missing_field unknown_type blank_statement too_large no_such_version duplicate_version :
      MemoryError

-- The settings that `write_version` reads; a number below 0 of versions to keep is read as 0 is.
pub record Settings : Type 0 where
  pub memory_max_chars : ℕ
  pub memory_keep_versions : ℕ

-- entry_type in _ENTRY_TYPES. A list or a dict, for which the code raises `TypeError`, is refused like any
-- other value that is no type.
abbrev pub is_entry_type : Field → Bool
is_entry_type (text s) =
    str_eq s "preference" || (str_eq s "scope" || (str_eq s "fact" || str_eq s "correction"))
is_entry_type (other s) = false

-- not text.strip()
abbrev pub is_blank : Text → Bool
is_blank [] = true
is_blank (c ∷ t) = is_space c && is_blank t

abbrev pub check : Bool → MemoryError → Result MemoryError (Unit {0})
check true e = ok tt
check false e = err e

-- The loop of `_validate_entries` at one entry.
unfoldable pub validate_entry : Entry → Result MemoryError (Unit {0})
validate_entry e =
    check
      (is_truthy e.kind
        && (is_truthy e.statement && (is_truthy e.source_conversation_id && is_truthy e.at)))
      missing_field
    >> (check (is_entry_type e.kind) unknown_type
        >> check (not (is_blank (codes (shown e.statement)))) blank_statement)

-- `_validate_entries`
unfoldable pub validate_entries : List Entry → Result MemoryError (Unit {0})
validate_entries [] = ok tt
validate_entries (e ∷ es) = validate_entry e >> validate_entries es

-- - [type] statement (source: source_conversation_id, at: at)
unfoldable pub render_entry : Entry → Text
render_entry e =
    codes "- ["
    ++ (codes (shown e.kind)
        ++ (codes "] "
            ++ (codes (shown e.statement)
                ++ (codes " (source: "
                    ++ (codes (shown e.source_conversation_id)
                        ++ (codes ", at: " ++ (codes (shown e.at) ++ codes ")")))))))

-- `_render_entries_markdown`
unfoldable pub render_entries_markdown : List Entry → Text
render_entries_markdown entries = join (newline ∷ []) (map render_entry entries)

-- WHERE user_sub = :user_sub
abbrev pub is_users : String → Version → Bool
is_users u v = str_eq v.user_sub u

-- ORDER BY version DESC
abbrev pub newer : Version → Version → Bool
newer v w = leb w.version v.version

-- The versions of a user, newest first: the rows of `_LIST_VERSIONS_SQL`.
unfoldable pub versions_of : String → List Version → List Version
versions_of u table = sort_by newer (keep (is_users u) table)

abbrev pub first : List Version → Option Version
first [] = none
first (v ∷ vs) = some v

-- `get_current`: `_GET_CURRENT_SQL`, the first row.
unfoldable pub get_current : String → List Version → Option Version
unfolding versions_of
get_current u table = first (versions_of u table)

-- `list_versions`: the version, its author, its time, and the number of its entries.
unfoldable pub list_versions : String → List Version → List (ℕ × Author × ℕ × ℕ)
unfolding versions_of
list_versions u table =
    map (λ v. (v.version, v.created_by, v.created_at, length v.entries)) (versions_of u table)

abbrev pub maximum : List Version → ℕ
maximum [] = 0
maximum (v ∷ vs) = max v.version (maximum vs)

-- SELECT COALESCE(MAX(version), 0)
unfoldable pub max_version : String → List Version → ℕ
max_version u table = maximum (keep (is_users u) table)

-- The primary key (user_sub, version) of a row is in the table.
unfoldable pub has_key : Version → List Version → Bool
has_key v [] = false
has_key v (w ∷ table) = (str_eq w.user_sub v.user_sub && w.version == v.version) || has_key v table

-- `_INSERT_VERSION_SQL`
unfoldable pub insert_version : Version → List Version → Result MemoryError (List Version)
insert_version v table = if has_key v table then err duplicate_version else ok (v ∷ table)

-- WHERE user_sub = :user_sub AND version <= :cutoff, with cutoff = next_version - keep_versions.
unfoldable pub is_stale : String → ℕ → ℕ → Version → Bool
is_stale u kept next v = str_eq v.user_sub u && leb (v.version + kept) next

-- `_PRUNE_OLD_VERSIONS_SQL`, where the setting is not below 1.
unfoldable pub prune : String → ℕ → ℕ → List Version → List Version
prune u kept next table =
    if leb 1 kept then keep (λ v. not (is_stale u kept next v)) table else table

-- What `write_version` checks before its transaction.
unfoldable pub check_entries : Settings → List Entry → Result MemoryError (Unit {0})
check_entries settings entries =
    validate_entries entries
    >> check (leb (length (render_entries_markdown entries)) settings.memory_max_chars) too_large

-- `write_version`: the new row, and the table.
unfoldable pub write_version :
    Settings
    → String
    → List Entry
    → Author
    → ℕ
    → List Version
    → Result MemoryError (Version × List Version)
write_version settings u entries author now table = do
  checked ← check_entries settings entries
  let next = max_version u table + 1
  let row : Version = record {
    user_sub = u;
    version = next;
    entries = entries;
    created_by = author;
    created_at = now;
  }
  inserted ← insert_version row table
  ok (row, prune u settings.memory_keep_versions next inserted)

-- `_GET_VERSION_SQL`
unfoldable pub find_version : ℕ → List Version → Result MemoryError Version
find_version n [] = err no_such_version
find_version n (v ∷ vs) = let rest = find_version n vs in if v.version == n then ok v else rest

-- `restore`, with the table of its lookup and that of its second transaction.
unfoldable pub restore :
    Settings
    → String
    → ℕ
    → ℕ
    → List Version
    → List Version
    → Result MemoryError (Version × List Version)
restore settings u n now seen table = do
  v ← find_version n (keep (is_users u) seen)
  write_version settings u v.entries user now table

abbrev pub render_current : Option Version → Text
render_current none = []
render_current (some v) = render_entries_markdown v.entries

-- `render_markdown`
unfoldable pub render_markdown : String → List Version → Text
render_markdown u table = render_current (get_current u table)
