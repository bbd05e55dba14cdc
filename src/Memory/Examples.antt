-- ===== src/Memory/Examples.antt =====
-- A memory of three writes, and the store's theorems at it.
use latest_poseidon.Prelude.{
  ◌≡◌, refl, inl, ◌↔◌, some, List, [], ◌∷◌, ok, err, arith, keep, sort_by, insert_by,
}
use latest_poseidon.AgentLoop.Content.{join, is_space}
use latest_poseidon.Memory.{
  text, Entry, user, distiller, Version, missing_field, unknown_type, Settings, is_users,
  versions_of, get_current, max_version, validate_entry, validate_entries, check_entries,
  render_entry, render_entries_markdown, has_key, insert_version, is_stale, prune, write_version,
  find_version, restore,
}
use latest_poseidon.Memory.Numbering.{IsMemory}
use latest_poseidon.Memory.Histories.{view}
use latest_poseidon.Memory.Runs.{call, run, replay, writes, restores, Call, Shows, run-Shows}
use latest_poseidon.Memory.Accepts.{Accepts, write_version_iff, IsRestored, restore-IsRestored}

abbrev settings : Settings
settings = record { memory_max_chars = 4000; memory_keep_versions = 2 }

abbrev euros : Entry
euros = record {
  kind = text "preference";
  statement = text "Use euros";
  source_conversation_id = text "c1";
  at = text "2025-05-01";
}

abbrev untyped : Entry
untyped = record euros { kind = text "mood" }

-- Two users write; the third write of the first prunes her first version.
abbrev calls : List Call
calls =
    writes settings "ana" (euros ∷ []) user 1
    ∷ writes settings "ben" (euros ∷ []) distiller 2
    ∷ writes settings "ana" (untyped ∷ []) distiller 3
    ∷ writes settings "ana" [] distiller 4
    ∷ restores settings "ana" 1 5
    ∷ []

empty-IsMemory : IsMemory []
unfolding max_version versions_of keep sort_by
empty-IsMemory u = tt

run-Shows_example : Shows (run calls []) (replay calls (view []))
run-Shows_example = run-Shows calls [] empty-IsMemory

-- The third version, which the restore of the first wrote.
abbrev third : Version
third = record {
  user_sub = "ana";
  version = 3;
  entries = euros ∷ [];
  created_by = user;
  created_at = 5;
}

restored : get_current "ana" (run calls []) ≡ some third
unfolding run call write_version restore check_entries validate_entries validate_entry render_entry
    render_entries_markdown has_key insert_version is_stale prune max_version versions_of
    find_version get_current keep sort_by insert_by is_space join
restored = refl

third-found : find_version 3 (keep (is_users "ana") (run calls [])) ≡ ok third
unfolding run call write_version restore check_entries validate_entries validate_entry render_entry
    render_entries_markdown has_key insert_version is_stale prune max_version find_version keep
    is_space join
third-found = refl

rejected : write_version settings "ana" (untyped ∷ []) user 1 [] ≡ err unknown_type
unfolding write_version check_entries validate_entries validate_entry
rejected = refl

incomplete :
    write_version settings "ana" (record euros { at = text "" } ∷ []) user 1 [] ≡ err missing_field
unfolding write_version check_entries validate_entries validate_entry
incomplete = refl

euros-Accepts : Accepts settings (euros ∷ [])
unfolding render_entries_markdown render_entry is_space join
euros-Accepts = (
  (
    record { is_type = inl refl; is_said = inl refl; has_source = λ h. cc h; has_time = λ h. cc h },
    tt,
  ),
  omega arith,
)

write_version_iff_example :
    ((r : Version × List Version) × (write_version settings "ana" (euros ∷ []) user 1 [] ≡ ok r))
    ↔ Accepts settings (euros ∷ [])
write_version_iff_example = write_version_iff settings "ana" (euros ∷ []) user 1 []

restore-IsRestored_example :
    (row : Version) × (table' : List Version) × (restore settings "ana" 3 6
        (run calls [])
        (run calls [])
      ≡ ok (row, table'))
    × IsRestored settings "ana" 6 third (run calls []) table' row
restore-IsRestored_example =
    restore-IsRestored settings "ana" 3 6 (run calls []) (run calls [])
      (run-Shows calls [] empty-IsMemory).0 third-found euros-Accepts
