-- ===== src/Memory/Runs.antt =====
-- Any sequence of writes and restores, by any users, is one of the histories of the users.
use latest_poseidon.Prelude.{
  ℕ, ◌≡◌, refl, subst, ap, ◌∙◌, inl, inr, String, List, [], ◌∷◌, Result, ok, err, Result-cases,
  Bool-cases, arith, keep, sort_by, insert_by, ◌==◌, if◌then◌else◌,
}
use latest_poseidon.Memory.{
  Entry, Author, user, Version, MemoryError, Settings, is_users, newer, versions_of, check_entries,
  write_version, find_version, restore,
}
use latest_poseidon.Memory.Numbering.{IsMemory}
use latest_poseidon.Memory.Histories.{
  History, view, extend, write_version-ok, write_version-err, written-extend, written-IsMemory,
}

-- A call of the store, with the settings and the time that it reads.
pub data Call : Type 0 where
  writes : Settings → String → List Entry → Author → ℕ → Call
  restores : Settings → String → ℕ → ℕ → Call

-- The table after a call; a transaction that raises is rolled back.
abbrev pub table_after : Result MemoryError (Version × List Version) → List Version → List Version
table_after (ok (v, table')) table = table'
table_after (err e) table = table

unfoldable pub call : Call → List Version → List Version
call (writes settings u entries author now) table =
    table_after (write_version settings u entries author now table) table
call (restores settings u n now) table = table_after (restore settings u n now table table) table

unfoldable pub run : List Call → List Version → List Version
run [] table = table
run (c ∷ cs) table = run cs (call c table)

-- A write to a history, if its entries pass the checks.
abbrev pub extend_if :
    Result MemoryError (Unit {0}) → Settings → History → String → List Entry → Author → ℕ → History
extend_if (ok checked) settings h u entries author now = extend settings h u entries author now
extend_if (err e) settings h u entries author now = h

abbrev pub spec_write : Settings → String → List Entry → Author → ℕ → History → History
spec_write settings u entries author now h =
    extend_if (check_entries settings entries) settings h u entries author now

-- A restore writes the entries of the version of the history, if there is one.
abbrev pub spec_restore : Result MemoryError Version → Settings → String → ℕ → History → History
spec_restore (ok v) settings u now h = spec_write settings u v.entries user now h
spec_restore (err e) settings u now h = h

unfoldable pub spec_call : Call → History → History
spec_call (writes settings u entries author now) h = spec_write settings u entries author now h
spec_call (restores settings u n now) h = spec_restore (find_version n (h u)) settings u now h

-- The same calls, on the histories.
unfoldable pub replay : List Call → History → History
replay [] h = h
replay (c ∷ cs) h = replay cs (spec_call c h)

find_version-insert_by :
    (n : ℕ) (v : Version) (vs : List Version)
    → find_version n (insert_by newer v vs) ≡ find_version n (v ∷ vs)
unfolding insert_by find_version
find_version-insert_by n v [] = refl
find_version-insert_by n v (w ∷ vs) = elim (Bool-cases (newer v w)) [
  | inl t ↦ rw t
  | inr f ↦ rw (f, find_version-insert_by n v vs) (ground (arith, f))
]

find_version-cons :
    (n : ℕ) (v : Version) (vs ws : List Version)
    → find_version n vs ≡ find_version n ws
    → find_version n (v ∷ vs) ≡ find_version n (v ∷ ws)
unfolding find_version
find_version-cons n v vs ws h = ap (λ r. if v.version == n then ok v else r) h

find_version-sort_by :
    (n : ℕ) (vs : List Version) → find_version n (sort_by newer vs) ≡ find_version n vs
unfolding sort_by
find_version-sort_by n [] = refl
find_version-sort_by n (v ∷ vs) =
    find_version-insert_by n v (sort_by newer vs)
    ∙ find_version-cons n v (sort_by newer vs) vs (find_version-sort_by n vs)

-- The version that a restore finds is that of the history.
pub find_version-view :
    (n : ℕ) (u : String) (table : List Version)
    → find_version n (view table u) ≡ find_version n (keep (is_users u) table)
unfolding versions_of
find_version-view n u table = find_version-sort_by n (keep (is_users u) table)

-- The table holds the memory of each user, and shows the history.
abbrev pub Shows : List Version → History → Type 0
Shows table h = IsMemory table × (view table ≡ h)

write-Shows :
    (settings : Settings) (u : String) (entries : List Entry) (author : Author) (now : ℕ)
    (table : List Version)
    → IsMemory table
    → Shows
        (table_after (write_version settings u entries author now table) table)
        (spec_write settings u entries author now (view table))
write-Shows settings u entries author now table m =
    elim (Result-cases (check_entries settings entries)) [
      | inl (tt, e) ↦
          rw (write_version-ok settings u entries author now table e, e)
            (
              written-IsMemory settings u entries author now table m,
              written-extend settings u entries author now table m,
            )
      | inr (x, e) ↦ rw (write_version-err settings u entries author now table e, e) (m, refl)
    ]

pub restore-found :
    (settings : Settings) (u : String) (n now : ℕ) (seen table : List Version) {v : Version}
    → find_version n (keep (is_users u) seen) ≡ ok v
    → restore settings u n now seen table ≡ write_version settings u v.entries user now table
unfolding restore
restore-found settings u n now seen table h = rw h

pub restore-missing :
    (settings : Settings) (u : String) (n now : ℕ) (seen table : List Version) {e : MemoryError}
    → find_version n (keep (is_users u) seen) ≡ err e
    → restore settings u n now seen table ≡ err e
unfolding restore
restore-missing settings u n now seen table h = rw h

call-Shows :
    (c : Call) (table : List Version)
    → IsMemory table
    → Shows (call c table) (spec_call c (view table))
unfolding call spec_call
call-Shows (writes settings u entries author now) table m =
    write-Shows settings u entries author now table m
call-Shows (restores settings u n now) table m =
    elim (Result-cases (find_version n (keep (is_users u) table))) [
      | inl (v, e) ↦
          rw (restore-found settings u n now table table e, find_version-view n u table, e)
            (write-Shows settings u v.entries user now table m)
      | inr (x, e) ↦
          rw (restore-missing settings u n now table table e, find_version-view n u table, e)
            (m, refl)
    ]

-- From a table that is numbered without a gap for each user, any sequence of writes and restores, by
-- any users and with any settings, leaves such a table, and shows to each user the history that the
-- same calls give: an accepted write puts a version in front, numbered one above the newest, with the
-- entries, author and time of the call, of which the newest `memory_keep_versions` are retained (all,
-- if that is 0); an accepted restore does so with the entries of the old version and the user as the
-- author; a call that is refused, and one of another user, changes nothing.
pub run-Shows :
    (cs : List Call) (table : List Version)
    → IsMemory table
    → Shows (run cs table) (replay cs (view table))
unfolding run replay
run-Shows [] table m = (m, refl)
run-Shows (c ∷ cs) table m =
    let (m', e) = call-Shows c table m in
    subst (λ h. Shows (run cs (call c table)) (replay cs h)) e (run-Shows cs (call c table) m')
