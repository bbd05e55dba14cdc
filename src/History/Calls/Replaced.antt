-- ===== src/History/Calls/Replaced.antt =====
-- The store that replaced the other: `DbStateStore` answers as `ConversationStateStore` does.
use latest_poseidon.Prelude.{
  ◌+◌, ◌≡◌, refl, sym, subst, ap, ◌∙◌, inl, inr, String, str_eq, eq_iff, false, Option, none, some,
  List, [], ◌∷◌, All, All-weaken, ap₂, ok, Bool-cases, lookup,
}
use latest_poseidon.History.Slots.{slots_to_json}
use latest_poseidon.History.State.{
  State, StateRow, coalesce, is_row, update_state, read_row, with_slots, with_brief_done,
  with_next_turn, get as db_get, put as db_put, next_turn_index as db_next_turn_index,
  get_brief_done as db_get_brief_done, set_brief_done as db_set_brief_done,
}
use latest_poseidon.History.Dicts.{
  ConversationStateStore, get, put, next_turn_index, get_brief_done, set_brief_done,
}
use latest_poseidon.History.Calls.{
  Call, gets, next_turn, gets_brief, puts, sets_brief, index, flag, slots_answer, id_of, call, run,
  db_call, db_run, HasRow, IsFor,
}
use latest_poseidon.History.Calls.Rows.{
  read_row-update_state, read_row-update_state_other, HasRow-update_state,
}
use latest_poseidon.History.Calls.Same.{
  Same, put-Same, put-Same_other, next_turn_index-Same, next_turn_index-Same_other,
  set_brief_done-Same, set_brief_done-Same_other,
}

module _ (parse_uuid : String → Option String) (user : String) where
  abbrev Agree : List StateRow → ConversationStateStore → Type 0
  Agree table store =
      (id : String) (o : Option State) → read_row user id table ≡ some o → Same o id store

  -- An update of one conversation in both stores.
  Agree-update_state :
      (id : String) (f : Option State → State) (table : List StateRow)
      (store store' : ConversationStateStore)
      → HasRow user id table
      → ((o : Option State) → Same o id store → Same (some (f o)) id store')
      → ((j : String) (o : Option State) → str_eq id j ≡ false → Same o j store → Same o j store')
      → Agree table store
      → Agree (update_state user id f table) store'
  Agree-update_state id f table store store' (q, r) same others a j o h =
      elim (Bool-cases (str_eq id j)) [
        | inl t ↦
            (let is_id : id ≡ j = (eq_iff id j).0 t in
              let is_new : some (f q) ≡ o = cc (
                read_row-update_state user id f table q r,
                subst (λ k. read_row user k (update_state user id f table) ≡ some o) (sym is_id) h,
              ) in
              subst (λ k. Same o k store') is_id
                (subst (λ p. Same p id store') is_new (same q (a id q r))))
        | inr n ↦ others j o n (a j o (sym (read_row-update_state_other user id j f table n) ∙ h))
      ]

  next_turn_index-ok :
      (id : String) (table : List StateRow) (o : Option State)
      → parse_uuid id ≡ some id
      → read_row user id table ≡ some o
      → db_next_turn_index parse_uuid user id table
        ≡ ok (coalesce (with_next_turn o).turn_index 0, update_state user id with_next_turn table)
  unfolding db_next_turn_index
  next_turn_index-ok id table o h r = rw (h, r)

  -- What a call does in both stores.
  record Step (c : Call) (table : List StateRow) (store : ConversationStateStore) : Type 0 where
    answer : (db_call parse_uuid user c table).0 ≡ (call c store).0
    agree : Agree (db_call parse_uuid user c table).1 (call c store).1
    rows : (j : String) → HasRow user j table → HasRow user j (db_call parse_uuid user c table).1

  step :
      (c : Call) (table : List StateRow) (store : ConversationStateStore)
      → IsFor parse_uuid user table c
      → Agree table store
      → Step c table store
  unfolding db_call call db_get db_put next_turn_index db_get_brief_done db_set_brief_done
  step (gets id) table store i a =
      let (o, r) = i.has_row in
      record {
        answer = rw (i.is_canonical, r) (ap slots_answer (a id o r).slots);
        agree = a;
        rows = λ j h. h;
      }
  step (gets_brief id) table store i a =
      let (o, r) = i.has_row in
      record {
        answer = rw (i.is_canonical, r) (ap (λ b. flag b) (a id o r).brief);
        agree = a;
        rows = λ j h. h;
      }
  step (next_turn id) table store i a =
      let (o, r) = i.has_row in
      record {
        answer =
            rw (next_turn_index-ok id table o i.is_canonical r)
              (ap (λ n. index (n + 1)) (a id o r).index);
        agree = rw (next_turn_index-ok id table o i.is_canonical r) (
            Agree-update_state id with_next_turn table store (next_turn_index id store).1 i.has_row
              (λ o h. next_turn_index-Same id store o h)
              (λ j o n h. next_turn_index-Same_other id j store o n h) a);
        rows = λ j h.
            rw (next_turn_index-ok id table o i.is_canonical r)
              (HasRow-update_state user id j with_next_turn table h);
      }
  step (puts id s) table store i a = record {
    answer = refl;
    agree = rw i.is_canonical (
        Agree-update_state id (with_slots (slots_to_json s)) table store (put id s store) i.has_row
          (λ o h. put-Same id s store o i.can_put h) (λ j o n h. put-Same_other id j s store o n h)
          a);
    rows = λ j h.
        rw i.is_canonical (HasRow-update_state user id j (with_slots (slots_to_json s)) table h);
  }
  step (sets_brief id b) table store i a = record {
    answer = refl;
    agree = rw i.is_canonical (
        Agree-update_state id (with_brief_done b) table store (set_brief_done id b store) i.has_row
          (λ o h. set_brief_done-Same id b store o h)
          (λ j o n h. set_brief_done-Same_other id j b store o n h) a);
    rows = λ j h. rw i.is_canonical (HasRow-update_state user id j (with_brief_done b) table h);
  }

  IsFor-db_call :
      (c : Call) (table : List StateRow) (store : ConversationStateStore)
      → Step c table store
      → (cs : List Call) → All (IsFor parse_uuid user table) cs
      → All (IsFor parse_uuid user (db_call parse_uuid user c table).1) cs
  IsFor-db_call c table store s cs h =
      All-weaken (IsFor parse_uuid user table)
        (IsFor parse_uuid user (db_call parse_uuid user c table).1) cs
        (λ d i. record {
          is_canonical = i.is_canonical;
          has_row = s.rows (id_of d) i.has_row;
          can_put = i.can_put;
        })
        h

  runs-Agree :
      (calls : List Call) (table : List StateRow) (store : ConversationStateStore)
      → All (IsFor parse_uuid user table) calls
      → Agree table store
      → db_run parse_uuid user calls table ≡ run calls store
  unfolding db_run run
  runs-Agree [] table store h a = refl
  runs-Agree (c ∷ calls) table store h a =
      let s = step c table store h.0 a in
      ap₂ (λ x xs. x ∷ xs) s.answer
        (runs-Agree calls (db_call parse_uuid user c table).1 (call c store).1
          (IsFor-db_call c table store s calls h.1) s.agree)

  -- The dicts of a new process.
  abbrev pub new_store : ConversationStateStore
  new_store = record { slots = []; turn_index = []; brief_done = [] }

  read_row-new :
      (id : String) (table : List StateRow) (o : Option State)
      → All (λ r. r.state ≡ none) table
      → read_row user id table ≡ some o
      → none ≡ o
  unfolding read_row
  read_row-new id [] o h e = absurd (cc e)
  read_row-new id (r ∷ table) o h e = elim (Bool-cases (is_row user id r)) [
    | inl t ↦ cc (rw t at e, h.0)
    | inr n ↦ read_row-new id table o h.1 (rw n at e)
  ]

  new-Agree : (table : List StateRow) → All (λ r. r.state ≡ none) table → Agree table new_store
  unfolding get get_brief_done lookup
  new-Agree table h id o r =
      subst (λ p. Same p id new_store) (read_row-new id table o h r)
        (record { slots = refl; index = refl; brief = refl })

  -- The database answers any sequence of calls, in any order and for any of the user's conversations, as
  -- the three dicts in memory do: with the slots that were put last, turn indices that count up from 1,
  -- and the flag that was set last. The conversations are new at first, each call is for a conversation
  -- that the user sees, by the canonical text of its id, and the dates of slots that are put are
  -- possible. The rows of other users may be in the table.
  pub db_run-run :
      (calls : List Call) (table : List StateRow)
      → All (λ r. r.state ≡ none) table
      → All (IsFor parse_uuid user table) calls
      → db_run parse_uuid user calls table ≡ run calls new_store
  db_run-run calls table new h = runs-Agree calls table new_store h (new-Agree table new)
