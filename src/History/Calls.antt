-- ===== src/History/Calls.antt =====
-- A sequence of calls of the two stores of what a conversation keeps between turns.
pub mod Rows
pub mod Same
pub mod Replaced
use latest_poseidon.Prelude.{ℕ, ◌≡◌, String, Bool, Option, some, List, [], ◌∷◌, Result, ok, err}
use latest_poseidon.Calendar.{Error}
use latest_poseidon.Slots.{ConversationSlots}
use latest_poseidon.History.{HistoryError}
use latest_poseidon.History.Slots.{CanStore}
use latest_poseidon.History.State.{
  State, StateRow, read_row, get as db_get, put as db_put, next_turn_index as db_next_turn_index,
  get_brief_done as db_get_brief_done, set_brief_done as db_set_brief_done,
}
use latest_poseidon.History.Dicts.{
  ConversationStateStore, get, put, next_turn_index, get_brief_done, set_brief_done,
}

-- A call of a store, with the id of a conversation.
pub data Call : Type 0 where
  gets next_turn gets_brief : String → Call
  puts : String → ConversationSlots → Call
  sets_brief : String → Bool → Call

-- What a call returns, or that it raises.
pub data Answer : Type 0 where
  slots : ConversationSlots → Answer
  index : ℕ → Answer
  flag : Bool → Answer
  nothing raises : Answer

abbrev pub slots_answer : Result Error ConversationSlots → Answer
slots_answer (ok s) = slots s
slots_answer (err e) = raises

abbrev pub index_answer :
    Result HistoryError (ℕ × List StateRow) → List StateRow → Answer × List StateRow
index_answer (ok (n, table')) table = (index n, table')
index_answer (err e) table = (raises, table)

abbrev pub id_of : Call → String
id_of (gets id) = id
id_of (next_turn id) = id
id_of (gets_brief id) = id
id_of (puts id s) = id
id_of (sets_brief id b) = id

-- The dates of the slots that are put are possible.
abbrev pub CanPut : Call → Type 0
CanPut (puts id s) = CanStore s
CanPut c = Unit {0}

-- A call of the dicts.
unfoldable pub call : Call → ConversationStateStore → Answer × ConversationStateStore
call (gets id) store = (slots (get id store), store)
call (next_turn id) store = let r = next_turn_index id store in (index r.0, r.1)
call (gets_brief id) store = (flag (get_brief_done id store), store)
call (puts id s) store = (nothing, put id s store)
call (sets_brief id b) store = (nothing, set_brief_done id b store)

unfoldable pub run : List Call → ConversationStateStore → List Answer
run [] store = []
run (c ∷ cs) store = let r = call c store in r.0 ∷ run cs r.1

-- A row that the user sees.
abbrev pub HasRow : String → String → List StateRow → Type 0
HasRow user id table = (o : Option State) × (read_row user id table ≡ some o)

module _ (parse_uuid : String → Option String) (user : String) where
  -- A call of the table.
  unfoldable pub db_call : Call → List StateRow → Answer × List StateRow
  db_call (gets id) table = (slots_answer (db_get parse_uuid user id table), table)
  db_call (next_turn id) table = index_answer (db_next_turn_index parse_uuid user id table) table
  db_call (gets_brief id) table = (flag (db_get_brief_done parse_uuid user id table), table)
  db_call (puts id s) table = (nothing, db_put parse_uuid user id s table)
  db_call (sets_brief id b) table = (nothing, db_set_brief_done parse_uuid user id b table)

  unfoldable pub db_run : List Call → List StateRow → List Answer
  db_run [] table = []
  db_run (c ∷ cs) table = let r = db_call c table in r.0 ∷ db_run cs r.1

  -- A call for a conversation that the user sees, by the canonical text of its id.
  pub record IsFor (table : List StateRow) (c : Call) : Type 0 where
    pub is_canonical : parse_uuid (id_of c) ≡ some (id_of c)
    pub has_row : HasRow user (id_of c) table
    pub can_put : CanPut c
