-- ===== src/History/State.antt =====
-- `DbStateStore` of backend/poseidon/core/chat/history.py: what a conversation keeps between turns, in the
-- `state` column of its row, as JSON with three keys.
use latest_poseidon.Prelude.{
  if◌then◌else◌, ◌>>=◌, ℕ, ◌+◌, String, str_eq, Bool, false, ◌&&◌, Option, none, some, List, [],
  ◌∷◌, Result, ok,
}
use latest_poseidon.Calendar.{Error}
use latest_poseidon.Slots.{ConversationSlots, empty_slots}
use latest_poseidon.History.{HistoryError, no_conversation, found}
use latest_poseidon.History.Slots.{Object, slots_to_json, slots_from_json}

-- The JSON of a state; a key may be absent.
pub record State : Type 0 where
  pub slots : Option Object
  pub turn_index : Option ℕ
  pub brief_done : Option Bool

-- A row of `conversations`, of which only the state is used.
pub record StateRow : Type 0 where
  pub id : String
  pub user_sub : String
  pub state : Option State

-- '{}'::jsonb
abbrev pub no_state : State
no_state = record { slots = none; turn_index = none; brief_done = none }

-- coalesce(value, default), and d.get(key, default)
abbrev pub coalesce {ℓ} : {A : Type ℓ} → Option A → A → A
coalesce none d = d
coalesce (some a) d = a

-- The row with an id, if the user sees it.
abbrev pub is_row : String → String → StateRow → Bool
is_row user id r = str_eq r.user_sub user && str_eq r.id id

-- UPDATE conversations SET state = ... WHERE id = :id
unfoldable pub update_state :
    String → String → (Option State → State) → List StateRow → List StateRow
update_state user id f [] = []
update_state user id f (r ∷ rows) =
    (if is_row user id r then record r { state = some (f r.state) } else r)
    ∷ update_state user id f rows

-- SELECT state FROM conversations WHERE id = :id, its first row.
unfoldable pub read_row : String → String → List StateRow → Option (Option State)
read_row user id [] = none
read_row user id (r ∷ rows) =
    let rest = read_row user id rows in if is_row user id r then some r.state else rest

abbrev pub with_slots : Object → Option State → State
with_slots o state = record (coalesce state no_state) { slots = some o }

abbrev pub with_brief_done : Bool → Option State → State
with_brief_done b state = record (coalesce state no_state) { brief_done = some b }

abbrev pub with_next_turn : Option State → State
with_next_turn state =
    let s = coalesce state no_state in record s { turn_index = some (coalesce s.turn_index 0 + 1) }

-- The slots of the state of a row, of a row that is not there, or of a row without a state.
abbrev pub slots_of : Option (Option State) → Result Error ConversationSlots
slots_of none = ok empty_slots
slots_of (some none) = ok empty_slots
slots_of (some (some s)) = slots_from_json (coalesce s.slots [])

abbrev pub brief_of : Option (Option State) → Bool
brief_of none = false
brief_of (some none) = false
brief_of (some (some s)) = coalesce s.brief_done false

-- row[0] or {}
abbrev pub json_of : Option (Option State) → State
json_of none = no_state
json_of (some state) = coalesce state no_state

-- The id that is looked up, if the given one is a UUID.
abbrev pub row_of : Option String → String → List StateRow → Option (Option State)
row_of none user table = none
row_of (some id) user table = read_row user id table

abbrev pub update_of :
    Option String → String → (Option State → State) → List StateRow → List StateRow
update_of none user f table = table
update_of (some id) user f table = update_state user id f table

module _ (parse_uuid : String → Option String) where
  -- `DbStateStore.get`
  unfoldable pub get : String → String → List StateRow → Result Error ConversationSlots
  get user id table = slots_of (row_of (parse_uuid id) user table)

  -- `DbStateStore.put`
  unfoldable pub put : String → String → ConversationSlots → List StateRow → List StateRow
  put user id slots table = update_of (parse_uuid id) user (with_slots (slots_to_json slots)) table

  -- `DbStateStore.next_turn_index`
  unfoldable pub next_turn_index :
      String → String → List StateRow → Result HistoryError (ℕ × List StateRow)
  next_turn_index user id table = do
    parsed ← found no_conversation (parse_uuid id)
    state ← found no_conversation (read_row user parsed table)
    ok (coalesce (with_next_turn state).turn_index 0, update_state user parsed with_next_turn table)

  -- `DbStateStore.get_brief_done`
  unfoldable pub get_brief_done : String → String → List StateRow → Bool
  get_brief_done user id table = brief_of (row_of (parse_uuid id) user table)

  -- `DbStateStore.set_brief_done`
  unfoldable pub set_brief_done : String → String → Bool → List StateRow → List StateRow
  set_brief_done user id value table = update_of (parse_uuid id) user (with_brief_done value) table

  -- `UserHistory.read_state`
  unfoldable pub read_state : String → String → List StateRow → State
  read_state user id table = json_of (row_of (parse_uuid id) user table)

  -- `UserHistory.write_state`
  unfoldable pub write_state : String → String → State → List StateRow → List StateRow
  write_state user id state table = update_of (parse_uuid id) user (λ old. state) table
