-- ===== src/History.antt =====
-- backend/poseidon/core/chat/history.py: the conversations and messages of each user, page by page, and
-- the state of a conversation. A user sees the rows with their name. A method is a function of the
-- tables; time is in microseconds.
pub mod Examples
pub mod Lists
pub mod Pages
pub mod Reads
pub mod Dates
pub mod Slots
pub mod State
pub mod Transcript
pub mod Writes
pub mod Dicts
pub mod Calls
use latest_poseidon.Prelude.{
  ◌>>=◌, ◌>>◌, ◌>>◌, ℕ, String, str_eq, Bool, true, false, ◌&&◌, ◌||◌, Option, none, some, List, [],
  ◌∷◌, reverse, Result, ok, err, ◌>>◌, leb, keep,
}
use latest_poseidon.AgentLoop.Types.{Text}
use latest_poseidon.History.Pages.{Key, page}

-- A row of `conversations`, without its state.
pub record Conversation : Type 0 where
  pub id : String
  pub user_sub : String
  pub title : String
  pub mode : String
  pub updated_at : ℕ

-- A row of `messages`; the parts are JSON.
pub record Message : Type 0 where
  pub id : String
  pub conversation_id : String
  pub user_sub : String
  pub role : String
  pub parts : Text
  pub turn_id : Option String
  pub created_at : ℕ

-- `ValueError` for a limit or an id, `MalformedCursor`, `LookupError`, and the duplicate key of a message.
pub data HistoryError : Type 0 where
  bad_limit malformed_cursor bad_id no_conversation duplicate_id : HistoryError

-- The text of a cursor, and what is read from one: base64 of JSON with a time and an id. And the
-- canonical text of a UUID, or nothing.
pub record Codec : Type 0 where
  pub encode_cursor : Key → String
  pub decode_cursor : String → Option Key
  pub parse_uuid : String → Option String

abbrev pub require : Bool → HistoryError → Result HistoryError (Unit {0})
require true e = ok tt
require false e = err e

abbrev pub found {ℓ} : {A : Type ℓ} → HistoryError → Option A → Result HistoryError A
found e none = err e
found e (some a) = ok a

abbrev pub conversation_key : Conversation → Key
conversation_key c = (c.updated_at, c.id)

abbrev pub message_key : Message → Key
message_key m = (m.created_at, m.id)

-- What row-level security shows of the conversations.
abbrev pub owns : String → Conversation → Bool
owns user c = str_eq c.user_sub user

-- And of the messages, of one conversation.
abbrev pub is_in : String → String → Message → Bool
is_in user id m = str_eq m.user_sub user && str_eq m.conversation_id id

-- SELECT 1 FROM conversations WHERE id = :id
abbrev pub has_conversation : String → String → List Conversation → Bool
has_conversation user id [] = false
has_conversation user id (c ∷ table) =
    (owns user c && str_eq c.id id) || has_conversation user id table

module _ (codec : Codec) where
  -- `_decode_conversations_cursor` and `_decode_messages_cursor`, where there is a cursor.
  unfoldable pub read_cursor : Option String → Result HistoryError (Option Key)
  read_cursor none = ok none
  read_cursor (some cursor) = do
    key ← found malformed_cursor (codec.decode_cursor cursor)
    ok (some key)

  -- `_encode_cursor`, where there is a next page.
  abbrev pub write_cursor : Option Key → Option String
  write_cursor none = none
  write_cursor (some key) = some (codec.encode_cursor key)

  -- `list_conversations`
  unfoldable pub list_conversations :
      String
      → ℕ
      → Option String
      → List Conversation
      → Result HistoryError (List Conversation × Option String)
  list_conversations user limit cursor table = do
    positive ← require (leb 1 limit) bad_limit
    before ← read_cursor cursor
    let p = page conversation_key limit before (keep (owns user) table)
    ok (p.0, write_cursor p.1)

  -- The page of a conversation that the user sees, oldest message first.
  abbrev pub visible_page : Bool → List Message × Option Key → Option (List Message × Option String)
  visible_page false p = none
  visible_page true p = some (reverse p.0, write_cursor p.1)

  abbrev pub messages_of :
      Option String
      → String
      → ℕ
      → Option String
      → List Conversation
      → List Message
      → Result HistoryError (Option (List Message × Option String))
  messages_of none user limit cursor conversations messages = ok none
  messages_of (some id) user limit cursor conversations messages = do
    before ← read_cursor cursor
    ok (
        visible_page (has_conversation user id conversations)
          (page message_key limit before (keep (is_in user id) messages)))

  -- `get_messages`
  unfoldable pub get_messages :
      String
      → String
      → ℕ
      → Option String
      → List Conversation
      → List Message
      → Result HistoryError (Option (List Message × Option String))
  get_messages user cid limit cursor conversations messages =
      require (leb 1 limit) bad_limit
      >> messages_of (codec.parse_uuid cid) user limit cursor conversations messages
