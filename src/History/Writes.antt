-- ===== src/History/Writes.antt =====
-- What a user writes: conversations, with an opener, and messages. A write that raises leaves the tables as
-- they were.
pub mod Stored
pub mod Owned
use latest_poseidon.Prelude.{
  if◌then◌else◌, ◌>>=◌, ℕ, String, str_eq, Bool, true, false, ◌&&◌, ◌||◌, not, Option, none, some,
  List, [], ◌∷◌, Result, ok, keep,
}
use latest_poseidon.AgentLoop.Types.{Text}
use latest_poseidon.History.{
  Conversation, Message, HistoryError, Codec, no_conversation, bad_id, duplicate_id, require, found,
  owns, has_conversation,
}

abbrev pub Tables : Type 0
Tables = List Conversation × List Message

-- UPDATE conversations SET ... WHERE id = :id, of the rows that the user sees.
unfoldable pub update_conversation :
    String → String → (Conversation → Conversation) → List Conversation → List Conversation
update_conversation user id f [] = []
update_conversation user id f (c ∷ table) =
    (if owns user c && str_eq c.id id then f c else c) ∷ update_conversation user id f table

-- SET updated_at = now()
abbrev pub bump_updated_at : String → String → ℕ → List Conversation → List Conversation
bump_updated_at user id now table =
    update_conversation user id (λ c. record c { updated_at = now }) table

-- SET title = :title
abbrev pub retitle : String → String → String → List Conversation → List Conversation
retitle user id title table = update_conversation user id (λ c. record c { title = title }) table

-- The id of a message is in the table.
abbrev pub is_taken : String → List Message → Bool
is_taken id [] = false
is_taken id (m ∷ messages) = str_eq m.id id || is_taken id messages

-- And of a conversation, of any user.
abbrev pub is_used : String → List Conversation → Bool
is_used id [] = false
is_used id (c ∷ table) = str_eq c.id id || is_used id table

-- `create_conversation`, of the ids that `uuid7` gives and of the JSON of the opener.
unfoldable pub create_conversation :
    String → String → String → String → Text → ℕ → Tables → Result HistoryError Tables
create_conversation user id opener_id mode opener now (conversations, messages) = do
  new ← require (not (is_used id conversations)) duplicate_id
  fresh ← require (not (is_taken opener_id messages)) duplicate_id
  ok (
    record { id = id; user_sub = user; title = "New chat"; mode = mode; updated_at = now }
        ∷ conversations,
    record {
      id = opener_id;
      conversation_id = id;
      user_sub = user;
      role = "assistant";
      parts = opener;
      turn_id = none;
      created_at = now;
    }
        ∷ messages,
  )

-- DELETE FROM conversations WHERE id = :id, with the messages that the foreign key deletes.
unfoldable pub delete_row : String → String → Tables → Bool × Tables
delete_row user id (conversations, messages) =
    if has_conversation user id conversations
    then (
      true,
      (
        keep (λ c. not (owns user c && str_eq c.id id)) conversations,
        keep (λ m. not (str_eq m.conversation_id id)) messages,
      ),
    )
    else (false, (conversations, messages))

abbrev pub retitle_of : Option String → String → String → Tables → Tables
retitle_of none user title t = t
retitle_of (some id) user title t = (retitle user id title t.0, t.1)

abbrev pub delete_of : Option String → String → Tables → Bool × Tables
delete_of none user t = (false, t)
delete_of (some id) user t = delete_row user id t

module _ (codec : Codec) where
  -- `_parse_optional_uuid`
  abbrev pub parse_optional : Option String → Result HistoryError (Option String)
  parse_optional none = ok none
  parse_optional (some id) = do parsed ← found bad_id (codec.parse_uuid id); ok (some parsed)

  -- `append_user_message` and `write_assistant_message`, of the JSON of the parts.
  unfoldable pub append_message :
      String
      → String
      → String
      → String
      → Text
      → Option String
      → ℕ
      → Tables
      → Result HistoryError Tables
  append_message user cid message_id role parts turn_id now (conversations, messages) = do
    id ← found no_conversation (codec.parse_uuid cid)
    message ← found bad_id (codec.parse_uuid message_id)
    turn ← parse_optional turn_id
    visible ← require (has_conversation user id conversations) no_conversation
    fresh ← require (not (is_taken message messages)) duplicate_id
    ok (
      bump_updated_at user id now conversations,
      record {
        id = message;
        conversation_id = id;
        user_sub = user;
        role = role;
        parts = parts;
        turn_id = turn;
        created_at = now;
      }
          ∷ messages,
    )

  -- `set_title`
  unfoldable pub set_title : String → String → String → Tables → Tables
  set_title user cid title t = retitle_of (codec.parse_uuid cid) user title t

  -- `delete_conversation`
  unfoldable pub delete_conversation : String → String → Tables → Bool × Tables
  delete_conversation user cid t = delete_of (codec.parse_uuid cid) user t
