-- ===== src/History/Examples.antt =====
-- Two users' conversations and a short one's messages, read page by page, and stored slots.
use latest_poseidon.Prelude.{
  ◌≡◌, refl, ap, String, ℕ, zero, suc, ◌==◌, if◌then◌else◌, true, false, Option, none, some, List,
  [], ◌∷◌, ok, arith, keep, sort_by, insert_by, lookup, str_eq, ◌≢◌,
}
use Prim.Native.Char.{code}
use latest_poseidon.Calendar.{Date, date, days_in_month}
use latest_poseidon.Slots.{ConversationSlots, empty_slots}
use latest_poseidon.History.{Conversation, Message, Codec, list_conversations, read_cursor}
use latest_poseidon.History.Pages.{Key, page, fetched, key_le}
use latest_poseidon.History.Reads.{IsFaithful, list_all, list_all-newest, read_all, read_all-oldest}
use latest_poseidon.History.Writes.{
  update_conversation, create_conversation, append_message, delete_row, delete_conversation,
}
use latest_poseidon.History.Writes.Owned.{
  Write, creates, appends, deletes, write, run as run_writes, run-IsStored,
}
use latest_poseidon.History.Writes.Stored.{IsStored}
use latest_poseidon.History.State.{StateRow, read_row}
use latest_poseidon.History.Dicts.{get, put, next_turn_index}
use latest_poseidon.History.Calls.{
  Call, next_turn, puts, gets, Answer, nothing, db_run, run, call, HasRow, IsFor,
}
use latest_poseidon.History.Calls.Replaced.{db_run-run}
use latest_poseidon.History.Slots.{slots_to_json, slots_from_json, slots_from_json-slots_to_json}

-- As many dots as microseconds, and the id.
abbrev write_key : ℕ → String → String
write_key zero id = String.◌∷◌ "|" id
write_key (suc n) id = String.◌∷◌ "." (write_key n id)

abbrev later_key : Option Key → Option Key
later_key none = none
later_key (some (n, id)) = some (suc n, id)

abbrev read_key : String → Option Key
read_key String.[] = none
read_key (String.◌∷◌ c s) = if code c == 124 then some (0, s) else later_key (read_key s)

abbrev codec : Codec
codec = record {
  encode_cursor = λ key. write_key key.0 key.1;
  decode_cursor = read_key;
  parse_uuid = some;
}

read_key-write_key : (n : ℕ) (id : String) → read_key (write_key n id) ≡ some (n, id)
read_key-write_key zero id = refl
read_key-write_key (suc n) id = ap later_key (read_key-write_key n id)

codec-IsFaithful : IsFaithful codec
codec-IsFaithful (n, id) = read_key-write_key n id

abbrev conversation : String → String → ℕ → Conversation
conversation id user at = record {
  id = id;
  user_sub = user;
  title = "New chat";
  mode = "default";
  updated_at = at;
}

abbrev conversations : List Conversation
conversations = conversation "a" "ana" 2 ∷ conversation "b" "ben" 4 ∷ conversation "c" "ana" 3 ∷ []

abbrev message : String → ℕ → Message
message id at = record {
  id = id;
  conversation_id = "a";
  user_sub = "ana";
  role = "user";
  parts = [];
  turn_id = none;
  created_at = at;
}

abbrev messages : List Message
messages = message "m" 1 ∷ message "n" 2 ∷ []

different : (s t : String) → str_eq s s ≡ true → str_eq t s ≡ false → t ≢ s
different s t a b e = cc (a, b, ap (λ r. str_eq r s) e)

list_all-newest_example :
    list_all codec 3 "ana" 1 none conversations
    ≡ ok (conversation "c" "ana" 3 ∷ conversation "a" "ana" 2 ∷ [])
unfolding keep sort_by insert_by key_le
list_all-newest_example =
    list_all-newest codec 3 "ana" 1 conversations codec-IsFaithful (omega arith)
      ((different "a" "c" refl refl, tt), (tt, tt)) (omega arith)

read_all-oldest_example :
    read_all codec 3 "ana" "a" 1 none conversations messages ≡ ok (some messages)
unfolding keep sort_by insert_by key_le
read_all-oldest_example =
    read_all-oldest codec "ana" "a" "a" 1 conversations messages codec-IsFaithful (omega arith) refl
      refl 3 ((different "m" "n" refl refl, tt), (tt, tt)) (omega arith)

abbrev june_15 : Date
june_15 = record { year = 2025; month = 6; day = 15 }

abbrev slots : ConversationSlots
slots = record empty_slots {
  customer = some "Acme";
  period_a = some june_15;
  pass_through = ("m", "teu") ∷ [];
}

slots_from_json-slots_to_json_example : slots_from_json (slots_to_json slots) ≡ ok slots
unfolding date days_in_month
slots_from_json-slots_to_json_example =
    slots_from_json-slots_to_json slots
      (record { has_a = refl; has_b = tt; has_a_end = tt; has_b_end = tt })

-- A page of one conversation has a cursor.
first_page :
    list_conversations codec "ana" 1 none conversations
    ≡ ok (conversation "c" "ana" 3 ∷ [], some "...|c")
unfolding list_conversations page fetched keep sort_by insert_by key_le read_cursor
first_page = refl

abbrev state_row : String → String → StateRow
state_row id user = record { id = id; user_sub = user; state = none }

abbrev state_rows : List StateRow
state_rows = state_row "a" "ana" ∷ state_row "b" "ben" ∷ state_row "c" "ana" ∷ []

-- Two conversations of one user.
abbrev state_calls : List Call
state_calls =
    next_turn "a" ∷ puts "a" slots ∷ next_turn "c" ∷ next_turn "a" ∷ gets "a" ∷ gets "c" ∷ []

db_run-run_example :
    db_run some "ana" state_calls state_rows
    ≡ Answer.index 1
      ∷ nothing
      ∷ Answer.index 1
      ∷ Answer.index 2
      ∷ Answer.slots slots
      ∷ Answer.slots empty_slots
      ∷ []
unfolding run call get put next_turn_index lookup read_row date days_in_month
db_run-run_example =
    db_run-run some "ana" state_calls state_rows (refl, (refl, (refl, tt)))
      (let a : IsFor some "ana" state_rows (next_turn "a") = record {
        is_canonical = refl;
        has_row = (none, refl);
        can_put = tt;
      } in
        let c : IsFor some "ana" state_rows (next_turn "c") = record {
          is_canonical = refl;
          has_row = (none, refl);
          can_put = tt;
        } in
        let put_slots : IsFor some "ana" state_rows (puts "a" slots) = record {
          is_canonical = refl;
          has_row = (none, refl);
          can_put = record { has_a = refl; has_b = tt; has_a_end = tt; has_b_end = tt };
        } in
        let get_slots : (id : String)
            → HasRow "ana" id state_rows
            → IsFor some "ana" state_rows (gets id) =
          λ id h. record { is_canonical = refl; has_row = h; can_put = tt } in
        (a, (put_slots, (c, (a, (get_slots "a" (none, refl), (get_slots "c" (none, refl), tt)))))))

-- A user opens a conversation and writes in it; another cannot write in it, and she deletes it.
abbrev writes : List Write
writes =
    creates "ana" "a" "o" "default" [] 1
    ∷ appends "ana" "a" "m" "user" [] none 2
    ∷ appends "ben" "a" "x" "user" [] none 3
    ∷ creates "ben" "b" "p" "default" [] 4
    ∷ deletes "ana" "a"
    ∷ []

run-IsStored_example : IsStored (run_writes codec writes ([], []))
run-IsStored_example = run-IsStored codec writes

abbrev message_ids : List Message → List String
message_ids [] = []
message_ids (m ∷ messages) = m.id ∷ message_ids messages

-- What is left is the other user's opener.
after_delete : message_ids (run_writes codec writes ([], [])).1 ≡ "p" ∷ []
unfolding run_writes write create_conversation append_message delete_conversation delete_row
    update_conversation keep
after_delete = refl
