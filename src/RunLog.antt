-- ===== src/RunLog.antt =====
-- backend/poseidon/core/runlog.py: the rows of the turns that were run, one for each key that a client gives
-- a turn. Of a row, what later statements read or remove.
pub mod Examples
pub mod Retries
use latest_poseidon.Prelude.{
  if◌then◌else◌, String, str_eq, Bool, true, false, ◌&&◌, ◌||◌, not, Option, none, some, List, [],
  ◌∷◌,
}
use latest_poseidon.AgentLoop.Types.{Text}

-- A row of `turn_run`.
pub record TurnRun : Type 0 where
  pub id : String
  pub user_sub : String
  pub conversation_id : Option String
  pub client_turn_key : Option String
  pub question : Option Text
  pub parsed : Text
  pub status : String
  pub message_id : Option String
  pub answer_summary : Option Text
  pub is_redacted : Bool

pub record TurnHandle : Type 0 where
  pub turn_run_id : String
  pub created : Bool

-- a = b, of a column that may be NULL and a value that may be.
abbrev pub sql_eq : Option String → Option String → Bool
sql_eq (some a) (some b) = str_eq a b
sql_eq a b = false

abbrev pub has_key : String → Option String → TurnRun → Bool
has_key user key r = str_eq r.user_sub user && sql_eq r.client_turn_key key

-- SELECT id FROM turn_run WHERE user_sub = :user_sub AND client_turn_key = :client_turn_key
unfoldable pub find_existing : String → Option String → List TurnRun → Option String
find_existing user key [] = none
find_existing user key (r ∷ rows) =
    let rest = find_existing user key rows in if has_key user key r then some r.id else rest

-- The id of a turn is in the table.
abbrev pub is_taken : String → List TurnRun → Bool
is_taken id [] = false
is_taken id (r ∷ rows) = str_eq r.id id || is_taken id rows

-- A key of a user that has a row is not inserted again; an id that is taken raises, which is logged.
abbrev pub insert_if :
    Option String → Bool → TurnRun → List TurnRun → Option TurnHandle × List TurnRun
insert_if (some existing) taken row table =
    (some (record { turn_run_id = existing; created = false }), table)
insert_if none true row table = (none, table)
insert_if none false row table =
    (some (record { turn_run_id = row.id; created = true }), row ∷ table)

-- A new row.
abbrev pub new_turn : String → String → Option String → Option String → Option Text → Text → TurnRun
new_turn user id conversation_id key question parsed = record {
  id = id;
  user_sub = user;
  conversation_id = conversation_id;
  client_turn_key = key;
  question = question;
  parsed = parsed;
  status = "running";
  message_id = none;
  answer_summary = none;
  is_redacted = false;
}

-- `start_turn`, of the id that is given or made.
unfoldable pub start_turn :
    String
    → String
    → Option String
    → Option String
    → Option Text
    → Text
    → List TurnRun
    → Option TurnHandle × List TurnRun
start_turn user id conversation_id key question parsed table =
    insert_if (find_existing user key table) (is_taken id table)
      (new_turn user id conversation_id key question parsed) table

-- UPDATE turn_run SET ... WHERE ..., of the rows that the user sees.
unfoldable pub update_where : (TurnRun → Bool) → (TurnRun → TurnRun) → List TurnRun → List TurnRun
update_where p f [] = []
update_where p f (r ∷ rows) = (if p r then f r else r) ∷ update_where p f rows

-- `finalize`
unfoldable pub finalize :
    String → String → String → Option String → Option Text → List TurnRun → List TurnRun
finalize user id status message_id answer_summary table =
    update_where (λ r. str_eq r.user_sub user && str_eq r.id id)
      (λ r. record r { status = status; message_id = message_id; answer_summary = answer_summary })
      table

-- `redact_turns_for_conversation`, of the turns.
unfoldable pub redact_turns_for_conversation : String → String → List TurnRun → List TurnRun
redact_turns_for_conversation user conversation_id table =
    update_where
      (λ r.
        str_eq r.user_sub user
        && sql_eq r.conversation_id (some conversation_id)
        && not r.is_redacted)
      (λ r. record r { question = none; answer_summary = none; parsed = []; is_redacted = true })
      table
