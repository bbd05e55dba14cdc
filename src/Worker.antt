-- ===== src/Worker.antt =====
-- backend/poseidon/scripts/memory_worker.py: what the worker does with a conversation that it has
-- claimed, on the memory of its user, the outbox, and the run log.
pub mod Distill
pub mod Provenance
pub mod Spend
pub mod Settles
pub mod Examples
use latest_poseidon.Prelude.{
  ℕ, ◌+◌, String, str_eq, Bool, true, false, Option, none, some, List, [], ◌∷◌, ◌++◌, length,
  Result, ok, err, ltb, if◌then◌else◌,
}
use latest_poseidon.AgentLoop.Types.{Text}
use latest_poseidon.Memory.{
  Entry, distiller, Version, MemoryError, Settings, get_current, write_version,
}
use latest_poseidon.Outbox.{Row, OutboxError, Status, mark_done, record_failure}
use latest_poseidon.Worker.Distill.{
  Item, Draft, Json, DistillationError, parse_entries, stamp_entries, render_transcript,
}

-- What the provider answers.
pub record Response : Type 0 where
  pub text : Text
  pub input_tokens : ℕ
  pub output_tokens : ℕ

-- Why an attempt produced no memory: the call raised, the answer is no list of entries, or the store
-- refused it.
pub data Failure : Type 0 where
  transport : String → Failure
  distillation : Failure
  memory_error : MemoryError → Failure

-- What the worker writes to the run log: the turn, a model call with whether its answer was usable and
-- with its tokens, and the end of the turn with whether it succeeded.
pub data LogRow : Type 0 where
  started : String → LogRow
  llm_call : String → Bool → ℕ → ℕ → LogRow
  finalized : String → Bool → ℕ → ℕ → LogRow

pub record Store : Type 0 where
  pub memory : List Version
  pub outbox : List Row
  pub log : List LogRow

pub data Outcome : Type 0 where
  done skipped failed rearmed vanished : Outcome

-- What ends the processing of a row with an exception.
pub data RowError : Type 0 where
  unread : String → RowError
  outbox_error : OutboxError → RowError

-- What the worker meets: the messages of a conversation, the id of a turn if the run log can start one,
-- the model with its prompt, the fence of an answer and its JSON, the text of a failure, the clock, the
-- settings, and what others do to the stores while the model answers.
pub record World : Type 0 where
  pub get_messages : String → String → Result String (Option (List Item))
  pub start_turn : Option String
  pub distill : Text → List Entry → Result String Response
  pub fenced : Text → Option Text
  pub loads : Text → Option Json
  pub describe : Failure → String
  pub iso_now : String
  pub now : ℕ
  pub parse_uuid : String → Option String
  pub settings : Settings
  pub memory_max_attempts : ℕ
  pub others_memory : List Version → List Version
  pub others_outbox : List Row → List Row

abbrev pub min_user_turns : ℕ
min_user_turns = 2

-- sum(1 for item in items if item.get("role") == "user")
unfoldable pub user_turns : List Item → ℕ
user_turns [] = 0
user_turns (i ∷ items) = (if str_eq i.role "user" then 1 else 0) + user_turns items

-- A row of the log, where there is a turn to write it for.
abbrev pub logged : Option String → (String → LogRow) → Store → Store
logged none row st = st
logged (some turn) row st = record st { log = st.log ++ row turn ∷ [] }

abbrev pub current_entries : Option Version → List Entry
current_entries none = []
current_entries (some v) = v.entries

-- How an attempt ends: the version that it wrote, if any, or its failure.
abbrev pub Attempt : Type 0
Attempt = Result Failure (Option Version) × Store

-- What `write_version` returned or raised.
abbrev pub wrote : Result MemoryError (Version × List Version) → Store → Attempt
wrote (ok (v, table)) st = (ok (some v), record st { memory = table })
wrote (err e) st = (err (memory_error e), st)

-- if entries: memory.write_version(...)
unfoldable pub write_drafts : World → Row → List Entry → List Draft → Store → Attempt
write_drafts w row existing [] st = (ok none, st)
write_drafts w row existing (d ∷ ds) st =
    wrote
      (write_version w.settings row.user_sub
        (stamp_entries (d ∷ ds) existing row.conversation_id w.iso_now) distiller w.now st.memory)
      st

-- What `_parse_entries` returned or raised, with the row of the call in the log either way.
abbrev pub answered :
    Result DistillationError (List Draft)
    → World
    → Row
    → Option String
    → List Entry
    → Response
    → Store
    → Attempt
answered (ok drafts) w row turn existing r st =
    write_drafts w row existing drafts
      (logged turn (λ t. llm_call t true r.input_tokens r.output_tokens) st)
answered (err e) w row turn existing r st =
    (err distillation, logged turn (λ t. llm_call t false r.input_tokens r.output_tokens) st)

-- The parsing of an answer and what follows it.
unfoldable pub use_answer : World → Row → Option String → List Entry → Response → Store → Attempt
use_answer w row turn existing r st =
    answered (parse_entries w.fenced w.loads r.text) w row turn existing r st

-- What others did while the model was asked.
abbrev pub meanwhile : World → Store → Store
meanwhile w st = record st {
  memory = w.others_memory st.memory;
  outbox = w.others_outbox st.outbox;
}

-- The `try` block: the call, the parsing and the write.
unfoldable pub attempt :
    World → Row → Option String → List Entry → Result String Response → Store → Attempt
attempt w row turn existing (err e) st = (err (transport e), st)
attempt w row turn existing (ok r) st = use_answer w row turn existing r st

-- response.input_tokens if response is not None else 0
abbrev pub tokens_in : Result String Response → ℕ
tokens_in (ok r) = r.input_tokens
tokens_in (err e) = 0

abbrev pub tokens_out : Result String Response → ℕ
tokens_out (ok r) = r.output_tokens
tokens_out (err e) = 0

-- The end of a row: its outcome or its exception, and the stores.
abbrev pub RowEnd : Type 0
RowEnd = Result RowError Outcome × Store

-- What `mark_done` returned or raised: the outcome, if the row was still the one claimed.
abbrev pub marked_done : Outcome → Store → Result OutboxError (Bool × List Row) → RowEnd
marked_done outcome st (ok (marked, outbox)) =
    (ok (if marked then outcome else rearmed), record st { outbox = outbox })
marked_done outcome st (err e) = (err (outbox_error e), st)

-- outbox.mark_done(...)
unfoldable pub finish : World → Row → Outcome → Store → RowEnd
finish w row outcome st =
    marked_done outcome st
      (mark_done w.parse_uuid row.user_sub row.conversation_id row.last_turn_at w.now st.outbox)

abbrev pub failed_or_rearmed : Option (Status × ℕ) → Outcome
failed_or_rearmed none = rearmed
failed_or_rearmed (some outcome) = failed

-- What `record_failure` returned or raised.
abbrev pub recorded : Store → Result OutboxError (Option (Status × ℕ) × List Row) → RowEnd
recorded st (ok (outcome, outbox)) = (ok (failed_or_rearmed outcome), record st { outbox = outbox })
recorded st (err e) = (err (outbox_error e), st)

-- outbox.record_failure(...)
unfoldable pub fail : World → Row → Failure → Store → RowEnd
fail w row failure st = recorded st (
    record_failure w.parse_uuid row.user_sub row.conversation_id row.last_turn_at
      (w.describe failure) w.memory_max_attempts w.now st.outbox)

-- What follows the `try` block: the end of the turn in the log, and the outbox.
unfoldable pub settle : World → Row → Option String → Result String Response → Attempt → RowEnd
settle w row turn answer (ok written, st) =
    finish w row done
      (logged turn (λ t. finalized t true (tokens_in answer) (tokens_out answer)) st)
settle w row turn answer (err failure, st) =
    fail w row failure
      (logged turn (λ t. finalized t false (tokens_in answer) (tokens_out answer)) st)

-- A conversation that is worth a call.
unfoldable pub distill_row : World → Row → List Item → Store → RowEnd
distill_row w row items st =
    let existing = current_entries (get_current row.user_sub st.memory) in
    let answer = w.distill (render_transcript items) existing in
    settle w row w.start_turn answer
      (attempt w row w.start_turn existing answer (meanwhile w (logged w.start_turn started st)))

unfoldable pub process_items : World → Row → Option (List Item) → Store → RowEnd
process_items w row none st = (ok vanished, st)
process_items w row (some items) st =
    if ltb (user_turns items) min_user_turns
    then finish w row skipped st
    else distill_row w row items st

abbrev pub process_page : World → Row → Result String (Option (List Item)) → Store → RowEnd
process_page w row (err e) st = (err (unread e), st)
process_page w row (ok page) st = process_items w row page st

-- `_process_one`
unfoldable pub process_one : World → Row → Store → RowEnd
process_one w row st = process_page w row (w.get_messages row.user_sub row.conversation_id) st

-- The loop of `run_once` over the claimed rows: an exception costs its row only.
unfoldable pub process_all : World → List Row → Store → ℕ × Store
process_all w [] st = (0, st)
process_all w (row ∷ rows) st =
    let rest = process_all w rows (process_one w row st).1 in (1 + rest.0, rest.1)
