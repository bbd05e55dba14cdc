-- ===== src/LiveChat.antt =====
-- backend/poseidon/api/live_chat.py: the stream of one turn. What the route does is a list of effects in the
-- order in which they happen, so that what the client can see is what was put into the queue before.
pub mod Examples
pub mod Folds
pub mod Saved
pub mod Persists
use latest_poseidon.Prelude.{
  if◌then◌else◌, ℕ, String, Bool, true, false, ◌&&◌, not, Option, none, some, List, [], ◌∷◌, ◌++◌,
  Result, ok, err, take, ◌==◌,
}
use latest_poseidon.AgentLoop.Types.{Text}
use latest_poseidon.History.Transcript.{Part, append_part, record_tool_event, fold_token}

-- A frame by its name, with the data that the route reads.
pub data Frame : Type 0 where
  accepted : ℕ → Frame
  token : Text → Frame
  tool : ℕ → Text → Frame
  part : Part → Frame
  done : Frame
  error : Text → Frame

-- `_record_transcript_frame`
unfoldable pub record_transcript_frame : Frame → List Part → List Part
record_transcript_frame (tool seq payload) parts = record_tool_event seq payload parts
record_transcript_frame (part p) parts = append_part p parts
record_transcript_frame (token text) parts = fold_token text parts
record_transcript_frame frame parts = parts

-- `TurnOutcome`, the fields that the route reads; "ok" or not, and an id of the run log.
pub record Outcome : Type 0 where
  pub is_ok : Bool
  pub replayed : Bool
  pub turn_run_id : Option String

-- A message is written with its parts and turn, a title is set, a frame is queued, the queued `done` with
-- its title, and the end of the queue.
pub data Effect : Type 0 where
  persists : List Part → String → Effect
  sets_title : Text → Effect
  queues : Frame → Effect
  queues_done : Option Text → Bool → Effect
  closes : Effect

-- What the closures of the route share.
pub record Stream : Type 0 where
  pub assistant : List Part
  pub has_pending_done : Bool
  pub turn_index : Option ℕ
  pub is_persisted : Bool
  pub turn_run_id : Option String
  pub effects : List Effect

-- What the code calls: `title_for` of the text, and whether `set_title` raises.
pub record Titles : Type 0 where
  pub title_for : Result (Unit {0}) Text
  pub set_title_raises : Bool

abbrev pub emit : Effect → Stream → Stream
emit e st = record st { effects = st.effects ++ e ∷ [] }

-- The turn that the message is written under.
abbrev pub persisted_turn : String → Option String → String
persisted_turn turn_id none = turn_id
persisted_turn turn_id (some run) = run

-- `_persist_once`; a write that fails is logged and no more.
unfoldable pub persist_once : String → Stream → Stream
persist_once turn_id st =
    if st.is_persisted
    then st
    else emit (persists st.assistant (persisted_turn turn_id st.turn_run_id))
        (record st { is_persisted = true })

abbrev pub first_index : Option ℕ → ℕ → Option ℕ
first_index none n = some n
first_index (some m) n = some m

-- What `send` does with a frame that it has recorded.
abbrev pub forward : String → Frame → Stream → Stream
forward turn_id (accepted n) st =
    emit (queues (accepted n)) (record st { turn_index = first_index st.turn_index n })
forward turn_id done st = record st { has_pending_done = true }
forward turn_id (error problem) st = emit (queues (error problem)) (persist_once turn_id st)
forward turn_id frame st = emit (queues frame) st

-- `send`
unfoldable pub send : String → Frame → Stream → Stream
send turn_id frame st =
    forward turn_id frame (record st { assistant = record_transcript_frame frame st.assistant })

unfoldable pub send_all : String → List Frame → Stream → Stream
send_all turn_id [] st = st
send_all turn_id (frame ∷ frames) st = send_all turn_id frames (send turn_id frame st)

-- The computed title, or the start of the message.
abbrev pub or_start : Text → Text → Text
or_start text [] = take 60 text
or_start text (c ∷ cs) = c ∷ cs

-- The title after a first turn, of what `title_for` computes and of whether `set_title` raises; a failure
-- leaves none.
abbrev pub set_title : Result (Unit {0}) Text → Bool → Text → Stream → Option Text × Stream
set_title (err e) raises text st = (none, st)
set_title (ok computed) true text st = (none, st)
set_title (ok computed) false text st =
    (some (or_start text computed), emit (sets_title (or_start text computed)) st)

abbrev pub is_first : Option ℕ → Bool
is_first none = false
is_first (some n) = n == 1

abbrev pub title_if : Bool → Titles → Text → Stream → Option Text × Stream
title_if false titles text st = (none, st)
title_if true titles text st = set_title titles.title_for titles.set_title_raises text st

-- The queued `done`, if there is one, is sent after the title is set and the message is written.
abbrev pub finalize_if : Bool → Titles → String → Text → Outcome → Stream → Stream
finalize_if false titles turn_id text o st = st
finalize_if true titles turn_id text o st =
    let r = title_if (o.is_ok && is_first st.turn_index && not o.replayed) titles text st in
    emit (queues_done r.0 o.replayed) (persist_once turn_id r.1)

-- `_finalize_turn`
unfoldable pub finalize_turn : Titles → String → Text → Outcome → Stream → Stream
finalize_turn titles turn_id text o st = finalize_if st.has_pending_done titles turn_id text o st

-- What is after `execute_turn` has returned, or has raised with a problem to show.
abbrev pub after_turn : Titles → String → Text → Result Text Outcome → Stream → Stream
after_turn titles turn_id text (err problem) st = send turn_id (error problem) st
after_turn titles turn_id text (ok o) st =
    finalize_turn titles turn_id text o (record st { turn_run_id = o.turn_run_id })

-- The stream of a new turn.
abbrev pub new_stream : Stream
new_stream = record {
  assistant = [];
  has_pending_done = false;
  turn_index = none;
  is_persisted = false;
  turn_run_id = none;
  effects = [];
}

-- `run_turn_sync`, of the frames that the turn sends and of how it ends.
unfoldable pub run_turn_sync : Titles → String → Text → List Frame → Result Text Outcome → Stream
run_turn_sync titles turn_id text frames ending = emit closes (
    persist_once turn_id
      (after_turn titles turn_id text ending (send_all turn_id frames new_stream)))
