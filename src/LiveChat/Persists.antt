-- ===== src/LiveChat/Persists.antt =====
-- When the assistant's message of a turn is written, and with what.
use latest_poseidon.Prelude.{
  refl, String, Bool, true, false, ◌&&◌, not, Option, none, List, [], ◌∷◌, Result, ok, err,
}
use latest_poseidon.AgentLoop.Types.{Text}
use latest_poseidon.History.Transcript.{Part}
use latest_poseidon.LiveChat.{
  Frame, accepted, token, tool, part, done, error, Outcome, sets_title, queues_done, closes, Stream,
  Titles, emit, persisted_turn, persist_once, send, send_all, or_start, set_title, is_first,
  title_if, finalize_if, finalize_turn, after_turn, new_stream, run_turn_sync,
}
use latest_poseidon.LiveChat.Folds.{record_all}
use latest_poseidon.LiveChat.Saved.{
  WritesOnce, has_error, Open, Saved, emit-Saved, emit-Open, persist_once-Open, persist_once-Saved,
  send-Saved, send-Open, send-error,
}

-- The frames before the first error.
abbrev pub before_error : List Frame → List Frame
before_error [] = []
before_error (error problem ∷ frames) = []
before_error (f ∷ frames) = f ∷ before_error frames

-- The turn of the run log, if the turn returned one and sent no error.
abbrev pub written_turn : Bool → String → Result Text Outcome → String
written_turn true turn_id ending = turn_id
written_turn false turn_id (err problem) = turn_id
written_turn false turn_id (ok o) = persisted_turn turn_id o.turn_run_id

send_all-Saved :
    (turn_id : String) (parts : List Part) (turn : String) (frames : List Frame) (st : Stream)
    → Saved parts turn st
    → Saved parts turn (send_all turn_id frames st)
unfolding send_all
send_all-Saved turn_id parts turn [] st s = s
send_all-Saved turn_id parts turn (f ∷ frames) st s =
    send_all-Saved turn_id parts turn frames (send turn_id f st)
      (send-Saved turn_id parts turn f st s)

-- The stream after the frames of a turn.
Sent : String → Bool → List Part → Stream → Type 0
Sent turn_id true parts st = Saved parts turn_id st
Sent turn_id false parts st = Open parts none st

send_all-Sent :
    (turn_id : String) (frames : List Frame) (parts : List Part) (st : Stream)
    → Open parts none st
    → Sent turn_id
        (has_error frames)
        (record_all (before_error frames) parts)
        (send_all turn_id frames st)
unfolding send_all record_all Sent
send_all-Sent turn_id [] parts st o = o
send_all-Sent turn_id (error problem ∷ frames) parts st o =
    send_all-Saved turn_id parts turn_id frames _ (send-error turn_id parts none problem st o)
send_all-Sent turn_id (accepted n ∷ frames) parts st o =
    send_all-Sent turn_id frames _ _ (send-Open turn_id parts none (accepted n) st refl o)
send_all-Sent turn_id (token t ∷ frames) parts st o =
    send_all-Sent turn_id frames _ _ (send-Open turn_id parts none (token t) st refl o)
send_all-Sent turn_id (tool n q ∷ frames) parts st o =
    send_all-Sent turn_id frames _ _ (send-Open turn_id parts none (tool n q) st refl o)
send_all-Sent turn_id (part p ∷ frames) parts st o =
    send_all-Sent turn_id frames _ _ (send-Open turn_id parts none (part p) st refl o)
send_all-Sent turn_id (done ∷ frames) parts st o =
    send_all-Sent turn_id frames _ _ (send-Open turn_id parts none done st refl o)

-- What setting a title keeps: whatever one more effect keeps.
set_title_keeps :
    (P : Stream → Type 0) (r : Result (Unit {0}) Text) (raises : Bool) (text : Text) (st : Stream)
    → ((t : Text) → P (emit (sets_title t) st))
    → P st
    → P (set_title r raises text st).1
set_title_keeps P (err e) raises text st h p = p
set_title_keeps P (ok computed) true text st h p = p
set_title_keeps P (ok computed) false text st h p = h (or_start text computed)

title_if_keeps :
    (P : Stream → Type 0) (b : Bool) (titles : Titles) (text : Text) (st : Stream)
    → ((t : Text) → P (emit (sets_title t) st))
    → P st
    → P (title_if b titles text st).1
title_if_keeps P false titles text st h p = p
title_if_keeps P true titles text st h p =
    set_title_keeps P titles.title_for titles.set_title_raises text st h p

finalize_if-Saved :
    (b : Bool) (titles : Titles) (turn_id : String) (text : Text) (o : Outcome) (parts : List Part)
    (turn : String) (st : Stream)
    → Saved parts turn st
    → Saved parts turn (finalize_if b titles turn_id text o st)
finalize_if-Saved false titles turn_id text o parts turn st s = s
finalize_if-Saved true titles turn_id text o parts turn st s =
    emit-Saved parts turn (queues_done _ o.replayed) _ tt (
      persist_once-Saved turn_id parts turn _ (
        title_if_keeps (Saved parts turn) (o.is_ok && is_first st.turn_index && not o.replayed)
          titles text st (λ t. emit-Saved parts turn (sets_title t) st tt s) s))

finalize_if-Open :
    (b : Bool) (titles : Titles) (turn_id : String) (text : Text) (o : Outcome) (parts : List Part)
    (run : Option String) (st : Stream)
    → Open parts run st
    → Saved parts
        (persisted_turn turn_id run)
        (persist_once turn_id (finalize_if b titles turn_id text o st))
finalize_if-Open false titles turn_id text o parts run st s =
    persist_once-Open turn_id parts run st s
finalize_if-Open true titles turn_id text o parts run st s = persist_once-Saved turn_id parts _ _ (
    emit-Saved parts _ (queues_done _ o.replayed) _ tt (
      persist_once-Open turn_id parts run _ (
        title_if_keeps (Open parts run) (o.is_ok && is_first st.turn_index && not o.replayed) titles
          text st (λ t. emit-Open parts run (sets_title t) st tt s) s)))

-- However the turn ends, the message is written by then.
after_turn-Saved :
    (b : Bool) (titles : Titles) (turn_id : String) (text : Text) (ending : Result Text Outcome)
    (parts : List Part) (st : Stream)
    → Sent turn_id b parts st
    → Saved parts
        (written_turn b turn_id ending)
        (persist_once turn_id (after_turn titles turn_id text ending st))
unfolding Sent finalize_turn
after_turn-Saved true titles turn_id text (err problem) parts st s =
    persist_once-Saved turn_id parts turn_id _
      (send-Saved turn_id parts turn_id (error problem) st s)
after_turn-Saved true titles turn_id text (ok o) parts st s =
    persist_once-Saved turn_id parts turn_id _ (
      finalize_if-Saved st.has_pending_done titles turn_id text o parts turn_id _
        (record { is_saved = s.is_saved; writes = s.writes }))
after_turn-Saved false titles turn_id text (err problem) parts st s =
    persist_once-Saved turn_id parts turn_id _ (send-error turn_id parts none problem st s)
after_turn-Saved false titles turn_id text (ok o) parts st s =
    finalize_if-Open st.has_pending_done titles turn_id text o parts o.turn_run_id _ (record {
      is_open = s.is_open;
      has_parts = s.has_parts;
      has_run = refl;
      is_early = s.is_early;
    })

-- Whatever frames a turn sends and however it ends, by a return or by an exception, the assistant's
-- message is written exactly once, before any `done` or error is queued for the client and before the
-- queue is closed. It holds the transcript of the frames up to the first error, and is written under the
-- id of the run log if the turn returned one and sent no error, else under the turn's own.
pub run_turn_sync-WritesOnce :
    (titles : Titles) (turn_id : String) (text : Text) (frames : List Frame)
    (ending : Result Text Outcome)
    → WritesOnce
        (record_all (before_error frames) [])
        (written_turn (has_error frames) turn_id ending)
        (run_turn_sync titles turn_id text frames ending).effects
unfolding run_turn_sync
run_turn_sync-WritesOnce titles turn_id text frames ending =
    (emit-Saved _ _ closes _ tt (
      after_turn-Saved (has_error frames) titles turn_id text ending _ _ (
        send_all-Sent turn_id frames [] new_stream
          (record { is_open = refl; has_parts = refl; has_run = refl; is_early = tt })))).writes
