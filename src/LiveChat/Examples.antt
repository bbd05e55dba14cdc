-- ===== src/LiveChat/Examples.antt =====
-- A first turn that streams text around a tool call, and one that raises.
use latest_poseidon.Prelude.{◌≡◌, refl, codes, true, false, none, some, List, [], ◌∷◌, ok, err}
use latest_poseidon.History.Transcript.{markdown, tool_event, record_tool_event, fold_token}
use latest_poseidon.LiveChat.{
  Frame, accepted, token, tool, done, record_transcript_frame, Outcome, persists, sets_title,
  queues, queues_done, closes, Titles, persist_once, send, send_all, finalize_turn, run_turn_sync,
}
use latest_poseidon.LiveChat.Folds.{
  record_all, texts, events, at_most_one, sent_text, last_payload, record_all-IsTranscript,
}
use latest_poseidon.LiveChat.Persists.{run_turn_sync-WritesOnce}
use latest_poseidon.LiveChat.Saved.{WritesOnce}

abbrev titles : Titles
titles = record { title_for = ok (codes "Volumes"); set_title_raises = false }

abbrev frames : List Frame
frames =
    accepted 1
    ∷ token (codes "One ")
    ∷ tool 1 (codes "running")
    ∷ token (codes "two ")
    ∷ token (codes "three")
    ∷ tool 1 (codes "done")
    ∷ done
    ∷ []

abbrev outcome : Outcome
outcome = record { is_ok = true; replayed = false; turn_run_id = some "r1" }

-- The title is set and the message is written before the queued `done`.
first_turn :
    (run_turn_sync titles "t1" (codes "Hi") frames (ok outcome)).effects
    ≡ queues (accepted 1)
      ∷ queues (token (codes "One "))
      ∷ queues (tool 1 (codes "running"))
      ∷ queues (token (codes "two "))
      ∷ queues (token (codes "three"))
      ∷ queues (tool 1 (codes "done"))
      ∷ sets_title (codes "Volumes")
      ∷ persists
          (markdown (codes "One ")
            ∷ tool_event 1 (codes "done")
            ∷ markdown (codes "two three")
            ∷ [])
          "r1"
      ∷ queues_done (some (codes "Volumes")) false
      ∷ closes
      ∷ []
unfolding run_turn_sync send_all send persist_once finalize_turn record_transcript_frame
    record_tool_event fold_token
first_turn = refl

run_turn_sync-WritesOnce_example :
    WritesOnce
      (markdown (codes "One ") ∷ [])
      "t1"
      (run_turn_sync titles "t1"
        (codes "Hi")
        (accepted 1 ∷ token (codes "One ") ∷ [])
        (err (codes "500"))).effects
unfolding record_all record_transcript_frame fold_token
run_turn_sync-WritesOnce_example =
    run_turn_sync-WritesOnce titles "t1" (codes "Hi") (accepted 1 ∷ token (codes "One ") ∷ [])
      (err (codes "500"))

record_all-IsTranscript_example :
    (texts (record_all frames []) ≡ sent_text frames)
    × ((seq : _) → events seq (record_all frames []) ≡ at_most_one (last_payload seq frames none))
record_all-IsTranscript_example =
    record_all-IsTranscript frames (tt, (tt, (tt, (tt, (tt, (tt, (tt, tt)))))))
