-- ===== src/Events/Examples.antt =====
-- A skill that streams one of its two parts.
use latest_poseidon.Prelude.{◌≡◌, refl, String, codes, true, [], ◌∷◌, map, keep}
use latest_poseidon.AgentLoop.Types.{Text}
use latest_poseidon.History.Transcript.{Part, markdown, other}
use latest_poseidon.LiveChat.{part, tool}
use latest_poseidon.Events.{
  started, finished, failed, Status, Wire, Finished, new_sink, emits, accepts, opens, finishes,
  act_all, frame, act, part_emitter, emit_part, count_of,
}
use latest_poseidon.Events.Numbers.{IsNumbered, act_all-IsNumbered}
use latest_poseidon.Events.Streams.{frames_of, call_acts, call_acts-frames}

abbrev status_text : String → Status → Text
status_text skill started = codes "start"
status_text skill finished = codes "done"
status_text skill failed = codes "error"

abbrev wire : Wire
wire = record { tool_fields = status_text; proof_lines = λ lines. codes "lines" }

abbrev first_part : Part
first_part = other (codes "table") (codes "[]")

abbrev result : Finished
result = record {
  skill_id = "brief.run";
  succeeded = true;
  parts = first_part ∷ markdown (codes "Two") ∷ [];
  proof = codes "rows" ∷ [];
  artifacts = [];
}

-- The streamed part is sent once.
call_acts-frames_example :
    frames_of
      (act_all wire (call_acts 1 "brief.run" (first_part ∷ []) result (first_part ∷ [])) new_sink)
    ≡ tool 1 (codes "start")
      ∷ part first_part
      ∷ tool 1 (codes "done")
      ∷ part (markdown (codes "Two"))
      ∷ part (other (codes "proof") (codes "lines"))
      ∷ []
call_acts-frames_example =
    call_acts-frames wire 1 "brief.run" (first_part ∷ []) (markdown (codes "Two") ∷ [])
      (first_part ∷ []) result new_sink refl

act_all-IsNumbered_example : IsNumbered (
    act_all wire
      (accepts 1 ∷ opens 1 ∷ emits 1 first_part ∷ emits 2 first_part ∷ finishes ∷ [])
      new_sink)
act_all-IsNumbered_example =
    act_all-IsNumbered wire
      (accepts 1 ∷ opens 1 ∷ emits 1 first_part ∷ emits 2 first_part ∷ finishes ∷ [])

-- The part of a call that does not stream is not sent.
three_frames :
    map
      (λ e. e.0)
      (act_all wire
        (accepts 1 ∷ opens 1 ∷ emits 1 first_part ∷ emits 2 first_part ∷ finishes ∷ [])
        new_sink).sent
    ≡ 1 ∷ 2 ∷ 3 ∷ []
unfolding act_all act frame part_emitter emit_part count_of keep
three_frames = refl
