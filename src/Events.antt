-- ===== src/Events.antt =====
-- backend/poseidon/core/chat/events.py: the sink of one turn, which turns the events of the agent loop into
-- numbered frames and streams the parts of a skill while it runs.
pub mod Examples
pub mod Numbers
pub mod Streams
use latest_poseidon.Prelude.{
  if◌then◌else◌, ℕ, ◌+◌, String, Option, none, some, List, [], ◌∷◌, ◌++◌, codes, drop, ◌==◌, not,
  keep, Bool, true, false,
}
use latest_poseidon.AgentLoop.Types.{Text}
use latest_poseidon.History.Transcript.{Part, other}
use latest_poseidon.LiveChat.{Frame, accepted, token, tool, part, done, error}

-- The status of a tool frame.
pub data Status : Type 0 where
  started finished failed : Status

-- `_TOOL_STATUS_ON_WIRE`
abbrev pub status_on_wire : Bool → Status
status_on_wire true = finished
status_on_wire false = failed

-- The JSON of the fields of a tool frame, of the lines of a proof, and of a problem.
pub record Wire : Type 0 where
  pub tool_fields : String → Status → Text
  pub proof_lines : List Text → Text

-- The payload of `tool_done`; the artifacts as JSON.
pub record Finished : Type 0 where
  pub skill_id : String
  pub succeeded : Bool
  pub parts : List Part
  pub proof : List Text
  pub artifacts : List Text

-- `SseEnvelopeSink`, with the frames that it has sent and their ids.
pub record SseEnvelopeSink : Type 0 where
  pub event_seq : ℕ
  pub tool_result_parts : List (ℕ × List Part)
  pub streamed_counts : List (ℕ × ℕ)
  pub sent : List (ℕ × Frame)

abbrev pub new_sink : SseEnvelopeSink
new_sink = record { event_seq = 0; tool_result_parts = []; streamed_counts = []; sent = [] }

-- `_frame`
unfoldable pub frame : Frame → SseEnvelopeSink → SseEnvelopeSink
frame f s = record s { event_seq = s.event_seq + 1; sent = s.sent ++ (s.event_seq + 1, f) ∷ [] }

-- The count of a call, if it is streaming.
unfoldable pub count_of : ℕ → List (ℕ × ℕ) → Option ℕ
count_of seq [] = none
count_of seq ((n, count) ∷ counts) =
    let rest = count_of seq counts in if n == seq then some count else rest

abbrev pub without : ℕ → List (ℕ × ℕ) → List (ℕ × ℕ)
without seq counts = keep (λ e. not (e.0 == seq)) counts

-- `push_part`
abbrev pub push_part : Part → SseEnvelopeSink → SseEnvelopeSink
push_part p s = frame (part p) s

unfoldable pub push_parts : List Part → SseEnvelopeSink → SseEnvelopeSink
push_parts [] s = s
push_parts (p ∷ parts) s = push_parts parts (push_part p s)

-- `part_emitter`
unfoldable pub part_emitter : ℕ → SseEnvelopeSink → SseEnvelopeSink
part_emitter seq s = record s { streamed_counts = (seq, 0) ∷ without seq s.streamed_counts }

abbrev pub emit_if : Option ℕ → ℕ → Part → SseEnvelopeSink → SseEnvelopeSink
emit_if none seq p s = s
emit_if (some n) seq p s = record (push_part p s) {
  streamed_counts = (seq, n + 1) ∷ without seq s.streamed_counts;
}

-- The emitter of a call; after the call is done it does nothing.
unfoldable pub emit_part : ℕ → Part → SseEnvelopeSink → SseEnvelopeSink
emit_part seq p s = emit_if (count_of seq s.streamed_counts) seq p s

abbrev pub proof_parts : Wire → List Text → List Part
proof_parts wire [] = []
proof_parts wire (line ∷ lines) = other (codes "proof") (wire.proof_lines (line ∷ lines)) ∷ []

abbrev pub artifact_parts : List Text → List Part
artifact_parts [] = []
artifact_parts (a ∷ artifacts) = other (codes "artifact") a ∷ artifact_parts artifacts

abbrev pub streamed : Option ℕ → ℕ
streamed none = 0
streamed (some n) = n

-- `_handle_tool_done`
unfoldable pub handle_tool_done : Wire → ℕ → Finished → SseEnvelopeSink → SseEnvelopeSink
handle_tool_done wire seq r s =
    let n = streamed (count_of seq s.streamed_counts) in
    let told =
      frame (tool seq (wire.tool_fields r.skill_id (status_on_wire r.succeeded)))
        (record s { tool_result_parts = (seq, r.parts) ∷ s.tool_result_parts }) in
    push_parts (artifact_parts r.artifacts) (
      push_parts (proof_parts wire r.proof) (
        push_parts (drop n r.parts)
          (record told { streamed_counts = without seq told.streamed_counts })))

-- What is done with a sink: the events of the loop, the emitters of its calls, and the frames of the
-- orchestrator.
pub data Act : Type 0 where
  tool_starts : ℕ → String → Act
  tool_ends : ℕ → Finished → Act
  turn_fails : Text → Act
  llm_call : Act
  opens : ℕ → Act
  emits : ℕ → Part → Act
  pushes : Part → Act
  pushes_token : Text → Act
  accepts : ℕ → Act
  finishes : Act

-- `emit`, `part_emitter` and the other methods.
unfoldable pub act : Wire → Act → SseEnvelopeSink → SseEnvelopeSink
act wire (tool_starts seq skill) s = frame (tool seq (wire.tool_fields skill started)) s
act wire (tool_ends seq r) s = handle_tool_done wire seq r s
act wire (turn_fails problem) s = frame (error problem) s
act wire llm_call s = s
act wire (opens seq) s = part_emitter seq s
act wire (emits seq p) s = emit_part seq p s
act wire (pushes p) s = push_part p s
act wire (pushes_token t) s = frame (token t) s
act wire (accepts n) s = frame (accepted n) s
act wire finishes s = frame done s

unfoldable pub act_all : Wire → List Act → SseEnvelopeSink → SseEnvelopeSink
act_all wire [] s = s
act_all wire (a ∷ acts) s = act_all wire acts (act wire a s)
