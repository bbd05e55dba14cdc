-- ===== src/History/Transcript.antt =====
-- `TurnTranscriptBuffer` of backend/poseidon/core/chat/history.py: the parts of the assistant's message of one
-- turn, as they come.
use latest_poseidon.Prelude.{ℕ, Bool, false, List, [], ◌∷◌, ◌++◌, ◌==◌, if◌then◌else◌}
use latest_poseidon.AgentLoop.Types.{Text}

-- A part, by its kind: markdown, a tool event with its `tool_seq`, or another. Payloads are JSON.
pub data Part : Type 0 where
  markdown : Text → Part
  tool_event : ℕ → Text → Part
  other : Text → Text → Part

-- `append_part`
unfoldable pub append_part : Part → List Part → List Part
append_part part parts = parts ++ part ∷ []

abbrev pub is_event : ℕ → Part → Bool
is_event seq (tool_event n payload) = n == seq
is_event seq part = false

-- `record_tool_event`: the first part with this `tool_seq` is replaced where it stands.
unfoldable pub record_tool_event : ℕ → Text → List Part → List Part
record_tool_event seq payload [] = tool_event seq payload ∷ []
record_tool_event seq payload (part ∷ parts) =
    let rest = record_tool_event seq payload parts in
    if is_event seq part then tool_event seq payload ∷ parts else part ∷ rest

-- A last part and a token.
abbrev pub with_token : Text → Part → List Part
with_token text (markdown t) = markdown (t ++ text) ∷ []
with_token text part = part ∷ markdown text ∷ []

-- `fold_token`
unfoldable pub fold_token : Text → List Part → List Part
fold_token text [] = markdown text ∷ []
fold_token text (part ∷ []) = with_token text part
fold_token text (part ∷ next ∷ parts) = part ∷ fold_token text (next ∷ parts)
