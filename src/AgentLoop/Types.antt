-- ===== src/AgentLoop/Types.antt =====
-- The data of backend/poseidon/core/llm/types.py, backend/poseidon/core/skills/result.py and of the
-- records and events of backend/poseidon/core/llm/loop.py.
use latest_poseidon.Prelude.{ℕ, Bool, String, List, Option}

-- Text whose characters are counted or cut: its code points.
abbrev pub Text : Type 0
Text = List ℕ

-- `problem`
pub record Problem : Type 0 where
  pub status : ℕ
  pub title : String
  pub detail : Text

-- A cell of a table: SQL NULL, or the value as `str` writes it.
abbrev pub Cell : Type 0
Cell = Option Text

-- A part of a result. An absent or empty payload field is the empty list or text, as the code's
-- `or []` and `or ""` make it. Of a report and of a part of another kind the fields are the rendered
-- texts.
pub data Part : Type 0 where
  table : List Text → List (List Cell) → Part
  metric_grid : List (Text × (Text × Text)) → List (List (Text × Cell)) → Part
  text : Text → Part
  phase_section : Text → Text → Part
  report : Text → Text → Text → Text → Part
  other : Text → Text → Part

-- `SkillResult`; artifacts are passed on to the sink unread.
pub record SkillResult : Type 0 where
  pub succeeded : Bool
  pub parts : List Part
  pub proof : List Text
  pub error : Option Problem

-- `RegisteredSkill.tool_schema`: what the model is told of a tool; the input schema is JSON text.
pub record ToolSchema : Type 0 where
  pub name : Text
  pub description : Text
  pub input_schema : Text

-- `ToolCall`; `arguments` is the JSON text of the arguments, which the loop never reads.
pub record ToolCall : Type 0 where
  pub id : String
  pub name : String
  pub arguments : Text

-- `stop_reason` is a text: the loop compares it with "end_turn", "tool_use" and "error".
pub record LlmResponse : Type 0 where
  pub text : Text
  pub tool_calls : List ToolCall
  pub stop_reason : String
  pub input_tokens : ℕ
  pub output_tokens : ℕ
  pub reasoning : List Text

-- `ToolRecord`
pub record ToolRecord : Type 0 where
  pub tool_seq : ℕ
  pub skill_id : String
  pub arguments : Text
  pub is_ok : Bool
  pub duration_ms : ℕ
  pub result_digest : Text

-- `LLMRecord`
pub record LlmRecord : Type 0 where
  pub call_seq : ℕ
  pub role : String
  pub provider : String
  pub model : String
  pub stop_reason : String
  pub input_tokens : ℕ
  pub output_tokens : ℕ

-- The content of a `toolResult` block: the text of a success, or the problem of a failure.
pub data BlockContent : Type 0 where
  content_text : Text → BlockContent
  content_json : Option Problem → BlockContent

pub record ToolResultBlock : Type 0 where
  pub tool_use_id : String
  pub content : BlockContent

-- A message of the history. The window that the caller hands in is opaque.
pub data Message : Type 0 where
  given : Text → Message
  assistant_tool_use : List Text → List ToolCall → Message
  user_tool_results : List ToolResultBlock → Message

-- What the sink is told.
pub data Event : Type 0 where
  llm_call : ℕ → String → String → String → Event
  tool_start : ℕ → String → Text → Event
  tool_done : ℕ → String → Bool → ℕ → Text → SkillResult → Event
  turn_error : Problem → Event

-- `TurnResult`
pub record TurnResult : Type 0 where
  pub text : Text
  pub is_ok : Bool
  pub tool_records : List ToolRecord
  pub llm_records : List LlmRecord
  pub problem : Option Problem
