-- ===== src/AgentLoop/Turn.antt =====
-- `run_turn`, `_dispatch_one` and the exits of backend/poseidon/core/llm/loop.py. What the loop calls
-- is a `World`: the provider behind `RoleClient`, the skill registry, and the clock.
pub mod Rules
pub mod Records
pub mod Exits
pub mod Corrections
pub mod Internal
use latest_poseidon.Prelude.{
  codes, ℕ, zero, suc, ◌+◌, String, str_eq, Bool, true, false, not, ◌&&◌, ◌||◌, Option, none, some,
  List, [], ◌∷◌, ◌++◌, length, if◌then◌else◌,
}
use latest_poseidon.AgentLoop.Types.{
  Text, Problem, SkillResult, ToolSchema, ToolCall, LlmResponse, ToolRecord, LlmRecord,
  BlockContent, content_text, content_json, ToolResultBlock, Message, given, assistant_tool_use,
  user_tool_results, Event, llm_call, tool_start, tool_done, turn_error, TurnResult,
}
use latest_poseidon.AgentLoop.Content.{show, is_space, tool_result_digest, result_content_text}

-- `system` is the router prompt and `tools` are the tool schemas of the registry, built once per turn.
-- `invoke` may answer each call differently, so it is told the call's number; `dispatch` and `duration`
-- are told the number of the tool call. `internal` is `registry.get(name).internal`, or nothing where `get` raises `KeyError`.
pub record World : Type 0 where
  pub provider : String
  pub model : String
  pub system : Text
  pub tools : List ToolSchema
  pub invoke : ℕ → Text → List Message → List ToolSchema → LlmResponse
  pub internal : String → Option Bool
  pub dispatch : ℕ → String → Text → SkillResult
  pub duration : ℕ → ℕ

abbrev pub router_role : String
router_role = "router"

abbrev pub provider_error : Text → Problem
provider_error detail = record { status = 502; title = "llm provider error"; detail = detail }

abbrev pub empty_reply : Problem
empty_reply = provider_error (codes "provider reported stop_reason 'end_turn' with an empty reply")

abbrev pub no_tool_calls : Problem
no_tool_calls = provider_error (codes "provider reported stop_reason 'tool_use' with no tool calls")

abbrev pub cap_exceeded : ℕ → Problem
cap_exceeded cap = record {
  status = 500;
  title = "agent loop exceeded max iterations";
  detail = codes "cap " ++ show cap;
}

abbrev pub internal_skill : String → Problem
internal_skill name = record {
  status = 403;
  title = "internal skill";
  detail =
      codes "'"
      ++ (codes name ++ codes "' is dispatched by a deterministic flow, never by the router");
}

-- `_provider_problem`; the stop reason is quoted as `repr` quotes a text with no quote in it.
unfoldable pub provider_problem : LlmResponse → Problem
provider_problem response =
    if str_eq response.stop_reason "error"
    then provider_error response.text
    else provider_error (
        codes "provider reported unsupported stop_reason '"
        ++ (codes response.stop_reason ++ codes "'"))

-- not text.strip()
unfoldable pub is_blank : Text → Bool
is_blank [] = true
is_blank (c ∷ t) = is_space c && is_blank t

-- What a turn accumulates, the events sent to the sink among it.
pub record LoopState : Type 0 where
  pub messages : List Message
  pub llm_records : List LlmRecord
  pub tool_records : List ToolRecord
  pub spent_corrections : List String
  pub events : List Event

pub record Turn : Type 0 where
  pub result : TurnResult
  pub events : List Event

abbrev pub emit : LoopState → Event → LoopState
emit s e = record s { events = s.events ++ e ∷ [] }

-- `_failed_turn`
unfoldable pub failed_turn : LoopState → Problem → Turn
failed_turn s p = record {
  result = record {
    text = [];
    is_ok = false;
    tool_records = s.tool_records;
    llm_records = s.llm_records;
    problem = some p;
  };
  events = s.events ++ turn_error p ∷ [];
}

unfoldable pub ok_turn : LoopState → Text → Turn
ok_turn s reply = record {
  result = record {
    text = reply;
    is_ok = true;
    tool_records = s.tool_records;
    llm_records = s.llm_records;
    problem = none;
  };
  events = s.events;
}

abbrev pub is_member : String → List String → Bool
is_member x [] = false
is_member x (y ∷ ys) = str_eq y x || is_member x ys

-- The result of a call: a refusal for an internal skill, the registry's answer for any other name.
abbrev pub answer : Option Bool → String → SkillResult → SkillResult
answer (some true) name registry_answer = record {
  succeeded = false;
  parts = [];
  proof = [];
  error = some (internal_skill name);
}
answer _ name registry_answer = registry_answer

-- `_tool_result_block`
unfoldable pub tool_result_block : ToolCall → SkillResult → Text → ToolResultBlock
tool_result_block call result digest = record {
  tool_use_id = call.id;
  content =
      if result.succeeded
      then content_text (result_content_text digest result)
      else content_json result.error;
}

-- How the calls of one response end: with a failure that ends the turn, or with their result blocks.
pub data Dispatched : Type 0 where
  failed : LoopState → Problem → Dispatched
  answered : LoopState → List ToolResultBlock → Dispatched

-- What one iteration does: it ends the turn, or goes round.
pub data Step : Type 0 where
  finished : Turn → Step
  again : LoopState → Step

abbrev pub resume : Step → (LoopState → Turn) → Turn
resume (finished t) k = t
resume (again s) k = k s

-- What the loop over the calls does with the outcome of one: a second failure of a skill ends the
-- turn, a first one spends its correction.
unfoldable pub note_failure : String → Option Problem → LoopState → Option Problem × LoopState
note_failure name none s = (none, s)
note_failure name (some p) s =
    if is_member name s.spent_corrections
    then (some p, s)
    else (none, record s { spent_corrections = name ∷ s.spent_corrections })

abbrev pub add_block : ToolResultBlock → Dispatched → Dispatched
add_block b (failed s p) = failed s p
add_block b (answered s bs) = answered s (b ∷ bs)

abbrev pub unless_failed : Option Problem × LoopState → (LoopState → Dispatched) → Dispatched
unless_failed (some p, s) k = failed s p
unless_failed (none, s) k = k s

-- The end of an iteration: the assistant's echo and the results go into the history.
abbrev pub after_calls : LlmResponse → Dispatched → Step
after_calls response (failed s p) = finished (failed_turn s p)
after_calls response (answered s blocks) = again (record s {
  messages =
      s.messages
      ++ assistant_tool_use response.reasoning response.tool_calls ∷ user_tool_results blocks ∷ [];
})

abbrev pub has_no_calls : List ToolCall → Bool
has_no_calls [] = true
has_no_calls (c ∷ cs) = false

module _ (w : World) where
  unfoldable pub call_result : ℕ → ToolCall → SkillResult
  call_result tool_seq call =
      answer (w.internal call.name) call.name (w.dispatch tool_seq call.name call.arguments)

  -- The record of `_dispatch_one`.
  unfoldable pub tool_record : ℕ → ToolCall → ToolRecord
  tool_record tool_seq call =
      let result = call_result tool_seq call in
      record {
        tool_seq = tool_seq;
        skill_id = call.name;
        arguments = call.arguments;
        is_ok = result.succeeded;
        duration_ms = w.duration tool_seq;
        result_digest = tool_result_digest call.name result;
      }

  -- `_dispatch_one`: both events, and the record of the call.
  unfoldable pub dispatch_one : ToolCall → LoopState → LoopState
  unfolding tool_record
  dispatch_one call s =
      let tool_seq = length s.tool_records + 1 in
      let result = call_result tool_seq call in
      let started = emit s (tool_start tool_seq call.name call.arguments) in
      let done = emit started (
        tool_done tool_seq call.name result.succeeded (w.duration tool_seq)
          (tool_result_digest call.name result) result) in
      record done { tool_records = s.tool_records ++ tool_record tool_seq call ∷ [] }

  -- The loop over `response.tool_calls`.
  unfoldable pub dispatch_calls : List ToolCall → LoopState → Dispatched
  dispatch_calls [] s = answered s []
  dispatch_calls (call ∷ calls) s =
      let tool_seq = length s.tool_records + 1 in
      let result = call_result tool_seq call in
      let block = tool_result_block call result (tool_result_digest call.name result) in
      unless_failed (note_failure call.name result.error (dispatch_one call s))
        (λ t. add_block block (dispatch_calls calls t))

  -- The call of the provider: its event, and its record.
  unfoldable pub record_call : LoopState → LlmResponse → LoopState
  record_call s response =
      let call_seq = length s.llm_records + 1 in
      record s {
        events = s.events ++ llm_call call_seq router_role w.provider w.model ∷ [];
        llm_records =
            s.llm_records
            ++ record {
              call_seq = call_seq;
              role = router_role;
              provider = w.provider;
              model = w.model;
              stop_reason = response.stop_reason;
              input_tokens = response.input_tokens;
              output_tokens = response.output_tokens;
            }
              ∷ [];
      }

  -- What an iteration does with a response.
  unfoldable pub handle_response : LlmResponse → LoopState → Step
  handle_response response s =
      if str_eq response.stop_reason "end_turn"
      then (if is_blank response.text
          then finished (failed_turn s empty_reply)
          else finished (ok_turn s response.text))
      else if not (str_eq response.stop_reason "tool_use")
      then finished (failed_turn s (provider_problem response))
      else if has_no_calls response.tool_calls
      then finished (failed_turn s no_tool_calls)
      else after_calls response (dispatch_calls response.tool_calls s)

  -- One pass of `for _iteration in range(max_iterations)`.
  unfoldable pub iteration : LoopState → Step
  iteration s =
      let response = w.invoke (length s.llm_records + 1) w.system s.messages w.tools in
      handle_response response (record_call s response)

  unfoldable pub iterate : ℕ → ℕ → LoopState → Turn
  iterate zero cap s = failed_turn s (cap_exceeded cap)
  iterate (suc left) cap s = resume (iteration s) (iterate left cap)

  -- `run_turn`
  unfoldable pub run_turn : List Message → ℕ → Turn
  run_turn window max_iterations = iterate max_iterations max_iterations (record {
    messages = window;
    llm_records = [];
    tool_records = [];
    spent_corrections = [];
    events = [];
  })
