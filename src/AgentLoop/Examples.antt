-- ===== src/AgentLoop/Examples.antt =====
-- A run of the agent loop against a provider that calls a failing skill, an internal one, and a third
-- that succeeds, and then replies; and the theorems at that run.
use latest_poseidon.Prelude.{
  ℕ, zero, suc, ◌≤◌, ◌≡◌, ◌≢◌, refl, String, str_eq, codes, true, false, none, some, List, [], ◌∷◌,
  length, if◌then◌else◌, arith,
}
use latest_poseidon.AgentLoop.Types.{
  Text, Problem, table, SkillResult, ToolCall, LlmResponse, Message, given,
}
use latest_poseidon.AgentLoop.Content.{
  is_space, newline, join, rstrip, tool_result_digest, value_lines, result_content_text,
}
use latest_poseidon.AgentLoop.Content.Caps.{WholeLines, result_content_text-WholeLines}
use latest_poseidon.AgentLoop.Turn.{
  World, run_turn, iterate, iteration, handle_response, dispatch_calls, note_failure, call_result,
  record_call, dispatch_one, is_blank, ok_turn, failed_turn, tool_record,
}
use latest_poseidon.AgentLoop.Turn.Records.{AreNumbered, run_turn-IsBounded}
use latest_poseidon.AgentLoop.Turn.Exits.{EndsAs, run_turn-EndsAs}
use latest_poseidon.AgentLoop.Turn.Corrections.{IsHonest, failures, run_turn-Corrected}

abbrev bad_arguments : Problem
bad_arguments = record {
  status = 422;
  title = "invalid arguments";
  detail = codes "customer is missing";
}

abbrev failure : SkillResult
failure = record { succeeded = false; parts = []; proof = []; error = some bad_arguments }

abbrev volumes : SkillResult
volumes = record {
  succeeded = true;
  parts = table (codes "port" ∷ []) ((some (codes "Antwerp") ∷ none ∷ []) ∷ []) ∷ [];
  proof = codes "SELECT 1" ∷ [];
  error = none;
}

abbrev call : String → ToolCall
call name = record { id = "t1"; name = name; arguments = codes "{}" }

abbrev calling : List ToolCall → LlmResponse
calling calls = record {
  text = [];
  tool_calls = calls;
  stop_reason = "tool_use";
  input_tokens = 10;
  output_tokens = 2;
  reasoning = [];
}

abbrev replying : LlmResponse
replying = record {
  text = codes "Antwerp.";
  tool_calls = [];
  stop_reason = "end_turn";
  input_tokens = 20;
  output_tokens = 3;
  reasoning = [];
}

-- The first call fails and is corrected once; the second is of an internal skill.
abbrev reply_to : ℕ → LlmResponse
reply_to zero = replying
reply_to (suc zero) = calling (call "ops.volumes" ∷ call "report.compile" ∷ [])
reply_to (suc (suc zero)) = calling (call "ops.volumes" ∷ [])
reply_to (suc (suc (suc n))) = replying

abbrev answer_to : ℕ → SkillResult
answer_to zero = volumes
answer_to (suc zero) = failure
answer_to (suc (suc n)) = volumes

abbrev demo_world : World
demo_world = record {
  provider = "bedrock";
  model = "router";
  system = codes "You route.";
  tools = [];
  invoke = λ n system messages tools. reply_to n;
  internal = λ name. some (str_eq name "report.compile");
  dispatch = λ n name arguments. answer_to n;
  duration = λ n. 5;
}

abbrev demo_window : List Message
demo_window = given (codes "volumes in Antwerp?") ∷ []

demo_text : (run_turn demo_world demo_window 4).result.text ≡ codes "Antwerp."
unfolding run_turn iterate iteration handle_response dispatch_calls note_failure call_result
    record_call dispatch_one is_blank is_space ok_turn failed_turn tool_record
demo_text = refl

demo_capped : (run_turn demo_world demo_window 2).result.is_ok ≡ false
unfolding run_turn iterate iteration handle_response dispatch_calls note_failure call_result
    record_call dispatch_one is_blank is_space ok_turn failed_turn tool_record
demo_capped = refl

demo_records : length (run_turn demo_world demo_window 4).result.tool_records ≡ 3
unfolding run_turn iterate iteration handle_response dispatch_calls note_failure call_result
    record_call dispatch_one is_blank is_space ok_turn failed_turn tool_record
demo_records = refl

run_turn-EndsAs_example :
    EndsAs (run_turn demo_world demo_window 4).result.problem (run_turn demo_world demo_window 4)
run_turn-EndsAs_example = run_turn-EndsAs demo_world demo_window 4

run_turn-IsBounded_example :
    AreNumbered
      (run_turn demo_world demo_window 4).result.llm_records
      (run_turn demo_world demo_window 4).result.tool_records
    × (length (run_turn demo_world demo_window 4).result.llm_records ≤ 4)
run_turn-IsBounded_example = run_turn-IsBounded demo_world demo_window 4

answer_to-honest : IsHonest demo_world
answer_to-honest zero name arguments = refl
answer_to-honest (suc zero) name arguments = refl
answer_to-honest (suc (suc n)) name arguments = refl

run_turn-Corrected_example :
    ((name : String) → failures name (run_turn demo_world demo_window 4).result.tool_records ≤ 2)
    × ((run_turn demo_world demo_window 4).result.is_ok ≡ true
        → (name : String)
        → failures name (run_turn demo_world demo_window 4).result.tool_records ≤ 1)
run_turn-Corrected_example = run_turn-Corrected demo_world answer_to-honest demo_window 4

-- A registry that would let the internal skill through.
abbrev open_registry : ℕ → String → Text → SkillResult
open_registry n name arguments = if str_eq name "report.compile" then volumes else answer_to n

open_registry-same :
    (n : ℕ) (name : String) (arguments : Text)
    → demo_world.internal name ≢ some true
    → demo_world.dispatch n name arguments ≡ open_registry n name arguments
open_registry-same n name arguments h = ground arith

result_content_text-WholeLines_example :
    WholeLines
      (rstrip (
        join (newline ∷ []) (tool_result_digest "ops.volumes" volumes ∷ value_lines volumes.parts)))
      (result_content_text (tool_result_digest "ops.volumes" volumes) volumes)
result_content_text-WholeLines_example =
    result_content_text-WholeLines "ops.volumes" volumes refl (omega arith)
