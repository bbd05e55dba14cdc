-- ===== src/AgentLoop/Turn/Internal.antt =====
-- An internal skill is never dispatched by the loop.
use latest_poseidon.Prelude.{
  ℕ, zero, suc, ◌+◌, ◌≡◌, ◌≢◌, refl, Option, none, some, List, [], ◌∷◌, length, true, false, String,
  Bool,
}
use latest_poseidon.AgentLoop.Types.{Text, SkillResult, ToolCall, Message}
use latest_poseidon.AgentLoop.Content.{tool_result_digest}
use latest_poseidon.AgentLoop.Turn.{
  World, LoopState, resume, dispatch_one, dispatch_calls, record_call, handle_response, iteration,
  iterate, run_turn, answer, call_result, unless_failed, add_block, note_failure, tool_result_block,
}

answer_same :
    (i : Option Bool) (name : String) (r r' : SkillResult)
    → (i ≢ some true → r ≡ r')
    → answer i name r ≡ answer i name r'
answer_same none name r r' h = h (λ e. cc e)
answer_same (some true) name r r' h = refl
answer_same (some false) name r r' h = h (λ e. cc e)

-- The same world with another registry.
abbrev pub with_dispatch : World → (ℕ → String → Text → SkillResult) → World
with_dispatch w d = record w { dispatch = d }

module _ (w : World) (d : ℕ → String → Text → SkillResult)
    (same : (n : ℕ) (name : String) (arguments : Text)
      → w.internal name ≢ some true
      → w.dispatch n name arguments ≡ d n name arguments) where
  call_result_same :
      (n : ℕ) (call : ToolCall) → call_result w n call ≡ call_result (with_dispatch w d) n call
  unfolding call_result
  call_result_same n call =
      answer_same (w.internal call.name) call.name _ _ (same n call.name call.arguments)

  dispatch_one_same :
      (call : ToolCall) (s : LoopState)
      → dispatch_one w call s ≡ dispatch_one (with_dispatch w d) call s
  unfolding dispatch_one
  dispatch_one_same call s = rw (call_result_same (length s.tool_records + 1) call)

  dispatch_calls_same :
      (calls : List ToolCall) (s : LoopState)
      → dispatch_calls w calls s ≡ dispatch_calls (with_dispatch w d) calls s
  unfolding dispatch_calls
  dispatch_calls_same [] s = refl
  dispatch_calls_same (call ∷ calls) s =
      let e = call_result_same (length s.tool_records + 1) call in
      let q = dispatch_one_same call s in
      λ i. unless_failed (note_failure call.name (e i).error (q i)) (λ t.
        add_block (tool_result_block call (e i) (tool_result_digest call.name (e i)))
          (dispatch_calls_same calls t i))

  iteration_same : (s : LoopState) → iteration w s ≡ iteration (with_dispatch w d) s
  unfolding iteration handle_response record_call
  iteration_same s = rw dispatch_calls_same

  iterate_same :
      (left cap : ℕ) (s : LoopState) → iterate w left cap s ≡ iterate (with_dispatch w d) left cap s
  unfolding iterate
  iterate_same zero cap s = refl
  iterate_same (suc left) cap s = λ i. resume (iteration_same s i) (λ t. iterate_same left cap t i)

-- Two registries that answer alike for every skill that is not internal give the same turn: the same
-- result, records and events. So the loop never uses what an internal skill answers, whatever name
-- the model calls.
pub run_turn-internal :
    (w : World) (d : ℕ → String → Text → SkillResult)
    → ((n : ℕ) (name : String) (arguments : Text)
        → w.internal name ≢ some true
        → w.dispatch n name arguments ≡ d n name arguments)
    → (window : List Message) (max_iterations : ℕ)
    → run_turn w window max_iterations ≡ run_turn (with_dispatch w d) window max_iterations
unfolding run_turn
run_turn-internal w d same window max_iterations =
    iterate_same w d same max_iterations max_iterations _
