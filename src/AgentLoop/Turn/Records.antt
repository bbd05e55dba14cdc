-- ===== src/AgentLoop/Turn/Records.antt =====
-- The two record streams of a turn: numbered from 1, and at most `max_iterations` provider calls.
use latest_poseidon.Prelude.{
  ℕ, suc, ◌+◌, ◌≤◌, ◌≡◌, List, [], ◌∷◌, ◌++◌, length, length-append, arith, String,
}
use latest_poseidon.AgentLoop.Types.{
  Text, Problem, ToolCall, LlmResponse, ToolRecord, LlmRecord, Message,
}
use latest_poseidon.AgentLoop.Turn.Rules.{
  noted, Noted, note_failure-Noted, Steps, handle_response-Steps, iterate-rule,
}
use latest_poseidon.AgentLoop.Turn.{
  World, LoopState, Turn, failed_turn, ok_turn, dispatch_one, record_call, iteration, run_turn,
  tool_record, cap_exceeded,
}

-- The elements are numbered upwards from `first`.
abbrev pub Numbered {ℓ} : {A : Type ℓ} → (A → ℕ) → ℕ → List A → Type 0
Numbered number first [] = Unit {0}
Numbered number first (x ∷ xs) = (number x ≡ first) × Numbered number (first + 1) xs

pub Numbered-append {ℓ} :
    {A : Type ℓ} (number : A → ℕ) (first : ℕ) (xs : List A) (x : A)
    → Numbered number first xs
    → number x ≡ first + length xs
    → Numbered number first (xs ++ x ∷ [])
Numbered-append number first [] x h e = (omega arith, tt)
Numbered-append number first (y ∷ xs) x h e =
    (h.0, Numbered-append number (first + 1) xs x h.1 (omega arith))

tool_record-seq :
    (w : World) (n : ℕ) (call : ToolCall) → (tool_record w (n + 1) call).tool_seq ≡ 1 + n
unfolding tool_record
tool_record-seq w n call = omega arith

-- The records of a turn, or of a state within it.
pub record AreNumbered (calls : List LlmRecord) (tools : List ToolRecord) : Type 0 where
  pub calls_numbered : Numbered (λ r. r.call_seq) 1 calls
  pub tools_numbered : Numbered (λ r. r.tool_seq) 1 tools

-- A state with `left` iterations left of `bound`.
abbrev Within : ℕ → ℕ → LoopState → Type 0
Within bound left s =
    AreNumbered s.llm_records s.tool_records × (length s.llm_records + left ≡ bound)

abbrev IsBounded : ℕ → Turn → Type 0
IsBounded bound t =
    AreNumbered t.result.llm_records t.result.tool_records × (length t.result.llm_records ≤ bound)

module _ (w : World) (bound : ℕ) where
  dispatch_one-Within :
      (left : ℕ) (call : ToolCall) (s : LoopState) (spent : List String)
      → Within bound left s
      → Within bound left (record (dispatch_one w call s) { spent_corrections = spent })
  unfolding dispatch_one
  dispatch_one-Within left call s spent (h, e) = (
    record {
      calls_numbered = h.calls_numbered;
      tools_numbered =
          Numbered-append (λ r. r.tool_seq) 1 s.tool_records
            (tool_record w (length s.tool_records + 1) call) h.tools_numbered
            (tool_record-seq w _ call);
    },
    e,
  )

  noted-Within :
      (left : ℕ) (call : ToolCall) (s : LoopState)
      → Within bound left s
      → Noted (Within bound left) (Within bound left) (noted w call s)
  noted-Within left call s h =
      note_failure-Noted (Within bound left) (Within bound left) call.name _ (dispatch_one w call s)
        (λ t k. k) (λ spent. dispatch_one-Within left call s spent h)

  record_call-Within :
      (left : ℕ) (s : LoopState) (response : LlmResponse)
      → Within bound (suc left) s
      → Within bound left (record_call w s response)
  unfolding record_call
  record_call-Within left s response (h, e) = (
    record {
      calls_numbered =
          Numbered-append (λ r. r.call_seq) 1 s.llm_records _ h.calls_numbered (omega arith);
      tools_numbered = h.tools_numbered;
    },
    omega (arith, length-append s.llm_records),
  )

  failed_turn-IsBounded :
      (left : ℕ) (s : LoopState) (p : Problem)
      → Within bound left s
      → IsBounded bound (failed_turn s p)
  unfolding failed_turn
  failed_turn-IsBounded left s p (h, e) = (h, omega arith)

  ok_turn-IsBounded :
      (left : ℕ) (s : LoopState) (reply : Text)
      → Within bound left s
      → IsBounded bound (ok_turn s reply)
  unfolding ok_turn
  ok_turn-IsBounded left s reply (h, e) = (h, omega arith)

  iteration-Steps :
      (left : ℕ) (s : LoopState)
      → Within bound (suc left) s
      → Steps (Within bound left) (IsBounded bound) (iteration w s)
  unfolding iteration
  iteration-Steps left s h =
      let response = w.invoke (length s.llm_records + 1) w.system s.messages w.tools in
      handle_response-Steps w response (Within bound left) (Within bound left) (IsBounded bound)
        (λ t k. k) (λ t p k. failed_turn-IsBounded left t p k)
        (λ t k _ _. ok_turn-IsBounded left t response.text k) (λ t m k. k) (noted-Within left)
        (record_call w s response) (record_call-Within left s response h)

-- However the provider and the skills answer, a turn ends after at most `max_iterations` provider
-- calls; its provider calls are numbered 1, 2, ... and so are its tool calls, across all iterations.
pub run_turn-IsBounded :
    (w : World) (window : List Message) (max_iterations : ℕ)
    → AreNumbered
        (run_turn w window max_iterations).result.llm_records
        (run_turn w window max_iterations).result.tool_records
      × (length (run_turn w window max_iterations).result.llm_records ≤ max_iterations)
unfolding run_turn
run_turn-IsBounded w window max_iterations =
    iterate-rule w (Within max_iterations) (IsBounded max_iterations)
      (iteration-Steps w max_iterations)
      (λ cap s h. failed_turn-IsBounded w max_iterations 0 s (cap_exceeded cap) h) max_iterations
      max_iterations _ (record { calls_numbered = tt; tools_numbered = tt }, omega arith)
