-- ===== src/AgentLoop/Turn/Rules.antt =====
-- One rule for each loop of `run_turn`: what every step keeps, the loop keeps.
use latest_poseidon.Prelude.{
  ℕ, zero, suc, ◌+◌, ◌≡◌, Option, none, some, List, [], ◌∷◌, length, Bool-cases, false, inl, inr,
  str_eq, eq_iff, String,
}
use latest_poseidon.AgentLoop.Types.{Problem, ToolCall, LlmResponse, ToolResultBlock, Message}
use latest_poseidon.AgentLoop.Turn.{
  is_member, World, LoopState, Turn, Dispatched, failed, answered, Step, finished, again, resume,
  failed_turn, ok_turn, unless_failed, add_block, dispatch_one, note_failure, dispatch_calls,
  after_calls, handle_response, iteration, iterate, is_blank, has_no_calls, empty_reply,
  no_tool_calls, provider_problem, cap_exceeded, call_result,
}

-- The state that a call leaves, with its failure noted.
abbrev pub noted : World → ToolCall → LoopState → Option Problem × LoopState
noted w call s =
    note_failure call.name (call_result w (length s.tool_records + 1) call).error
      (dispatch_one w call s)

-- How the calls of a response may end: `F` where one ends the turn, `P` where all are answered.
abbrev pub Ends : (LoopState → Type 0) → (LoopState → Type 0) → Dispatched → Type 0
Ends P F (failed s p) = F s
Ends P F (answered s blocks) = P s

abbrev pub Noted : (LoopState → Type 0) → (LoopState → Type 0) → Option Problem × LoopState → Type 0
Noted P F (none, s) = P s
Noted P F (some p, s) = F s

-- Where a failure is noted only the spent corrections change.
pub note_failure-Noted :
    (P F : LoopState → Type 0) (name : String) (p : Option Problem) (s : LoopState)
    → ((t : LoopState) → P t → F t)
    → ((spent : List String) → P (record s { spent_corrections = spent }))
    → Noted P F (note_failure name p s)
unfolding note_failure
note_failure-Noted P F name none s weaken h = h s.spent_corrections
note_failure-Noted P F name (some p) s weaken h =
    elim (Bool-cases (is_member name s.spent_corrections)) [
      | inl m ↦ rw m (weaken s (h s.spent_corrections))
      | inr m ↦ rw m (h (name ∷ s.spent_corrections))
    ]

Ends-add_block :
    (P F : LoopState → Type 0) (b : ToolResultBlock) (d : Dispatched)
    → Ends P F d
    → Ends P F (add_block b d)
Ends-add_block P F b (failed s p) h = h
Ends-add_block P F b (answered s bs) h = h

Ends-unless_failed :
    (P F : LoopState → Type 0) (n : Option Problem × LoopState) (k : LoopState → Dispatched)
    → Noted P F n
    → ((s : LoopState) → P s → Ends P F (k s))
    → Ends P F (unless_failed n k)
Ends-unless_failed P F (none, s) k h g = g s h
Ends-unless_failed P F (some p, s) k h g = h

module _ (w : World) (P F : LoopState → Type 0)
    (each : (call : ToolCall) (s : LoopState) → P s → Noted P F (noted w call s)) where
  pub dispatch_calls-Ends :
      (calls : List ToolCall) (s : LoopState) → P s → Ends P F (dispatch_calls w calls s)
  unfolding dispatch_calls
  dispatch_calls-Ends [] s h = h
  dispatch_calls-Ends (call ∷ calls) s h =
      Ends-unless_failed P F (noted w call s) _ (each call s h)
        (λ t k. Ends-add_block P F _ _ (dispatch_calls-Ends calls t k))

-- How an iteration may end.
abbrev pub Steps : (LoopState → Type 0) → (Turn → Type 0) → Step → Type 0
Steps P Q (finished t) = Q t
Steps P Q (again s) = P s

Steps-after_calls :
    (P F : LoopState → Type 0) (Q : Turn → Type 0) (response : LlmResponse) (d : Dispatched)
    → ((s : LoopState) (p : Problem) → F s → Q (failed_turn s p))
    → ((s : LoopState) (m : List Message) → P s → P (record s { messages = m }))
    → Ends P F d
    → Steps P Q (after_calls response d)
Steps-after_calls P F Q response (failed s p) fails moves h = fails s p h
Steps-after_calls P F Q response (answered s blocks) fails moves h = moves s _ h

-- The branches of a response: a reply that is not blank, a failure, or the calls.
module _ (w : World) (response : LlmResponse) (P F : LoopState → Type 0) (Q : Turn → Type 0)
    (weaken : (s : LoopState) → P s → F s)
    (fails : (s : LoopState) (p : Problem) → F s → Q (failed_turn s p))
    (replies : (s : LoopState)
      → P s
      → response.stop_reason ≡ "end_turn"
      → is_blank response.text ≡ false
      → Q (ok_turn s response.text))
    (moves : (s : LoopState) (m : List Message) → P s → P (record s { messages = m }))
    (each : (call : ToolCall) (s : LoopState) → P s → Noted P F (noted w call s)) where
  pub handle_response-Steps : (s : LoopState) → P s → Steps P Q (handle_response w response s)
  unfolding handle_response
  handle_response-Steps s h = elim (Bool-cases (str_eq response.stop_reason "end_turn")) [
    | inl e ↦ rw e (elim (Bool-cases (is_blank response.text)) [
      | inl b ↦ rw b (fails s empty_reply (weaken s h))
      | inr n ↦ rw n (replies s h ((eq_iff response.stop_reason "end_turn").0 e) n)
    ])
    | inr o ↦ rw o (elim (Bool-cases (str_eq response.stop_reason "tool_use")) [
      | inr u ↦ rw u (fails s (provider_problem response) (weaken s h))
      | inl t ↦ rw t (elim (Bool-cases (has_no_calls response.tool_calls)) [
        | inl c ↦ rw c (fails s no_tool_calls (weaken s h))
        | inr c ↦ rw c (
            Steps-after_calls P F Q response (dispatch_calls w response.tool_calls s) fails moves
              (dispatch_calls-Ends w P F each response.tool_calls s h))
      ])
    ])
  ]

Steps-resume :
    (P : LoopState → Type 0) (Q : Turn → Type 0) (x : Step) (k : LoopState → Turn)
    → Steps P Q x
    → ((s : LoopState) → P s → Q (k s))
    → Q (resume x k)
Steps-resume P Q (finished t) k h g = h
Steps-resume P Q (again s) k h g = g s h

-- The loop of the turn: `P n` holds where `n` iterations are left.
module _ (w : World) (P : ℕ → LoopState → Type 0) (Q : Turn → Type 0)
    (pass : (left : ℕ) (s : LoopState) → P (suc left) s → Steps (P left) Q (iteration w s))
    (exceed : (cap : ℕ) (s : LoopState) → P 0 s → Q (failed_turn s (cap_exceeded cap))) where
  pub iterate-rule : (left cap : ℕ) (s : LoopState) → P left s → Q (iterate w left cap s)
  unfolding iterate
  iterate-rule zero cap s h = exceed cap s h
  iterate-rule (suc left) cap s h =
      Steps-resume (P left) Q (iteration w s) (iterate w left cap) (pass left s h)
        (λ t k. iterate-rule left cap t k)

pub Steps-weaken :
    (P P' : LoopState → Type 0) (Q : Turn → Type 0) (x : Step)
    → ((s : LoopState) → P s → P' s)
    → Steps P Q x
    → Steps P' Q x
Steps-weaken P P' Q (finished t) f h = h
Steps-weaken P P' Q (again s) f h = f s h
