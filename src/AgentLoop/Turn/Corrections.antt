-- ===== src/AgentLoop/Turn/Corrections.antt =====
-- One correction for each skill and turn: a skill that fails twice ends the turn.
use latest_poseidon.Prelude.{
  ℕ, ◌+◌, ◌≤◌, ◌≡◌, refl, subst, Option, none, some, List, [], ◌∷◌, ◌++◌, length, Bool, Bool-cases,
  true, false, not, ◌&&◌, inl, inr, arith, String, str_eq, eq_iff,
}
use latest_poseidon.AgentLoop.Types.{
  Text, Problem, SkillResult, ToolCall, ToolRecord, LlmResponse, Message,
}
use latest_poseidon.AgentLoop.Turn.Rules.{noted, Noted, Steps, handle_response-Steps, iterate-rule}
use latest_poseidon.AgentLoop.Turn.{
  World, LoopState, Turn, dispatch_one, note_failure, record_call, failed_turn, ok_turn, iteration,
  run_turn, is_member, answer, call_result, tool_record, cap_exceeded,
}

abbrev pub is_some {ℓ} : {A : Type ℓ} → Option A → Bool
is_some none = false
is_some (some a) = true

-- The contract of `SkillResult`: a problem exactly where the skill did not succeed.
abbrev pub IsHonest : World → Type 0
IsHonest w =
    (n : ℕ) (name : String) (arguments : Text)
    → is_some (w.dispatch n name arguments).error ≡ not (w.dispatch n name arguments).succeeded

abbrev pub one_if : Bool → ℕ
one_if true = 1
one_if false = 0

-- How often a skill failed.
abbrev pub failures : String → List ToolRecord → ℕ
failures name [] = 0
failures name (r ∷ rs) = one_if (str_eq r.skill_id name && not r.is_ok) + failures name rs

failures-append :
    (name : String) (rs : List ToolRecord) (r : ToolRecord)
    → failures name (rs ++ r ∷ [])
      ≡ failures name rs + one_if (str_eq r.skill_id name && not r.is_ok)
failures-append name [] r = omega arith
failures-append name (x ∷ rs) r = omega (arith, failures-append name rs r)

-- Every skill failed as often as its correction is spent: once or never.
abbrev Spent : LoopState → Type 0
Spent s =
    (name : String) → failures name s.tool_records ≡ one_if (is_member name s.spent_corrections)

abbrev AtMost : ℕ → List ToolRecord → Type 0
AtMost n rs = (name : String) → failures name rs ≤ n

abbrev AtMostTwo : LoopState → Type 0
AtMostTwo s = AtMost 2 s.tool_records

abbrev Corrected : Turn → Type 0
Corrected t =
    AtMost 2 t.result.tool_records × (t.result.is_ok ≡ true → AtMost 1 t.result.tool_records)

one_if-le : (b : Bool) → one_if b ≤ 1
one_if-le b = ground arith

Spent-AtMost : (s : LoopState) → Spent s → AtMost 1 s.tool_records
Spent-AtMost s h name = omega (arith, h name, one_if-le (is_member name s.spent_corrections))

module _ (w : World) (honest : IsHonest w) where
  answer-honest :
      (i : Option Bool) (name : String) (r : SkillResult)
      → is_some r.error ≡ not r.succeeded
      → is_some (answer i name r).error ≡ not (answer i name r).succeeded
  answer-honest none name r h = h
  answer-honest (some true) name r h = refl
  answer-honest (some false) name r h = h

  call_result-honest :
      (n : ℕ) (call : ToolCall)
      → is_some (call_result w n call).error ≡ not (call_result w n call).succeeded
  unfolding call_result
  call_result-honest n call =
      answer-honest (w.internal call.name) call.name _ (honest n call.name call.arguments)

  -- The failures after a call: one more of the called skill, if it failed.
  failures-dispatch_one :
      (call : ToolCall) (s : LoopState) (name : String)
      → failures name (dispatch_one w call s).tool_records
        ≡ failures name s.tool_records
          + one_if (
              str_eq call.name name
              && not (call_result w (length s.tool_records + 1) call).succeeded)
  unfolding dispatch_one
  failures-dispatch_one call s name =
      failures-append name s.tool_records (tool_record w (length s.tool_records + 1) call)

  spent_same :
      (called name : String) (spent : List String)
      → is_member called spent ≡ false
      → str_eq called name ≡ true
      → is_member name spent ≡ false
  spent_same called name spent m e =
      subst (λ x. is_member x spent ≡ false) ((eq_iff called name).0 e) m

  note-Spent :
      (called : String) (p : Option Problem) (ok? : Bool) (d : LoopState) (before : String → ℕ)
      → is_some p ≡ not ok?
      → ((name : String) → before name ≡ one_if (is_member name d.spent_corrections))
      → ((name : String)
          → failures name d.tool_records ≡ before name + one_if (str_eq called name && not ok?))
      → Noted Spent AtMostTwo (note_failure called p d)
  unfolding note_failure
  note-Spent called none ok? d before e h f = λ name. ground (arith, e, h name, f name)
  note-Spent called (some p) ok? d before e h f =
      elim (Bool-cases (is_member called d.spent_corrections)) [
        | inl m ↦ rw m (λ name. ground (arith, h name, f name))
        | inr m ↦ rw m (λ name.
            ground (arith, e, h name, f name, spent_same called name d.spent_corrections m))
      ]

  dispatch_one-spent :
      (call : ToolCall) (s : LoopState)
      → (dispatch_one w call s).spent_corrections ≡ s.spent_corrections
  unfolding dispatch_one
  dispatch_one-spent call s = refl

  noted-Spent : (call : ToolCall) (s : LoopState) → Spent s → Noted Spent AtMostTwo (noted w call s)
  noted-Spent call s h =
      note-Spent call.name _ (call_result w (length s.tool_records + 1) call).succeeded
        (dispatch_one w call s) (λ name. failures name s.tool_records)
        (call_result-honest (length s.tool_records + 1) call)
        (λ name. rw (dispatch_one-spent call s) (h name)) (failures-dispatch_one call s)

  failed_turn-Corrected : (s : LoopState) (p : Problem) → AtMostTwo s → Corrected (failed_turn s p)
  unfolding failed_turn
  failed_turn-Corrected s p h = (h, λ e. cc e)

  ok_turn-Corrected : (s : LoopState) (reply : Text) → Spent s → Corrected (ok_turn s reply)
  unfolding ok_turn
  ok_turn-Corrected s reply h =
      (λ name. omega (arith, Spent-AtMost s h name), λ _. Spent-AtMost s h)

  record_call-Spent :
      (s : LoopState) (response : LlmResponse) → Spent s → Spent (record_call w s response)
  unfolding record_call
  record_call-Spent s response h = h

  iteration-Steps : (s : LoopState) → Spent s → Steps Spent Corrected (iteration w s)
  unfolding iteration
  iteration-Steps s h =
      let response = w.invoke (length s.llm_records + 1) w.system s.messages w.tools in
      handle_response-Steps w response Spent AtMostTwo Corrected
        (λ t k name. omega (arith, Spent-AtMost t k name)) failed_turn-Corrected
        (λ t k _ _. ok_turn-Corrected t response.text k) (λ t m k. k) noted-Spent
        (record_call w s response) (record_call-Spent s response h)

-- Where a skill reports a problem exactly when it does not succeed, no skill fails more than twice in
-- a turn, and a turn that ends ok holds at most one failure of each skill.
pub run_turn-Corrected :
    (w : World)
    → IsHonest w
    → (window : List Message) (max_iterations : ℕ)
    → ((name : String) → failures name (run_turn w window max_iterations).result.tool_records ≤ 2)
      × ((run_turn w window max_iterations).result.is_ok ≡ true
          → (name : String)
          → failures name (run_turn w window max_iterations).result.tool_records ≤ 1)
unfolding run_turn
run_turn-Corrected w honest window max_iterations =
    iterate-rule w (λ left s. Spent s) Corrected (λ left s h. iteration-Steps w honest s h)
      (λ cap s h.
        failed_turn-Corrected w honest s (cap_exceeded cap)
          (λ name. omega (arith, Spent-AtMost s h name)))
      max_iterations max_iterations _ (λ name. refl)
