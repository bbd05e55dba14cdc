-- ===== src/AgentLoop/Turn/Exits.antt =====
-- How a turn ends, and what the sink is told of it.
use latest_poseidon.Prelude.{
  ℕ, suc, ◌+◌, ◌≡◌, refl, Option, none, some, List, [], ◌∷◌, ◌++◌, length, true, false, arith,
  String,
}
use latest_poseidon.AgentLoop.Types.{
  Problem, ToolCall, LlmResponse, LlmRecord, Event, llm_call, tool_start, tool_done, turn_error,
  Message,
}
use latest_poseidon.AgentLoop.Turn.Rules.{
  noted, Noted, note_failure-Noted, Steps, Steps-weaken, handle_response-Steps, iterate-rule,
}
use latest_poseidon.AgentLoop.Turn.{
  World, LoopState, Turn, dispatch_one, record_call, failed_turn, ok_turn, iteration, run_turn,
  is_blank, cap_exceeded,
}

-- How many errors the sink was told of.
abbrev pub errors_told : List Event → ℕ
errors_told [] = 0
errors_told (turn_error p ∷ es) = suc (errors_told es)
errors_told (llm_call n r p m ∷ es) = errors_told es
errors_told (tool_start n s a ∷ es) = errors_told es
errors_told (tool_done n s o d t r ∷ es) = errors_told es

errors_told-append : (es fs : List Event) → errors_told (es ++ fs) ≡ errors_told es + errors_told fs
errors_told-append [] fs = omega arith
errors_told-append (turn_error p ∷ es) fs = omega (arith, errors_told-append es fs)
errors_told-append (llm_call n r p m ∷ es) fs = errors_told-append es fs
errors_told-append (tool_start n s a ∷ es) fs = errors_told-append es fs
errors_told-append (tool_done n s o d t r ∷ es) fs = errors_told-append es fs

-- The stop reason of the last provider call.
abbrev pub last_stop : List LlmRecord → Option String
last_stop [] = none
last_stop (r ∷ []) = some r.stop_reason
last_stop (r ∷ r' ∷ rs) = last_stop (r' ∷ rs)

last_stop-append :
    (rs : List LlmRecord) (r : LlmRecord) → last_stop (rs ++ r ∷ []) ≡ some r.stop_reason
last_stop-append [] r = refl
last_stop-append (x ∷ []) r = refl
last_stop-append (x ∷ y ∷ rs) r = last_stop-append (y ∷ rs) r

-- A turn that ends without a problem is ok: its last provider call stopped with "end_turn", its reply
-- is not blank, and no error was told. A turn that ends with a problem is not: it has no reply, and
-- that problem is the only error told, and the last event.
abbrev pub EndsAs : Option Problem → Turn → Type 0
EndsAs none t =
    (t.result.is_ok ≡ true)
    × (last_stop t.result.llm_records ≡ some "end_turn")
    × (is_blank t.result.text ≡ false)
    × (errors_told t.events ≡ 0)
EndsAs (some p) t =
    (t.result.is_ok ≡ false)
    × (t.result.text ≡ [])
    × (before : List Event) × (t.events ≡ before ++ turn_error p ∷ [])
    × (errors_told before ≡ 0)

abbrev EndsWell : Turn → Type 0
EndsWell t = EndsAs t.result.problem t

abbrev Quiet : LoopState → Type 0
Quiet s = errors_told s.events ≡ 0

-- While a response is handled.
abbrev Handling : LlmResponse → LoopState → Type 0
Handling response s = Quiet s × (last_stop s.llm_records ≡ some response.stop_reason)

module _ (w : World) where
  dispatch_one-Handling :
      (response : LlmResponse) (call : ToolCall) (s : LoopState) (spent : List String)
      → Handling response s
      → Handling response (record (dispatch_one w call s) { spent_corrections = spent })
  unfolding dispatch_one
  dispatch_one-Handling response call s spent (q, l) =
      let start = tool_start (length s.tool_records + 1) call.name call.arguments in
      (
        omega (
          arith,
          errors_told-append (s.events ++ start ∷ []),
          errors_told-append s.events (start ∷ []),
        ),
        l,
      )

  noted-Handling :
      (response : LlmResponse) (call : ToolCall) (s : LoopState)
      → Handling response s
      → Noted (Handling response) Quiet (noted w call s)
  noted-Handling response call s h =
      note_failure-Noted (Handling response) Quiet call.name _ (dispatch_one w call s) (λ t k. k.0)
        (λ spent. dispatch_one-Handling response call s spent h)

  failed_turn-EndsWell : (s : LoopState) (p : Problem) → Quiet s → EndsWell (failed_turn s p)
  unfolding failed_turn
  failed_turn-EndsWell s p h = (refl, refl, s.events, refl, h)

  ok_turn-EndsWell :
      (response : LlmResponse) (s : LoopState)
      → Handling response s
      → response.stop_reason ≡ "end_turn"
      → is_blank response.text ≡ false
      → EndsWell (ok_turn s response.text)
  unfolding ok_turn
  ok_turn-EndsWell response s (q, l) e n = (refl, rw (l, e), n, q)

  record_call-Handling :
      (s : LoopState) (response : LlmResponse)
      → Quiet s
      → Handling response (record_call w s response)
  unfolding record_call
  record_call-Handling s response h =
      (omega (arith, errors_told-append s.events, h), last_stop-append s.llm_records _)

  iteration-Steps : (s : LoopState) → Quiet s → Steps Quiet EndsWell (iteration w s)
  unfolding iteration
  iteration-Steps s h =
      let response = w.invoke (length s.llm_records + 1) w.system s.messages w.tools in
      Steps-weaken (Handling response) Quiet EndsWell _ (λ t k. k.0)
        (handle_response-Steps w response (Handling response) Quiet EndsWell (λ t k. k.0)
          failed_turn-EndsWell (ok_turn-EndsWell response) (λ t m k. k) (noted-Handling response)
          (record_call w s response) (record_call-Handling s response h))

-- Every turn ends in one of two ways: ok with a reply that is not blank, after a provider call that
-- stopped with "end_turn", and with no error told; or with a problem, no reply, and that problem told
-- to the sink exactly once, as the last event.
pub run_turn-EndsAs :
    (w : World) (window : List Message) (max_iterations : ℕ)
    → EndsAs (run_turn w window max_iterations).result.problem (run_turn w window max_iterations)
unfolding run_turn
run_turn-EndsAs w window max_iterations =
    iterate-rule w (λ left s. Quiet s) EndsWell (λ left s h. iteration-Steps w s h)
      (λ cap s h. failed_turn-EndsWell w s (cap_exceeded cap) h) max_iterations max_iterations _
      refl
