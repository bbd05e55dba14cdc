-- ===== src/Events/Numbers.antt =====
-- The ids of the frames of a turn.
use latest_poseidon.Prelude.{
  ℕ, ◌+◌, ◌≡◌, refl, List, [], ◌∷◌, ◌++◌, length, Option, none, some, arith, drop,
}
use latest_poseidon.History.Transcript.{Part}
use latest_poseidon.LiveChat.{Frame, part}
use latest_poseidon.Events.{
  Wire, SseEnvelopeSink, new_sink, frame, count_of, push_part, push_parts, part_emitter, emit_if,
  emit_part, proof_parts, artifact_parts, streamed, handle_tool_done, Act, tool_starts, tool_ends,
  turn_fails, llm_call, opens, emits, pushes, pushes_token, accepts, finishes, act, act_all,
}

-- The ids of a list of frames are n and what follows it.
abbrev pub CountsFrom : ℕ → List (ℕ × Frame) → Type 0
CountsFrom n [] = Unit {0}
CountsFrom n ((id, f) ∷ sent) = (id ≡ n) × CountsFrom (n + 1) sent

-- The ids of a sink are 1 to `event_seq`.
pub record IsNumbered (s : SseEnvelopeSink) : Type 0 where
  pub counts : CountsFrom 1 s.sent
  pub last : s.event_seq ≡ length s.sent

CountsFrom-append :
    (n : ℕ) (sent : List (ℕ × Frame)) (id : ℕ) (f : Frame)
    → CountsFrom n sent
    → id ≡ n + length sent
    → CountsFrom n (sent ++ (id, f) ∷ [])
CountsFrom-append n [] id f h e = (omega (arith, e), tt)
CountsFrom-append n (x ∷ sent) id f h e =
    (h.0, CountsFrom-append (n + 1) sent id f h.1 (omega (arith, e)))

length-append_one :
    (sent : List (ℕ × Frame)) (x : ℕ × Frame) → length (sent ++ x ∷ []) ≡ length sent + 1
length-append_one [] x = omega arith
length-append_one (y ∷ sent) x = omega (arith, length-append_one sent x)

frame-IsNumbered : (f : Frame) (s : SseEnvelopeSink) → IsNumbered s → IsNumbered (frame f s)
unfolding frame
frame-IsNumbered f s h = record {
  counts = CountsFrom-append 1 s.sent (s.event_seq + 1) f h.counts (omega (arith, h.last));
  last = omega (arith, h.last, length-append_one s.sent (s.event_seq + 1, f));
}

push_parts-IsNumbered :
    (parts : List Part) (s : SseEnvelopeSink) → IsNumbered s → IsNumbered (push_parts parts s)
unfolding push_parts
push_parts-IsNumbered [] s h = h
push_parts-IsNumbered (p ∷ parts) s h =
    push_parts-IsNumbered parts (push_part p s) (frame-IsNumbered (part p) s h)

emit_if-IsNumbered :
    (count : Option ℕ) (seq : ℕ) (p : Part) (s : SseEnvelopeSink)
    → IsNumbered s
    → IsNumbered (emit_if count seq p s)
emit_if-IsNumbered none seq p s h = h
emit_if-IsNumbered (some n) seq p s h =
    let pushed = frame-IsNumbered (part p) s h in
    record { counts = pushed.counts; last = pushed.last }

act-IsNumbered :
    (wire : Wire) (a : Act) (s : SseEnvelopeSink) → IsNumbered s → IsNumbered (act wire a s)
unfolding act part_emitter emit_part handle_tool_done
act-IsNumbered wire (tool_starts seq skill) s h = frame-IsNumbered _ s h
act-IsNumbered wire (tool_ends seq r) s h =
    let told =
      frame-IsNumbered _ (record s { tool_result_parts = (seq, r.parts) ∷ s.tool_result_parts })
        (record { counts = h.counts; last = h.last }) in
    push_parts-IsNumbered (artifact_parts r.artifacts) _ (
      push_parts-IsNumbered (proof_parts wire r.proof) _ (
        push_parts-IsNumbered (drop (streamed (count_of seq s.streamed_counts)) r.parts) _
          (record { counts = told.counts; last = told.last })))
act-IsNumbered wire (turn_fails problem) s h = frame-IsNumbered _ s h
act-IsNumbered wire llm_call s h = h
act-IsNumbered wire (opens seq) s h = record { counts = h.counts; last = h.last }
act-IsNumbered wire (emits seq p) s h =
    emit_if-IsNumbered (count_of seq s.streamed_counts) seq p s h
act-IsNumbered wire (pushes p) s h = frame-IsNumbered _ s h
act-IsNumbered wire (pushes_token t) s h = frame-IsNumbered _ s h
act-IsNumbered wire (accepts n) s h = frame-IsNumbered _ s h
act-IsNumbered wire finishes s h = frame-IsNumbered _ s h

acts-IsNumbered :
    (wire : Wire) (acts : List Act) (s : SseEnvelopeSink)
    → IsNumbered s
    → IsNumbered (act_all wire acts s)
unfolding act_all
acts-IsNumbered wire [] s h = h
acts-IsNumbered wire (a ∷ acts) s h =
    acts-IsNumbered wire acts (act wire a s) (act-IsNumbered wire a s h)

-- Whatever a turn does with its sink, in any order, the ids of the frames that are sent are 1, 2, 3 and
-- so on, without a gap or a repetition.
pub act_all-IsNumbered : (wire : Wire) (acts : List Act) → IsNumbered (act_all wire acts new_sink)
act_all-IsNumbered wire acts =
    acts-IsNumbered wire acts new_sink (record { counts = tt; last = refl })
