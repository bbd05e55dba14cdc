-- ===== src/Events/Streams.antt =====
-- The parts of a skill that streams while it runs.
use latest_poseidon.Prelude.{
  same_number, ℕ, ◌+◌, ◌≡◌, refl, sym, subst, ap, ap₂, ◌∙◌, inl, inr, String, not, List, [], ◌∷◌,
  ◌++◌, append-nil, append_assoc, map, length, none, some, arith, drop, keep, keep-true, keep-false,
  Bool-cases, ◌==◌,
}
use latest_poseidon.History.Transcript.{Part}
use latest_poseidon.LiveChat.{Frame, part, tool}
use latest_poseidon.Events.{
  started, status_on_wire, Wire, Finished, SseEnvelopeSink, frame, count_of, without, push_part,
  push_parts, part_emitter, emit_if, emit_part, proof_parts, artifact_parts, streamed,
  handle_tool_done, Act, tool_starts, tool_ends, opens, emits, act, act_all,
}

-- The frames that were sent.
abbrev pub frames_of : SseEnvelopeSink → List Frame
frames_of s = map (λ e. e.1) s.sent

-- Parts as frames.
abbrev pub part_frames : List Part → List Frame
part_frames parts = map (λ p. part p) parts

-- What a call of a skill does with the sink: its emitter is made, it starts, it emits parts, it ends, and
-- its emitter is used again, as a second try of the skill does.
abbrev pub call_acts : ℕ → String → List Part → Finished → List Part → List Act
call_acts seq skill emitted r late =
    opens seq
    ∷ tool_starts seq skill
    ∷ (map (λ p. emits seq p) emitted ++ tool_ends seq r ∷ map (λ p. emits seq p) late)

map-append_one :
    (sent : List (ℕ × Frame)) (e : ℕ × Frame)
    → map (λ x. x.1) (sent ++ e ∷ []) ≡ map (λ x. x.1) sent ++ e.1 ∷ []
map-append_one [] e = refl
map-append_one (x ∷ sent) e = ap (λ l. x.1 ∷ l) (map-append_one sent e)

frames_of-frame : (f : Frame) (s : SseEnvelopeSink) → frames_of (frame f s) ≡ frames_of s ++ f ∷ []
unfolding frame
frames_of-frame f s = map-append_one s.sent (s.event_seq + 1, f)

frames_of-push_parts :
    (parts : List Part) (s : SseEnvelopeSink)
    → frames_of (push_parts parts s) ≡ frames_of s ++ part_frames parts
unfolding push_parts
frames_of-push_parts [] s = sym (append-nil (frames_of s))
frames_of-push_parts (p ∷ parts) s =
    frames_of-push_parts parts (push_part p s)
    ∙ ap (λ l. l ++ part_frames parts) (frames_of-frame (part p) s)
    ∙ append_assoc (frames_of s) (part p ∷ []) (part_frames parts)

count_of-head : (seq n : ℕ) (counts : List (ℕ × ℕ)) → count_of seq ((seq, n) ∷ counts) ≡ some n
unfolding count_of
count_of-head seq n counts = rw (same_number seq)

count_of-without : (seq : ℕ) (counts : List (ℕ × ℕ)) → count_of seq (without seq counts) ≡ none
unfolding count_of
count_of-without seq [] = unfold keep in refl
count_of-without seq ((n, c) ∷ counts) = elim (Bool-cases (n == seq)) [
  | inl t ↦
      rw (keep-false (λ e. not (e.0 == seq)) (n, c) counts (ap not t)) (count_of-without seq counts)
  | inr f ↦
      rw (keep-true (λ e. not (e.0 == seq)) (n, c) counts (ap not f), f)
        (count_of-without seq counts)
]

streamed_counts-push_parts :
    (parts : List Part) (s : SseEnvelopeSink)
    → (push_parts parts s).streamed_counts ≡ s.streamed_counts
unfolding push_parts frame
streamed_counts-push_parts [] s = refl
streamed_counts-push_parts (p ∷ parts) s = streamed_counts-push_parts parts (push_part p s)

act_all-append :
    (wire : Wire) (acts bs : List Act) (s : SseEnvelopeSink)
    → act_all wire (acts ++ bs) s ≡ act_all wire bs (act_all wire acts s)
unfolding act_all
act_all-append wire [] bs s = refl
act_all-append wire (a ∷ acts) bs s = act_all-append wire acts bs (act wire a s)

-- What emitting does while a call streams.
emitted_frames :
    (wire : Wire) (seq n : ℕ) (parts : List Part) (s : SseEnvelopeSink)
    → count_of seq s.streamed_counts ≡ some n
    → let s' = act_all wire (map (λ p. emits seq p) parts) s in
      (frames_of s' ≡ frames_of s ++ part_frames parts)
      × (count_of seq s'.streamed_counts ≡ some (n + length parts))
unfolding act_all act emit_part
emitted_frames wire seq n [] s h =
    (sym (append-nil (frames_of s)), h ∙ ap (λ k. some k) (omega arith))
emitted_frames wire seq n (p ∷ parts) s h =
    let rest = map (λ p. emits seq p) parts in
    let next = emit_if (some n) seq p s in
    let (e, c) =
      emitted_frames wire seq (n + 1) parts next
        (count_of-head seq (n + 1) (without seq s.streamed_counts)) in
    subst
      (λ t.
        (frames_of (act_all wire rest t) ≡ frames_of s ++ part_frames (p ∷ parts))
        × (count_of seq (act_all wire rest t).streamed_counts ≡ some (n + length (p ∷ parts))))
      (ap (λ o. emit_if o seq p s) (sym h))
      (
        e
            ∙ ap (λ l. l ++ part_frames parts) (frames_of-frame (part p) s)
            ∙ append_assoc (frames_of s) (part p ∷ []) (part_frames parts),
        c ∙ ap (λ k. some k) (omega arith),
      )

-- An emitter of a call that is done.
act_all-late :
    (wire : Wire) (seq : ℕ) (parts : List Part) (s : SseEnvelopeSink)
    → count_of seq s.streamed_counts ≡ none
    → act_all wire (map (λ p. emits seq p) parts) s ≡ s
unfolding act_all act emit_part
act_all-late wire seq [] s h = refl
act_all-late wire seq (p ∷ parts) s h =
    ap (λ o. act_all wire (map (λ p. emits seq p) parts) (emit_if o seq p s)) h
    ∙ act_all-late wire seq parts s h

push_parts-append :
    (ps qs : List Part) (s : SseEnvelopeSink)
    → push_parts (ps ++ qs) s ≡ push_parts qs (push_parts ps s)
unfolding push_parts
push_parts-append [] qs s = refl
push_parts-append (p ∷ ps) qs s = push_parts-append ps qs (push_part p s)

-- The end of a call that has streamed n parts.
handle_tool_done-streamed :
    (wire : Wire) (seq n : ℕ) (r : Finished) (s : SseEnvelopeSink)
    → count_of seq s.streamed_counts ≡ some n
    → (frames_of (handle_tool_done wire seq r s)
        ≡ frames_of s
          ++ tool seq (wire.tool_fields r.skill_id (status_on_wire r.succeeded))
            ∷ part_frames
                (drop n r.parts ++ (proof_parts wire r.proof ++ artifact_parts r.artifacts)))
      × (count_of seq (handle_tool_done wire seq r s).streamed_counts ≡ none)
unfolding handle_tool_done frame
handle_tool_done-streamed wire seq n r s h =
    let p = proof_parts wire r.proof in
    let a = artifact_parts r.artifacts in
    let rest = drop n r.parts in
    let end = tool seq (wire.tool_fields r.skill_id (status_on_wire r.succeeded)) in
    let told = record s { tool_result_parts = (seq, r.parts) ∷ s.tool_result_parts } in
    let base = record (frame end told) { streamed_counts = without seq s.streamed_counts } in
    subst
      (λ t.
        (frames_of t ≡ frames_of s ++ end ∷ part_frames (rest ++ (p ++ a)))
        × (count_of seq t.streamed_counts ≡ none))
      (push_parts-append rest (p ++ a) base
        ∙ push_parts-append p a (push_parts rest base)
        ∙ ap (λ o. push_parts a (push_parts p (push_parts (drop (streamed o) r.parts) base)))
            (sym h))
      (
        frames_of-push_parts (rest ++ (p ++ a)) base
            ∙ ap (λ l. l ++ part_frames (rest ++ (p ++ a))) (frames_of-frame end told)
            ∙ append_assoc (frames_of s) (end ∷ []) (part_frames (rest ++ (p ++ a))),
        ap (count_of seq) (streamed_counts-push_parts (rest ++ (p ++ a)) base)
            ∙ count_of-without seq s.streamed_counts,
      )

-- The list that a prefix of its length leaves.
drop-length : (ps qs : List Part) → drop (length ps) (ps ++ qs) ≡ qs
drop-length [] qs = refl
drop-length (p ∷ ps) qs = drop-length ps qs

-- A skill that emits its first parts while it runs, and returns all of them: the client gets its start, the
-- parts that were emitted, its end, and then the other parts, its proof and its artifacts, each exactly
-- once and in order, from any state of the sink. Emitters that are used after the end send nothing. The
-- parts that are emitted are the first ones of the result.
pub call_acts-frames :
    (wire : Wire) (seq : ℕ) (skill : String) (emitted more late : List Part) (r : Finished)
    (s : SseEnvelopeSink)
    → r.parts ≡ emitted ++ more
    → frames_of (act_all wire (call_acts seq skill emitted r late) s)
      ≡ frames_of s
        ++ tool seq (wire.tool_fields skill started)
          ∷ (part_frames emitted
              ++ tool seq (wire.tool_fields r.skill_id (status_on_wire r.succeeded))
                ∷ part_frames (more ++ (proof_parts wire r.proof ++ artifact_parts r.artifacts)))
unfolding act_all act part_emitter frame
call_acts-frames wire seq skill emitted more late r s h =
    let start = tool seq (wire.tool_fields skill started) in
    let end = tool seq (wire.tool_fields r.skill_id (status_on_wire r.succeeded)) in
    let tail = proof_parts wire r.proof ++ artifact_parts r.artifacts in
    let opened = part_emitter seq s in
    let begun = frame start opened in
    let streaming = act_all wire (map (λ p. emits seq p) emitted) begun in
    let ended = handle_tool_done wire seq r streaming in
    let (e, c) =
      emitted_frames wire seq 0 emitted begun
        (count_of-head seq 0 (without seq s.streamed_counts)) in
    let (d, z) = handle_tool_done-streamed wire seq (0 + length emitted) r streaming c in
    let sent : frames_of streaming ≡ (frames_of s ++ start ∷ []) ++ part_frames emitted =
      e ∙ ap (λ l. l ++ part_frames emitted) (frames_of-frame start opened) in
    let left : drop (0 + length emitted) r.parts ≡ more =
      ap₂ drop {y = length emitted} (omega arith) h ∙ drop-length emitted more in
    ap frames_of (
      act_all-append wire (map (λ p. emits seq p) emitted)
        (tool_ends seq r ∷ map (λ p. emits seq p) late) begun
      ∙ act_all-late wire seq late ended z)
    ∙ d
    ∙ ap₂ (λ f m. f ++ end ∷ part_frames (m ++ tail)) sent left
    ∙ append_assoc (frames_of s ++ start ∷ []) (part_frames emitted)
        (end ∷ part_frames (more ++ tail))
    ∙ append_assoc (frames_of s) (start ∷ [])
        (part_frames emitted ++ end ∷ part_frames (more ++ tail))
