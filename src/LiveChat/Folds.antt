-- ===== src/LiveChat/Folds.antt =====
-- What the transcript of a turn holds of its frames.
use latest_poseidon.Prelude.{
  same_number, ℕ, ◌≡◌, refl, sym, subst, ap, ◌∙◌, inl, inr, true, false, Option, none, some, List,
  [], ◌∷◌, ◌++◌, append-nil, append_assoc, All, drop, ◌==◌, if◌then◌else◌, Bool-cases, arith,
}
use latest_poseidon.AgentLoop.Types.{Text}
use latest_poseidon.History.Transcript.{
  Part, markdown, tool_event, other, append_part, record_tool_event, fold_token,
}
use latest_poseidon.LiveChat.{
  Frame, accepted, token, tool, part, done, error, record_transcript_frame,
}

-- The frames of a turn, folded into the parts.
unfoldable pub record_all : List Frame → List Part → List Part
record_all [] parts = parts
record_all (f ∷ frames) parts = record_all frames (record_transcript_frame f parts)

-- The payloads of the tool events with a `tool_seq`.
unfoldable pub events : ℕ → List Part → List Text
events seq [] = []
events seq (tool_event n payload ∷ parts) =
    let rest = events seq parts in if n == seq then payload ∷ rest else rest
events seq (markdown t ∷ parts) = events seq parts
events seq (other kind payload ∷ parts) = events seq parts

abbrev pub markdown_of : Part → Text
markdown_of (markdown t) = t
markdown_of p = []

-- The markdown of all parts, in order.
unfoldable pub texts : List Part → Text
texts [] = []
texts (p ∷ parts) = markdown_of p ++ texts parts

abbrev pub text_of : Frame → Text
text_of (token t) = t
text_of (part p) = markdown_of p
text_of f = []

-- The text of all frames, in order.
unfoldable pub sent_text : List Frame → Text
sent_text [] = []
sent_text (f ∷ frames) = text_of f ++ sent_text frames

abbrev pub newer : ℕ → Frame → Option Text → Option Text
newer seq (tool n payload) last = if n == seq then some payload else last
newer seq f last = last

-- The last payload that was sent for a `tool_seq`, after an earlier one.
unfoldable pub last_payload : ℕ → List Frame → Option Text → Option Text
last_payload seq [] last = last
last_payload seq (f ∷ frames) last = last_payload seq frames (newer seq f last)

abbrev pub at_most_one : Option Text → List Text
at_most_one none = []
at_most_one (some t) = t ∷ []

abbrev pub IsNoEvent : Part → Type 0
IsNoEvent (tool_event n payload) = ⊥
IsNoEvent p = Unit {0}

-- A frame whose part, if it has one, is not a tool event.
abbrev pub IsPlain : Frame → Type 0
IsPlain (part p) = IsNoEvent p
IsPlain f = Unit {0}

events-append :
    (seq : ℕ) (ps qs : List Part) → events seq (ps ++ qs) ≡ events seq ps ++ events seq qs
unfolding events
events-append seq [] qs = refl
events-append seq (tool_event n payload ∷ ps) qs = elim (Bool-cases (n == seq)) [
  | inl t ↦ rw t (ap (λ l. payload ∷ l) (events-append seq ps qs))
  | inr f ↦ rw f (events-append seq ps qs)
]
events-append seq (markdown t ∷ ps) qs = events-append seq ps qs
events-append seq (other kind payload ∷ ps) qs = events-append seq ps qs

texts-append : (ps qs : List Part) → texts (ps ++ qs) ≡ texts ps ++ texts qs
unfolding texts
texts-append [] qs = refl
texts-append (p ∷ ps) qs =
    ap (λ l. markdown_of p ++ l) (texts-append ps qs)
    ∙ sym (append_assoc (markdown_of p) (texts ps) (texts qs))

events-record_tool_event :
    (seq : ℕ) (payload : Text) (parts : List Part)
    → events seq (record_tool_event seq payload parts) ≡ payload ∷ drop 1 (events seq parts)
unfolding events record_tool_event
events-record_tool_event seq payload [] = rw (same_number seq)
events-record_tool_event seq payload (tool_event n q ∷ parts) = elim (Bool-cases (n == seq)) [
  | inl t ↦ rw (t, same_number seq)
  | inr f ↦ rw (f, f) (events-record_tool_event seq payload parts)
]
events-record_tool_event seq payload (markdown t ∷ parts) =
    events-record_tool_event seq payload parts
events-record_tool_event seq payload (other kind q ∷ parts) =
    events-record_tool_event seq payload parts

events-record_tool_event_other :
    (n seq : ℕ) (payload : Text) (parts : List Part)
    → (n == seq) ≡ false
    → events seq (record_tool_event n payload parts) ≡ events seq parts
unfolding events record_tool_event
events-record_tool_event_other n seq payload [] h = rw h
events-record_tool_event_other n seq payload (tool_event m q ∷ parts) h =
    elim (Bool-cases (m == n)) [
      | inl t ↦ (let past : (m == seq) ≡ false = ground (arith, t, h) in rw (t, h, past))
      | inr f ↦ rw f (
          ap (λ rest. if m == seq then q ∷ rest else rest)
            (events-record_tool_event_other n seq payload parts h))
    ]
events-record_tool_event_other n seq payload (markdown t ∷ parts) h =
    events-record_tool_event_other n seq payload parts h
events-record_tool_event_other n seq payload (other kind q ∷ parts) h =
    events-record_tool_event_other n seq payload parts h

texts-record_tool_event :
    (n : ℕ) (payload : Text) (parts : List Part)
    → texts (record_tool_event n payload parts) ≡ texts parts
unfolding texts record_tool_event
texts-record_tool_event n payload [] = refl
texts-record_tool_event n payload (tool_event m q ∷ parts) = elim (Bool-cases (m == n)) [
  | inl t ↦ rw t
  | inr f ↦ rw f (texts-record_tool_event n payload parts)
]
texts-record_tool_event n payload (markdown t ∷ parts) =
    ap (λ l. t ++ l) (texts-record_tool_event n payload parts)
texts-record_tool_event n payload (other kind q ∷ parts) = texts-record_tool_event n payload parts

texts-fold_token :
    (text : Text) (parts : List Part) → texts (fold_token text parts) ≡ texts parts ++ text
unfolding texts fold_token
texts-fold_token text [] = append-nil text
texts-fold_token text (markdown t ∷ []) =
    append-nil (t ++ text) ∙ ap (λ l. l ++ text) (sym (append-nil t))
texts-fold_token text (tool_event n q ∷ []) = append-nil text
texts-fold_token text (other kind q ∷ []) = append-nil text
texts-fold_token text (p ∷ next ∷ parts) =
    ap (λ l. markdown_of p ++ l) (texts-fold_token text (next ∷ parts))
    ∙ sym (append_assoc (markdown_of p) (texts (next ∷ parts)) text)

events-fold_token :
    (seq : ℕ) (text : Text) (parts : List Part)
    → events seq (fold_token text parts) ≡ events seq parts
unfolding events fold_token
events-fold_token seq text [] = refl
events-fold_token seq text (markdown t ∷ []) = refl
events-fold_token seq text (tool_event n q ∷ []) = refl
events-fold_token seq text (other kind q ∷ []) = refl
events-fold_token seq text (markdown t ∷ next ∷ parts) = events-fold_token seq text (next ∷ parts)
events-fold_token seq text (other kind q ∷ next ∷ parts) = events-fold_token seq text (next ∷ parts)
events-fold_token seq text (tool_event n q ∷ next ∷ parts) =
    ap (λ rest. if n == seq then q ∷ rest else rest) (events-fold_token seq text (next ∷ parts))

drop-at_most_one : (last : Option Text) → drop 1 (at_most_one last) ≡ []
drop-at_most_one none = refl
drop-at_most_one (some t) = refl

replaced :
    (seq n : ℕ) (q : Text) (last : Option Text) (parts : List Part)
    → (n == seq) ≡ true
    → events seq parts ≡ at_most_one last
    → events seq (record_tool_event n q parts) ≡ q ∷ []
replaced seq n q last parts t e =
    let is_seq : seq ≡ n = ground (arith, t) in
    subst (λ k. events seq (record_tool_event k q parts) ≡ q ∷ []) is_seq
      (events-record_tool_event seq q parts
        ∙ ap (λ l. q ∷ drop 1 l) e
        ∙ ap (λ l. q ∷ l) (drop-at_most_one last))

-- What a frame adds to the tool events and to the text.
events-record_transcript_frame :
    (seq : ℕ) (f : Frame) (last : Option Text) (parts : List Part)
    → IsPlain f
    → events seq parts ≡ at_most_one last
    → events seq (record_transcript_frame f parts) ≡ at_most_one (newer seq f last)
unfolding record_transcript_frame append_part events
events-record_transcript_frame seq (accepted n) last parts h e = e
events-record_transcript_frame seq done last parts h e = e
events-record_transcript_frame seq (error problem) last parts h e = e
events-record_transcript_frame seq (token t) last parts h e = events-fold_token seq t parts ∙ e
events-record_transcript_frame seq (part (markdown t)) last parts h e =
    events-append seq parts (markdown t ∷ []) ∙ append-nil (events seq parts) ∙ e
events-record_transcript_frame seq (part (other kind q)) last parts h e =
    events-append seq parts (other kind q ∷ []) ∙ append-nil (events seq parts) ∙ e
events-record_transcript_frame seq (part (tool_event n q)) last parts h e = absurd h
events-record_transcript_frame seq (tool n q) last parts h e = elim (Bool-cases (n == seq)) [
  | inl t ↦ rw t (replaced seq n q last parts t e)
  | inr f ↦ rw f (events-record_tool_event_other n seq q parts f ∙ e)
]

texts-record_transcript_frame :
    (f : Frame) (parts : List Part)
    → texts (record_transcript_frame f parts) ≡ texts parts ++ text_of f
unfolding record_transcript_frame append_part texts
texts-record_transcript_frame (accepted n) parts = sym (append-nil (texts parts))
texts-record_transcript_frame done parts = sym (append-nil (texts parts))
texts-record_transcript_frame (error problem) parts = sym (append-nil (texts parts))
texts-record_transcript_frame (token t) parts = texts-fold_token t parts
texts-record_transcript_frame (part p) parts =
    texts-append parts (p ∷ []) ∙ ap (λ l. texts parts ++ l) (append-nil (markdown_of p))
texts-record_transcript_frame (tool n q) parts =
    texts-record_tool_event n q parts ∙ sym (append-nil (texts parts))

events-record_all :
    (seq : ℕ) (frames : List Frame) (last : Option Text) (parts : List Part)
    → All IsPlain frames
    → events seq parts ≡ at_most_one last
    → events seq (record_all frames parts) ≡ at_most_one (last_payload seq frames last)
unfolding record_all last_payload
events-record_all seq [] last parts h e = e
events-record_all seq (f ∷ frames) last parts h e =
    events-record_all seq frames (newer seq f last) (record_transcript_frame f parts) h.1
      (events-record_transcript_frame seq f last parts h.0 e)

texts-record_all :
    (frames : List Frame) (parts : List Part)
    → texts (record_all frames parts) ≡ texts parts ++ sent_text frames
unfolding record_all sent_text
texts-record_all [] parts = sym (append-nil (texts parts))
texts-record_all (f ∷ frames) parts =
    texts-record_all frames (record_transcript_frame f parts)
    ∙ ap (λ l. l ++ sent_text frames) (texts-record_transcript_frame f parts)
    ∙ append_assoc (texts parts) (text_of f) (sent_text frames)

-- The transcript of a turn: its text is the text of the frames, tokens and parts, in the order in which
-- they were sent; and for each tool call it has at most one event, with the payload that was sent last,
-- and one if any was sent. No frame of another kind has a tool event as its part.
pub record_all-IsTranscript :
    (frames : List Frame)
    → All IsPlain frames
    → (texts (record_all frames []) ≡ sent_text frames)
      × ((seq : ℕ) → events seq (record_all frames []) ≡ at_most_one (last_payload seq frames none))
unfolding texts events
record_all-IsTranscript frames h =
    (texts-record_all frames [], λ seq. events-record_all seq frames none [] h refl)
