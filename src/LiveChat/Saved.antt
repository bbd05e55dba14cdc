-- ===== src/LiveChat/Saved.antt =====
-- The stream of a turn before and after the assistant's message is written.
use latest_poseidon.Prelude.{
  ℕ, ◌≡◌, refl, sym, subst, ap, ap₂, ◌∙◌, String, Bool, true, false, Option, List, [], ◌∷◌, ◌++◌,
  append_assoc, All, All-append, if◌then◌else◌,
}
use latest_poseidon.AgentLoop.Types.{Text}
use latest_poseidon.History.Transcript.{Part}
use latest_poseidon.LiveChat.{
  Frame, accepted, token, tool, part, done, error, record_transcript_frame, Effect, persists,
  sets_title, queues, Stream, emit, persisted_turn, persist_once, send,
}

-- What may happen before the message is written: no frame that ends the turn, and no write.
abbrev pub IsEarly : Effect → Type 0
IsEarly (sets_title t) = Unit {0}
IsEarly (queues done) = ⊥
IsEarly (queues (error problem)) = ⊥
IsEarly (queues f) = Unit {0}
IsEarly e = ⊥

abbrev pub IsNoWrite : Effect → Type 0
IsNoWrite (persists parts turn) = ⊥
IsNoWrite e = Unit {0}

-- One write, of these parts under this turn, and before any frame that ends the turn.
pub record WritesOnce (parts : List Part) (turn : String) (effects : List Effect) : Type 0 where
  pub before : List Effect
  pub after : List Effect
  pub is_order : effects ≡ before ++ persists parts turn ∷ after
  pub none_ends : All IsEarly before
  pub no_other : All IsNoWrite after

abbrev pub has_error : List Frame → Bool
has_error [] = false
has_error (error problem ∷ frames) = true
has_error (f ∷ frames) = has_error frames

pub record Open (parts : List Part) (run : Option String) (st : Stream) : Type 0 where
  pub is_open : st.is_persisted ≡ false
  pub has_parts : st.assistant ≡ parts
  pub has_run : st.turn_run_id ≡ run
  pub is_early : All IsEarly st.effects

pub record Saved (parts : List Part) (turn : String) (st : Stream) : Type 0 where
  pub is_saved : st.is_persisted ≡ true
  pub writes : WritesOnce parts turn st.effects

pub emit-Saved :
    (parts : List Part) (turn : String) (e : Effect) (st : Stream)
    → IsNoWrite e
    → Saved parts turn st
    → Saved parts turn (emit e st)
emit-Saved parts turn e st n s = record {
  is_saved = s.is_saved;
  writes = record {
    before = s.writes.before;
    after = s.writes.after ++ e ∷ [];
    is_order =
        ap (λ l. l ++ e ∷ []) s.writes.is_order
        ∙ append_assoc s.writes.before (persists parts turn ∷ s.writes.after) (e ∷ []);
    none_ends = s.writes.none_ends;
    no_other = All-append IsNoWrite s.writes.after (e ∷ []) s.writes.no_other (n, tt);
  };
}

pub emit-Open :
    (parts : List Part) (run : Option String) (e : Effect) (st : Stream)
    → IsEarly e
    → Open parts run st
    → Open parts run (emit e st)
emit-Open parts run e st h o = record {
  is_open = o.is_open;
  has_parts = o.has_parts;
  has_run = o.has_run;
  is_early = All-append IsEarly st.effects (e ∷ []) o.is_early (h, tt);
}

pub persist_once-Open :
    (turn_id : String) (parts : List Part) (run : Option String) (st : Stream)
    → Open parts run st
    → Saved parts (persisted_turn turn_id run) (persist_once turn_id st)
unfolding persist_once
persist_once-Open turn_id parts run st o = rw o.is_open (record {
  is_saved = refl;
  writes = record {
    before = st.effects;
    after = [];
    is_order =
        ap₂ (λ p r. st.effects ++ persists p (persisted_turn turn_id r) ∷ []) o.has_parts o.has_run;
    none_ends = o.is_early;
    no_other = tt;
  };
})

pub persist_once-Saved :
    (turn_id : String) (parts : List Part) (turn : String) (st : Stream)
    → Saved parts turn st
    → Saved parts turn (persist_once turn_id st)
unfolding persist_once
persist_once-Saved turn_id parts turn st s =
    subst
      (λ b. Saved parts turn (
        if b
        then st
        else emit (persists st.assistant (persisted_turn turn_id st.turn_run_id))
            (record st { is_persisted = true })))
      (sym s.is_saved) s

pub send-Saved :
    (turn_id : String) (parts : List Part) (turn : String) (f : Frame) (st : Stream)
    → Saved parts turn st
    → Saved parts turn (send turn_id f st)
unfolding send
send-Saved turn_id parts turn (accepted n) st s =
    emit-Saved parts turn (queues (accepted n)) _ tt
      (record { is_saved = s.is_saved; writes = s.writes })
send-Saved turn_id parts turn done st s = record { is_saved = s.is_saved; writes = s.writes }
send-Saved turn_id parts turn (error problem) st s =
    emit-Saved parts turn (queues (error problem)) _ tt (
      persist_once-Saved turn_id parts turn _ (record { is_saved = s.is_saved; writes = s.writes }))
send-Saved turn_id parts turn (token t) st s =
    emit-Saved parts turn (queues (token t)) _ tt
      (record { is_saved = s.is_saved; writes = s.writes })
send-Saved turn_id parts turn (tool n q) st s =
    emit-Saved parts turn (queues (tool n q)) _ tt
      (record { is_saved = s.is_saved; writes = s.writes })
send-Saved turn_id parts turn (part p) st s =
    emit-Saved parts turn (queues (part p)) _ tt
      (record { is_saved = s.is_saved; writes = s.writes })

-- A stream whose transcript has one frame more.
with_frame :
    (parts : List Part) (run : Option String) (f : Frame) (st : Stream) (index : Option ℕ)
    (pending : Bool)
    → Open parts run st
    → Open (record_transcript_frame f parts) run (record st {
      assistant = record_transcript_frame f st.assistant;
      turn_index = index;
      has_pending_done = pending;
    })
with_frame parts run f st index pending o = record {
  is_open = o.is_open;
  has_parts = ap (record_transcript_frame f) o.has_parts;
  has_run = o.has_run;
  is_early = o.is_early;
}

-- A frame that is not an error leaves the message unwritten.
pub send-Open :
    (turn_id : String) (parts : List Part) (run : Option String) (f : Frame) (st : Stream)
    → has_error (f ∷ []) ≡ false
    → Open parts run st
    → Open (record_transcript_frame f parts) run (send turn_id f st)
unfolding send
send-Open turn_id parts run (accepted n) st h o =
    emit-Open _ run (queues (accepted n)) _ tt (with_frame parts run (accepted n) st _ _ o)
send-Open turn_id parts run done st h o = with_frame parts run done st _ _ o
send-Open turn_id parts run (error problem) st h o = absurd (cc h)
send-Open turn_id parts run (token t) st h o =
    emit-Open _ run (queues (token t)) _ tt (with_frame parts run (token t) st _ _ o)
send-Open turn_id parts run (tool n q) st h o =
    emit-Open _ run (queues (tool n q)) _ tt (with_frame parts run (tool n q) st _ _ o)
send-Open turn_id parts run (part p) st h o =
    emit-Open _ run (queues (part p)) _ tt (with_frame parts run (part p) st _ _ o)

-- An error is queued after the message is written.
pub send-error :
    (turn_id : String) (parts : List Part) (run : Option String) (problem : Text) (st : Stream)
    → Open parts run st
    → Saved parts (persisted_turn turn_id run) (send turn_id (error problem) st)
unfolding send record_transcript_frame
send-error turn_id parts run problem st o =
    emit-Saved parts _ (queues (error problem)) _ tt
      (persist_once-Open turn_id parts run _ (with_frame parts run (error problem) st _ _ o))
