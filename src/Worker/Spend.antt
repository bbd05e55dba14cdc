-- ===== src/Worker/Spend.antt =====
-- What the run log says of the model calls of the worker.
use latest_poseidon.Prelude.{
  ℕ, ◌+◌, ◌≡◌, refl, sym, subst, ap, ◌∙◌, inl, inr, String, Bool, true, false, Option, none, some,
  List, [], ◌∷◌, ◌++◌, append-nil, Result, ok, err, Bool-cases, ltb, arith, if◌then◌else◌,
}
use latest_poseidon.Memory.{Entry, Version, MemoryError, get_current}
use latest_poseidon.Outbox.{Row, OutboxError, Status}
use latest_poseidon.Worker.Distill.{Item, Draft, DistillationError, render_transcript}
use latest_poseidon.Worker.{
  Response, LogRow, started, llm_call, finalized, Store, World, Outcome, Failure, logged, Attempt,
  user_turns, min_user_turns, current_entries, wrote, write_drafts, answered, use_answer,
  marked_done, recorded, attempt, meanwhile, tokens_in, tokens_out, finish, fail, settle,
  distill_row, process_items, process_page, process_one,
}

-- The tokens of the calls in a log.
abbrev pub spent : List LogRow → ℕ
spent [] = 0
spent (started t ∷ log) = spent log
spent (llm_call t usable i o ∷ log) = i + o + spent log
spent (finalized t good i o ∷ log) = spent log

-- The turns that a log starts, and those that it ends.
abbrev pub starts : List LogRow → ℕ
starts [] = 0
starts (started t ∷ log) = 1 + starts log
starts (llm_call t usable i o ∷ log) = starts log
starts (finalized t good i o ∷ log) = starts log

abbrev pub ends : List LogRow → ℕ
ends [] = 0
ends (started t ∷ log) = ends log
ends (llm_call t usable i o ∷ log) = ends log
ends (finalized t good i o ∷ log) = 1 + ends log

spent-append : (l m : List LogRow) → spent (l ++ m) ≡ spent l + spent m
spent-append [] m = omega arith
spent-append (started t ∷ l) m = spent-append l m
spent-append (llm_call t usable i o ∷ l) m = omega (arith, spent-append l m)
spent-append (finalized t good i o ∷ l) m = spent-append l m

starts-append : (l m : List LogRow) → starts (l ++ m) ≡ starts l + starts m
starts-append [] m = omega arith
starts-append (started t ∷ l) m = omega (arith, starts-append l m)
starts-append (llm_call t usable i o ∷ l) m = starts-append l m
starts-append (finalized t good i o ∷ l) m = starts-append l m

ends-append : (l m : List LogRow) → ends (l ++ m) ≡ ends l + ends m
ends-append [] m = omega arith
ends-append (started t ∷ l) m = ends-append l m
ends-append (llm_call t usable i o ∷ l) m = ends-append l m
ends-append (finalized t good i o ∷ l) m = omega (arith, ends-append l m)

-- What the provider charges for a conversation: nothing where it is not asked or raises.
abbrev cost_of : Result String Response → ℕ
cost_of answer = tokens_in answer + tokens_out answer

abbrev cost_items : World → Row → Store → Option (List Item) → ℕ
cost_items w row st none = 0
cost_items w row st (some items) =
    if ltb (user_turns items) min_user_turns
    then 0
    else cost_of
        (w.distill (render_transcript items) (current_entries (get_current row.user_sub st.memory)))

abbrev pub cost_page : World → Row → Store → Result String (Option (List Item)) → ℕ
cost_page w row st (err e) = 0
cost_page w row st (ok page) = cost_items w row st page

abbrev pub cost : World → Row → Store → ℕ
cost w row st = cost_page w row st (w.get_messages row.user_sub row.conversation_id)

-- A log after another: what was spent in between, and that every turn that was started was ended.
pub record Accounts (before after : List LogRow) (tokens : ℕ) : Type 0 where
  pub spends : spent after ≡ spent before + tokens
  pub closes : ends after + starts before ≡ starts after + ends before

same-Accounts : (l : List LogRow) → Accounts l l 0
same-Accounts l = record { spends = omega arith; closes = omega arith }

marked_done-log :
    (o : Outcome) (st : Store) (r : Result OutboxError (Bool × List Row))
    → (marked_done o st r).1.log ≡ st.log
marked_done-log o st (ok (marked, outbox)) = refl
marked_done-log o st (err e) = refl

finish-log : (w : World) (row : Row) (o : Outcome) (st : Store) → (finish w row o st).1.log ≡ st.log
unfolding finish
finish-log w row o st = marked_done-log o st _

recorded-log :
    (st : Store) (r : Result OutboxError (Option (Status × ℕ) × List Row))
    → (recorded st r).1.log ≡ st.log
recorded-log st (ok (outcome, outbox)) = refl
recorded-log st (err e) = refl

fail-log : (w : World) (row : Row) (f : Failure) (st : Store) → (fail w row f st).1.log ≡ st.log
unfolding fail
fail-log w row f st = recorded-log st _

wrote-log :
    (r : Result MemoryError (Version × List Version)) (st : Store) → (wrote r st).1.log ≡ st.log
wrote-log (ok (v, table)) st = refl
wrote-log (err e) st = refl

write_drafts-log :
    (w : World) (row : Row) (existing : List Entry) (ds : List Draft) (st : Store)
    → (write_drafts w row existing ds st).1.log ≡ st.log
unfolding write_drafts
write_drafts-log w row existing [] st = refl
write_drafts-log w row existing (d ∷ ds) st = wrote-log _ st

-- The rows of the calls of an answer.
abbrev called : String → Bool → Result String Response → List LogRow
called t usable (err e) = []
called t usable (ok r) = llm_call t usable r.input_tokens r.output_tokens ∷ []

answered-log :
    (p : Result DistillationError (List Draft)) (w : World) (row : Row) (t : String)
    (existing : List Entry) (r : Response) (st : Store)
    → (usable : Bool) × ((answered p w row (some t) existing r st).1.log
        ≡ st.log ++ called t usable (ok r))
answered-log (ok ds) w row t existing r st = (true, write_drafts-log w row existing ds _)
answered-log (err e) w row t existing r st = (false, refl)

use_answer-log :
    (w : World) (row : Row) (t : String) (existing : List Entry) (r : Response) (st : Store)
    → (usable : Bool) × ((use_answer w row (some t) existing r st).1.log
        ≡ st.log ++ called t usable (ok r))
unfolding use_answer
use_answer-log w row t existing r st = answered-log _ w row t existing r st

attempt-log :
    (w : World) (row : Row) (t : String) (existing : List Entry) (answer : Result String Response)
    (st : Store)
    → (usable : Bool) × ((attempt w row (some t) existing answer st).1.log
        ≡ st.log ++ called t usable answer)
unfolding attempt
attempt-log w row t existing (err e) st = (true, sym (append-nil st.log))
attempt-log w row t existing (ok r) st = use_answer-log w row t existing r st

settle-log :
    (w : World) (row : Row) (t : String) (answer : Result String Response) (a : Attempt)
    → (succeeded : Bool) × ((settle w row (some t) answer a).1.log
        ≡ a.1.log ++ finalized t succeeded (tokens_in answer) (tokens_out answer) ∷ [])
unfolding settle
settle-log w row t answer (ok v, st) = (true, finish-log w row Outcome.done _)
settle-log w row t answer (err f, st) = (false, fail-log w row f _)

called-spent :
    (t : String) (usable : Bool) (answer : Result String Response)
    → spent (called t usable answer) ≡ cost_of answer
called-spent t usable (err e) = omega arith
called-spent t usable (ok r) = omega arith

called-even :
    (t : String) (usable : Bool) (answer : Result String Response)
    → (starts (called t usable answer) ≡ 0) × (ends (called t usable answer) ≡ 0)
called-even t usable (err e) = (refl, refl)
called-even t usable (ok r) = (refl, refl)

called-Accounts :
    (log : List LogRow) (t : String) (usable succeeded : Bool) (answer : Result String Response)
    → Accounts log
        (((log ++ started t ∷ []) ++ called t usable answer)
          ++ finalized t succeeded (tokens_in answer) (tokens_out answer) ∷ [])
        (cost_of answer)
called-Accounts log t usable succeeded answer =
    let first = log ++ started t ∷ [] in
    let last = finalized t succeeded (tokens_in answer) (tokens_out answer) ∷ [] in
    record {
      spends = omega (
        arith,
        spent-append (first ++ called t usable answer) last,
        spent-append first (called t usable answer),
        spent-append log (started t ∷ []),
        called-spent t usable answer,
      );
      closes = omega (
        arith,
        ends-append (first ++ called t usable answer) last,
        ends-append first (called t usable answer),
        ends-append log (started t ∷ []),
        starts-append (first ++ called t usable answer) last,
        starts-append first (called t usable answer),
        starts-append log (started t ∷ []),
        called-even t usable answer,
      );
    }

-- The `try` block and what follows it, in a turn of the run log.
turn-Accounts :
    (w : World) (row : Row) (t : String) (existing : List Entry) (answer : Result String Response)
    (st : Store)
    → Accounts st.log
        (settle w row
          (some t)
          answer
          (attempt w row (some t) existing answer (meanwhile w (logged (some t) started st)))).1.log
        (cost_of answer)
turn-Accounts w row t existing answer st =
    let inside = meanwhile w (logged (some t) started st) in
    let (usable, e) = attempt-log w row t existing answer inside in
    let (succeeded, f) =
      settle-log w row t answer (attempt w row (some t) existing answer inside) in
    subst (λ l. Accounts st.log l (cost_of answer))
      (sym (f ∙ ap (λ l. l ++ finalized t succeeded (tokens_in answer) (tokens_out answer) ∷ []) e))
      (called-Accounts st.log t usable succeeded answer)

distill_row-Accounts :
    (w : World) (row : Row) (items : List Item) (st : Store) {t : String}
    → w.start_turn ≡ some t
    → Accounts st.log (distill_row w row items st).1.log (
        cost_of (
          w.distill
            (render_transcript items)
            (current_entries (get_current row.user_sub st.memory))))
unfolding distill_row
distill_row-Accounts w row items st {t} h =
    let existing = current_entries (get_current row.user_sub st.memory) in
    let answer = w.distill (render_transcript items) existing in
    subst
      (λ o.
        Accounts st.log
          (settle w row o answer
            (attempt w row o existing answer (meanwhile w (logged o started st)))).1.log
          (cost_of answer))
      (sym h) (turn-Accounts w row t existing answer st)

items-Accounts :
    (w : World) (row : Row) (page : Option (List Item)) (st : Store) {t : String}
    → w.start_turn ≡ some t
    → Accounts st.log (process_items w row page st).1.log (cost_items w row st page)
unfolding process_items
items-Accounts w row none st h = same-Accounts st.log
items-Accounts w row (some items) st h = elim (Bool-cases (ltb (user_turns items) min_user_turns)) [
  | inl few ↦ rw few (
      subst (λ l. Accounts st.log l 0) (sym (finish-log w row Outcome.skipped st))
        (same-Accounts st.log))
  | inr many ↦ rw many (distill_row-Accounts w row items st h)
]

page-Accounts :
    (w : World) (row : Row) (page : Result String (Option (List Item))) (st : Store) {t : String}
    → w.start_turn ≡ some t
    → Accounts st.log (process_page w row page st).1.log (cost_page w row st page)
page-Accounts w row (err e) st h = same-Accounts st.log
page-Accounts w row (ok page) st h = items-Accounts w row page st h

-- Where the run log can start a turn, the tokens of its calls grow by exactly what the provider charged
-- for the conversation, whatever becomes of the answer: an answer that does not parse or that the store
-- refuses is accounted for, a call that raises counts nothing, and a conversation with fewer than two
-- messages of the user, or that cannot be read, costs nothing. Every turn that is started is ended.
pub process_one-Accounts :
    (w : World) (row : Row) (st : Store) {t : String}
    → w.start_turn ≡ some t
    → Accounts st.log (process_one w row st).1.log (cost w row st)
unfolding process_one
process_one-Accounts w row st h =
    page-Accounts w row (w.get_messages row.user_sub row.conversation_id) st h
