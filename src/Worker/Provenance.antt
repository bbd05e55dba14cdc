-- ===== src/Worker/Provenance.antt =====
-- Where the entries come from that the worker writes to a memory.
use latest_poseidon.Prelude.{
  ℕ, ◌+◌, ◌≡◌, ◌⊎◌, refl, sym, subst, ap, ap₂, ◌∙◌, inl, inr, String, eq_iff, Bool, true, false,
  ◌&&◌, Option, none, some, Option-cases, List, [], ◌∷◌, All, Memᴰ, Result, ok, err, Result-cases,
  Bool-cases, ltb,
}
use latest_poseidon.Memory.{
  Field, text, other, Entry, distiller, Version, get_current, max_version, write_version,
  check_entries,
}
use latest_poseidon.Memory.Numbering.{IsMemory}
use latest_poseidon.Memory.Histories.{row_of, write_version-ok, write_version-err}
use latest_poseidon.Memory.Accepts.{written-current}
use latest_poseidon.Outbox.{Row, OutboxError, Status}
use latest_poseidon.Worker.Distill.{
  Item, Draft, DistillationError, field_eq, is_attributed, says, original, stamp, stamp_entries,
  render_transcript,
}
use latest_poseidon.Worker.{
  Response, Store, World, Outcome, Failure, Attempt, started, logged, LogRow, user_turns,
  min_user_turns, current_entries, wrote, write_drafts, answered, use_answer, attempt, meanwhile,
  marked_done, recorded, finish, fail, settle, distill_row, process_items, process_page,
  process_one,
}

-- An attributed entry of a memory with the type and the statement of another one.
abbrev pub SaysAs : Entry → Entry → Type 0
SaysAs e e' = (e'.kind ≡ e.kind) × (e'.statement ≡ e.statement)

-- An entry that stands in the memory as it is, or one of this conversation and time that no attributed
-- entry of the memory has said before.
abbrev pub Attributed : List Entry → String → String → Entry → Type 0
Attributed existing conversation_id at e =
    Memᴰ e existing
    ⊎ ((e.source_conversation_id ≡ text conversation_id)
        × (e.at ≡ text at)
        × All (λ e'. is_attributed e' ≡ true → SaysAs e e' → ⊥) existing)

field_eq-eq : (f g : Field) → field_eq f g ≡ true → f ≡ g
field_eq-eq (text s) (text t) h = ap text ((eq_iff s t).0 h)
field_eq-eq (text s) (other t) h = absurd (cc h)
field_eq-eq (other s) (text t) h = absurd (cc h)
field_eq-eq (other s) (other t) h = ap other ((eq_iff s t).0 h)

field_eq_self : (f : Field) → field_eq f f ≡ true
field_eq_self (text s) = (eq_iff s s).1 refl
field_eq_self (other s) = (eq_iff s s).1 refl

both : (a b : Bool) → (a && b) ≡ true → (a ≡ true) × (b ≡ true)
both true b h = (refl, h)
both false b h = absurd (cc h)

-- What is found says what the draft says.
abbrev Says : Draft → Entry → Type 0
Says d e = (e.kind ≡ d.kind) × (e.statement ≡ text d.statement)

says-Says : (d : Draft) (e : Entry) → (is_attributed e && says d e) ≡ true → Says d e
says-Says d e h =
    let (a, s) = both (is_attributed e) (says d e) h in
    let (k, t) = both (field_eq d.kind e.kind) _ s in
    (sym (field_eq-eq d.kind e.kind k), sym (field_eq-eq (text d.statement) e.statement t))

Says-says :
    (d : Draft) (e : Entry)
    → is_attributed e ≡ true
    → Says d e
    → (is_attributed e && says d e) ≡ true
Says-says d e a (k, s) = rw (a, k, s, field_eq_self d.kind, (eq_iff d.statement d.statement).1 refl)

-- The last entry that says it, or none says it.
original-found :
    (d : Draft) (es : List Entry) {e : Entry} → original d es ≡ some e → Memᴰ e es × Says d e
unfolding original
original-found d [] h = absurd (cc h)
original-found d (x ∷ es) {e} h = elim (Option-cases (original d es)) [
  | inl n ↦ elim (Bool-cases (is_attributed x && says d x)) [
    | inl t ↦
        (let q : x ≡ e = cc (rw (n, t) at h) in
          (Memᴰ.head (sym q), subst (Says d) q (says-Says d x t)))
    | inr f ↦ absurd (cc (rw (n, f) at h))
  ]
  | inr (y, s) ↦
      (let q : y ≡ e = cc (rw s at h) in
        let (m, k) = original-found d es (s ∙ ap (λ z. some z) q) in (Memᴰ.tail m, k))
]

original-none :
    (d : Draft) (es : List Entry)
    → original d es ≡ none
    → All (λ e. is_attributed e ≡ true → Says d e → ⊥) es
unfolding original
original-none d [] h = tt
original-none d (x ∷ es) h = elim (Option-cases (original d es)) [
  | inl n ↦ elim (Bool-cases (is_attributed x && says d x)) [
    | inl t ↦ absurd (cc (rw (n, t) at h))
    | inr f ↦ (λ a s. absurd (cc (f, Says-says d x a s)), original-none d es n)
  ]
  | inr (y, s) ↦ absurd (cc (rw s at h))
]

same_entry : (d : Draft) (e : Entry) → Says d e → e ≡ stamp d (some e) "" ""
same_entry d e (k, t) = ap₂ (λ kind statement. record e { kind = kind; statement = statement }) k t

stamp-Attributed :
    (d : Draft) (existing : List Entry) (conversation_id at : String)
    → Attributed existing conversation_id at (stamp d (original d existing) conversation_id at)
stamp-Attributed d existing conversation_id at = elim (Option-cases (original d existing)) [
  | inl n ↦ rw n (inr (refl, refl, original-none d existing n))
  | inr (e, s) ↦
      (let (m, said) = original-found d existing s in
        rw s (inl (subst (λ x. Memᴰ x existing) (same_entry d e said) m)))
]

stamp_entries-Attributed :
    (drafts : List Draft) (existing : List Entry) (conversation_id at : String)
    → All
        (Attributed existing conversation_id at)
        (stamp_entries drafts existing conversation_id at)
unfolding stamp_entries
stamp_entries-Attributed [] existing conversation_id at = tt
stamp_entries-Attributed (d ∷ ds) existing conversation_id at = (
  stamp-Attributed d existing conversation_id at,
  stamp_entries-Attributed ds existing conversation_id at,
)

-- The memory of a user after a row was processed: what others left, or with a new version in front by
-- the worker, all of whose entries are attributed.
pub record Remembers (existing : List Entry) (conversation_id at u : String)
    (before table : List Version) : Type 0 where
  pub version : Version
  pub current : get_current u table ≡ some version
  pub is_next : version.version ≡ max_version u before + 1
  pub by_worker : version.created_by ≡ distiller
  pub attributed : All (Attributed existing conversation_id at) version.entries

abbrev pub MemoryAfter : World → Row → Store → List Version → Type 0
MemoryAfter w row st table =
    (table ≡ st.memory)
    ⊎ ((table ≡ w.others_memory st.memory)
        ⊎ Remembers (current_entries (get_current row.user_sub st.memory)) row.conversation_id
            w.iso_now row.user_sub (w.others_memory st.memory) table)

marked_done-memory :
    (o : Outcome) (st : Store) (r : Result OutboxError (Bool × List Row))
    → (marked_done o st r).1.memory ≡ st.memory
marked_done-memory o st (ok (marked, outbox)) = refl
marked_done-memory o st (err e) = refl

recorded-memory :
    (st : Store) (r : Result OutboxError (Option (Status × ℕ) × List Row))
    → (recorded st r).1.memory ≡ st.memory
recorded-memory st (ok (outcome, outbox)) = refl
recorded-memory st (err e) = refl

finish-memory :
    (w : World) (row : Row) (o : Outcome) (st : Store) → (finish w row o st).1.memory ≡ st.memory
unfolding finish
finish-memory w row o st = marked_done-memory o st _

fail-memory :
    (w : World) (row : Row) (f : Failure) (st : Store) → (fail w row f st).1.memory ≡ st.memory
unfolding fail
fail-memory w row f st = recorded-memory st _

logged-memory :
    (turn : Option String) (row : String → LogRow) (st : Store)
    → (logged turn row st).memory ≡ st.memory
logged-memory none row st = refl
logged-memory (some t) row st = refl

settle-memory :
    (w : World) (row : Row) (turn : Option String) (answer : Result String Response) (a : Attempt)
    → (settle w row turn answer a).1.memory ≡ a.1.memory
unfolding settle
settle-memory w row turn answer (ok v, st) =
    finish-memory w row Outcome.done _ ∙ logged-memory turn _ st
settle-memory w row turn answer (err f, st) = fail-memory w row f _ ∙ logged-memory turn _ st

-- The memory after an attempt on some store: that store's, or with an attributed version in front.
abbrev AttemptAfter : World → Row → List Entry → List Version → List Version → Type 0
AttemptAfter w row existing table table' =
    (table' ≡ table) ⊎ Remembers existing row.conversation_id w.iso_now row.user_sub table table'

written-Remembers :
    (w : World) (row : Row) (existing : List Entry) (ds : List Draft) (st : Store)
    → IsMemory st.memory
    → AttemptAfter w row existing st.memory
        (wrote
          (write_version w.settings row.user_sub
            (stamp_entries ds existing row.conversation_id w.iso_now)
            distiller
            w.now
            st.memory)
          st).1.memory
written-Remembers w row existing ds st m =
    let entries = stamp_entries ds existing row.conversation_id w.iso_now in
    elim (Result-cases (check_entries w.settings entries)) [
      | inl (tt, e) ↦
          rw (write_version-ok w.settings row.user_sub entries distiller w.now st.memory e) (
            inr (record {
              version = row_of row.user_sub entries distiller w.now st.memory;
              current = written-current w.settings row.user_sub entries distiller w.now st.memory m;
              is_next = refl;
              by_worker = refl;
              attributed = stamp_entries-Attributed ds existing row.conversation_id w.iso_now;
            }))
      | inr (x, e) ↦
          rw (write_version-err w.settings row.user_sub entries distiller w.now st.memory e)
            (inl refl)
    ]

write_drafts-AttemptAfter :
    (w : World) (row : Row) (existing : List Entry) (ds : List Draft) (st : Store)
    → IsMemory st.memory
    → AttemptAfter w row existing st.memory (write_drafts w row existing ds st).1.memory
unfolding write_drafts
write_drafts-AttemptAfter w row existing [] st m = inl refl
write_drafts-AttemptAfter w row existing (d ∷ ds) st m =
    written-Remembers w row existing (d ∷ ds) st m

answered-AttemptAfter :
    (p : Result DistillationError (List Draft)) (w : World) (row : Row) (turn : Option String)
    (existing : List Entry) (r : Response) (st : Store)
    → IsMemory st.memory
    → AttemptAfter w row existing st.memory (answered p w row turn existing r st).1.memory
answered-AttemptAfter (ok ds) w row none existing r st m =
    write_drafts-AttemptAfter w row existing ds st m
answered-AttemptAfter (ok ds) w row (some t) existing r st m =
    write_drafts-AttemptAfter w row existing ds _ m
answered-AttemptAfter (err e) w row turn existing r st m = inl (logged-memory turn _ st)

attempt-AttemptAfter :
    (w : World) (row : Row) (turn : Option String) (existing : List Entry)
    (answer : Result String Response) (st : Store)
    → IsMemory st.memory
    → AttemptAfter w row existing st.memory (attempt w row turn existing answer st).1.memory
unfolding attempt use_answer
attempt-AttemptAfter w row turn existing (err e) st m = inl refl
attempt-AttemptAfter w row turn existing (ok r) st m =
    answered-AttemptAfter _ w row turn existing r st m

distill_row-MemoryAfter :
    (w : World) (row : Row) (items : List Item) (st : Store)
    → IsMemory (w.others_memory st.memory)
    → MemoryAfter w row st (distill_row w row items st).1.memory
unfolding distill_row
distill_row-MemoryAfter w row items st m =
    let existing = current_entries (get_current row.user_sub st.memory) in
    let answer = w.distill (render_transcript items) existing in
    let inside = meanwhile w (logged w.start_turn started st) in
    let same : inside.memory ≡ w.others_memory st.memory =
      ap w.others_memory (logged-memory w.start_turn started st) in
    let after = attempt w row w.start_turn existing answer inside in
    subst (MemoryAfter w row st) (sym (settle-memory w row w.start_turn answer after)) (
      inr (
        subst (λ t. AttemptAfter w row existing t after.1.memory) same
          (attempt-AttemptAfter w row w.start_turn existing answer inside
            (subst IsMemory (sym same) m))))

items-MemoryAfter :
    (w : World) (row : Row) (page : Option (List Item)) (st : Store)
    → IsMemory (w.others_memory st.memory)
    → MemoryAfter w row st (process_items w row page st).1.memory
unfolding process_items
items-MemoryAfter w row none st m = inl refl
items-MemoryAfter w row (some items) st m =
    elim (Bool-cases (ltb (user_turns items) min_user_turns)) [
      | inl few ↦ rw few (inl (finish-memory w row Outcome.skipped st))
      | inr many ↦ rw many (distill_row-MemoryAfter w row items st m)
    ]

page-MemoryAfter :
    (w : World) (row : Row) (page : Result String (Option (List Item))) (st : Store)
    → IsMemory (w.others_memory st.memory)
    → MemoryAfter w row st (process_page w row page st).1.memory
page-MemoryAfter w row (err e) st m = inl refl
page-MemoryAfter w row (ok page) st m = items-MemoryAfter w row page st m

-- Whatever the model answers and however the row ends, the memory is as others left it, or has one new
-- version of the conversation's user, numbered after those, which is current and by the distiller. Each entry of that version
-- stood in the memory that the model was shown, with the same source and time, or is attributed to this
-- conversation and time, and then no attributed entry of that memory had its type and statement. The
-- memory that others leave is numbered without a gap.
pub process_one-MemoryAfter :
    (w : World) (row : Row) (st : Store)
    → IsMemory (w.others_memory st.memory)
    → MemoryAfter w row st (process_one w row st).1.memory
unfolding process_one
process_one-MemoryAfter w row st m =
    page-MemoryAfter w row (w.get_messages row.user_sub row.conversation_id) st m
