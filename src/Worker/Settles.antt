-- ===== src/Worker/Settles.antt =====
-- How often a conversation is processed.
use latest_poseidon.Prelude.{
  ℕ, ◌+◌, ◌≤◌, ◌<◌, ◌≡◌, ◌⊎◌, refl, subst, ap, ◌∙◌, inl, inr, String, true, Option, none, some,
  List, [], ◌∷◌, All, length, Result, ok, err, Bool-cases, ltb, arith, dec_le,
}
use latest_poseidon.Memory.{Entry, MemoryError, Version, get_current}
use latest_poseidon.Outbox.{
  Row, Status, is_pending, is_claimed, set_done, set_failure, mark_done, record_failure, touch,
}
use latest_poseidon.Outbox.Rearm.{find_row, upsert-HoldsArmed, touch-upsert}
use latest_poseidon.Outbox.Retries.{
  IsRetried, HoldsRetried, update_where-hit, set_failure-IsRetried, set_failure-conversation,
  is_claimed-same, HoldsArmed-HoldsRetried,
}
use latest_poseidon.Worker.Distill.{Item, Draft, DistillationError, render_transcript}
use latest_poseidon.Worker.{
  Response, LogRow, Store, World, Outcome, Failure, Attempt, started, logged, user_turns,
  min_user_turns, current_entries, wrote, write_drafts, answered, use_answer, attempt, meanwhile,
  finish, fail, settle, distill_row, process_items, process_one,
}

-- A world in which the conversation can be read and no turn lands while the model answers.
pub record IsQuiet (id : String) (max_attempts : ℕ) (w : World) : Type 0 where
  pub reads :
      (user conversation : String)
      → (items : List Item) × (w.get_messages user conversation ≡ ok (some items))
  pub undisturbed : (table : List Row) → find_row id (w.others_outbox table) ≡ find_row id table
  pub parses : w.parse_uuid id ≡ some id
  pub same_limit : w.memory_max_attempts ≡ max_attempts

-- The row of the conversation is done.
abbrev pub HoldsDone : String → List Row → Type 0
HoldsDone id table = (r : Row) × (find_row id table ≡ some r) × (r.status ≡ Status.done)

-- What happens to the conversation `id`: its pending row is claimed and processed, once in each of the
-- worlds, and in between whatever leaves its row as it is, such as cycles that claim other rows.
pub data Processed (id : String) : List World → Store → Store → Type 0 where
  stop : (st : Store) → Processed id [] st st
  elsewhere :
      (ws : List World) (st st' last : Store)
      → find_row id st'.outbox ≡ find_row id st.outbox
      → Processed id ws st' last
      → Processed id ws st last
  claim :
      (w : World) (ws : List World) (st last : Store) (r : Row)
      → find_row id st.outbox ≡ some r
      → is_pending r.status ≡ true
      → Processed id ws (process_one w r st).1 last
      → Processed id (w ∷ ws) st last

-- What a row is after it was processed: done, or with one more failed attempt.
abbrev Advances : String → String → ℕ → ℕ → ℕ → List Row → Type 0
Advances user id now max_attempts n table =
    HoldsDone id table ⊎ HoldsRetried user id now max_attempts (n + 1) table

logged-outbox :
    (turn : Option String) (row : String → LogRow) (st : Store)
    → (logged turn row st).outbox ≡ st.outbox
logged-outbox none row st = refl
logged-outbox (some t) row st = refl

wrote-outbox :
    (r : Result MemoryError (Version × List Version)) (st : Store)
    → (wrote r st).1.outbox ≡ st.outbox
wrote-outbox (ok (v, table)) st = refl
wrote-outbox (err e) st = refl

write_drafts-outbox :
    (w : World) (row : Row) (existing : List Entry) (ds : List Draft) (st : Store)
    → (write_drafts w row existing ds st).1.outbox ≡ st.outbox
unfolding write_drafts
write_drafts-outbox w row existing [] st = refl
write_drafts-outbox w row existing (d ∷ ds) st = wrote-outbox _ st

answered-outbox :
    (p : Result DistillationError (List Draft)) (w : World) (row : Row) (turn : Option String)
    (existing : List Entry) (r : Response) (st : Store)
    → (answered p w row turn existing r st).1.outbox ≡ st.outbox
answered-outbox (ok ds) w row turn existing r st =
    write_drafts-outbox w row existing ds _ ∙ logged-outbox turn _ st
answered-outbox (err e) w row turn existing r st = logged-outbox turn _ st

attempt-outbox :
    (w : World) (row : Row) (turn : Option String) (existing : List Entry)
    (answer : Result String Response) (st : Store)
    → (attempt w row turn existing answer st).1.outbox ≡ st.outbox
unfolding attempt use_answer
attempt-outbox w row turn existing (err e) st = refl
attempt-outbox w row turn existing (ok r) st = answered-outbox _ w row turn existing r st

module _ (user id : String) (now max_attempts n : ℕ) (w : World) (q : IsQuiet id max_attempts w)
    (r : Row) where
  finish-HoldsDone :
      (o : Outcome) (st : Store)
      → find_row id st.outbox ≡ some r
      → IsRetried user id now max_attempts n r
      → HoldsDone id (finish w r o st).1.outbox
  unfolding finish mark_done set_done
  finish-HoldsDone o st f h =
      rw (h.conversation, q.parses)
        (
          set_done w.now r,
          update_where-hit (is_claimed r.user_sub id r.last_turn_at) (set_done w.now) id st.outbox r
              (λ x. refl) (is_claimed-same r.user_sub id r.last_turn_at r refl h.conversation refl)
              f,
          refl,
        )

  fail-HoldsRetried :
      (failure : Failure) (st : Store)
      → find_row id st.outbox ≡ some r
      → IsRetried user id now max_attempts n r
      → HoldsRetried user id now max_attempts (n + 1) (fail w r failure st).1.outbox
  unfolding fail record_failure
  fail-HoldsRetried failure st f h =
      let error = w.describe failure in
      rw (h.conversation, q.parses, q.same_limit)
        (
          set_failure error max_attempts w.now r,
          update_where-hit (is_claimed r.user_sub id r.last_turn_at)
              (set_failure error max_attempts w.now) id st.outbox r
              (set_failure-conversation error max_attempts w.now)
              (is_claimed-same r.user_sub id r.last_turn_at r refl h.conversation refl) f,
          set_failure-IsRetried user id error now max_attempts n w.now r h,
        )

  settle-Advances :
      (turn : Option String) (answer : Result String Response) (a : Attempt)
      → find_row id a.1.outbox ≡ some r
      → IsRetried user id now max_attempts n r
      → Advances user id now max_attempts n (settle w r turn answer a).1.outbox
  unfolding settle
  settle-Advances turn answer (ok v, st) f h =
      inl (finish-HoldsDone Outcome.done _ (ap (find_row id) (logged-outbox turn _ st) ∙ f) h)
  settle-Advances turn answer (err e, st) f h =
      inr (fail-HoldsRetried e _ (ap (find_row id) (logged-outbox turn _ st) ∙ f) h)

  distill_row-Advances :
      (items : List Item) (st : Store)
      → find_row id st.outbox ≡ some r
      → IsRetried user id now max_attempts n r
      → Advances user id now max_attempts n (distill_row w r items st).1.outbox
  unfolding distill_row
  distill_row-Advances items st f h =
      let existing = current_entries (get_current r.user_sub st.memory) in
      let answer = w.distill (render_transcript items) existing in
      let inside = meanwhile w (logged w.start_turn started st) in
      let same : find_row id inside.outbox ≡ find_row id st.outbox =
        q.undisturbed (logged w.start_turn started st).outbox
        ∙ ap (find_row id) (logged-outbox w.start_turn started st) in
      settle-Advances w.start_turn answer (attempt w r w.start_turn existing answer inside)
        (ap (find_row id) (attempt-outbox w r w.start_turn existing answer inside) ∙ same ∙ f) h

  items-Advances :
      (items : List Item) (st : Store)
      → find_row id st.outbox ≡ some r
      → IsRetried user id now max_attempts n r
      → Advances user id now max_attempts n (process_items w r (some items) st).1.outbox
  unfolding process_items
  items-Advances items st f h = elim (Bool-cases (ltb (user_turns items) min_user_turns)) [
    | inl few ↦ rw few (inl (finish-HoldsDone Outcome.skipped st f h))
    | inr many ↦ rw many (distill_row-Advances items st f h)
  ]

  process_one-Advances :
      (st : Store)
      → find_row id st.outbox ≡ some r
      → IsRetried user id now max_attempts n r
      → Advances user id now max_attempts n (process_one w r st).1.outbox
  unfolding process_one
  process_one-Advances st f h =
      let (items, e) = q.reads r.user_sub r.conversation_id in rw e (items-Advances items st f h)

-- A row that is done is never claimed again.
Processed-HoldsDone :
    (id : String) {ws : List World} {st last : Store}
    → HoldsDone id st.outbox
    → Processed id ws st last
    → (length ws ≡ 0) × HoldsDone id last.outbox
Processed-HoldsDone id d (stop st) = (refl, d)
Processed-HoldsDone id (r, f, d) (elsewhere ws st st' last e p) =
    Processed-HoldsDone id (r, e ∙ f, d) p
Processed-HoldsDone id (r, f, d) (claim w ws st last r' f' q p) =
    let same : r ≡ r' = cc (f, f') in absurd (cc (d, ap (λ x. x.status) same, q))

-- The row of the conversation is done or failed.
abbrev pub HoldsSettled : String → List Row → Type 0
HoldsSettled id table =
    (r : Row) × (find_row id table ≡ some r)
    × ((r.status ≡ Status.done) ⊎ (r.status ≡ Status.failed))

abbrev pub HoldsPending : String → List Row → Type 0
HoldsPending id table = (r : Row) × (find_row id table ≡ some r) × (is_pending r.status ≡ true)

-- After `n` attempts: no more than the limit, and settled, or pending with attempts left.
abbrev pub SettledWithin : String → ℕ → ℕ → List Row → Type 0
SettledWithin id max_attempts n table =
    (n ≤ max_attempts) × (HoldsSettled id table ⊎ ((n < max_attempts) × HoldsPending id table))

module _ (user id : String) (now max_attempts : ℕ) where
  HoldsRetried-SettledWithin :
      (n : ℕ) (table : List Row)
      → n ≤ max_attempts
      → HoldsRetried user id now max_attempts n table
      → SettledWithin id max_attempts n table
  HoldsRetried-SettledWithin n table l (r, f, h) = elim (dec_le max_attempts n) [
    | yes all ↦ (l, inl (r, f, inr (h.exhausted (omega (arith, all)))))
    | no some_left ↦
        (let left : n < max_attempts = omega (arith, some_left) in
          (l, inr (left, (r, f, ap is_pending (h.retried left)))))
  ]

  attempts_left :
      (r : Row) (n : ℕ)
      → IsRetried user id now max_attempts n r
      → is_pending r.status ≡ true
      → n < max_attempts
  attempts_left r n h b = elim (dec_le max_attempts n) [
    | yes all ↦ absurd (cc (h.exhausted all, b))
    | no some_left ↦ omega (arith, some_left)
  ]

  Processed-SettledWithin :
      (n m : ℕ) {ws : List World} {st last : Store}
      → n + length ws ≡ m
      → n ≤ max_attempts
      → All (IsQuiet id max_attempts) ws
      → HoldsRetried user id now max_attempts n st.outbox
      → Processed id ws st last
      → SettledWithin id max_attempts m last.outbox
  Processed-SettledWithin n m e l q h (stop st) =
      subst (λ x. SettledWithin id max_attempts x st.outbox) (omega (arith, e))
        (HoldsRetried-SettledWithin n st.outbox l h)
  Processed-SettledWithin n m e l q (r, f, h) (elsewhere ws st st' last same p) =
      Processed-SettledWithin n m e l q (r, same ∙ f, h) p
  Processed-SettledWithin n m e l q (r, f, h) (claim w ws st last r' f' b p) =
      let same : r ≡ r' = cc (f, f') in
      let h' = subst (IsRetried user id now max_attempts n) same h in
      let left : n < max_attempts = attempts_left r' n h' b in
      elim (process_one-Advances user id now max_attempts n w q.0 r' st f' h') [
        | inl d ↦
            (let (none_left, (s, g, k)) = Processed-HoldsDone id d p in
              (omega (arith, e, none_left, left), inl (s, g, inl k)))
        | inr more ↦
            Processed-SettledWithin (n + 1) m (omega (arith, e)) (omega (arith, left)) q.1 more p
      ]

-- After a touch, and as long as no further turn lands and the conversation can be read, its row is
-- claimed and processed at most `max_attempts` times, by one worker at a time, whatever the model
-- answers and whatever happens to other rows in between: when it was so often, it is done or failed;
-- before, it is done or failed or pending, so that a claim can still take it. At least one attempt is
-- allowed.
pub touch-SettledWithin :
    (parse_uuid : String → Option String) (user conversation : String) (now max_attempts : ℕ)
    (st : Store) {id : String} {table : List Row} (ws : List World) {last : Store}
    → 1 ≤ max_attempts
    → parse_uuid conversation ≡ some id
    → touch parse_uuid user conversation now st.outbox ≡ ok table
    → All (IsQuiet id max_attempts) ws
    → Processed id ws (record st { outbox = table }) last
    → SettledWithin id max_attempts (length ws) last.outbox
touch-SettledWithin parse_uuid user conversation now max_attempts st {id} {table} ws m h e q p =
    let t =
      subst (λ x. x ≡ ok table) (touch-upsert parse_uuid user conversation now st.outbox h) e in
    Processed-SettledWithin user id now max_attempts 0 (length ws) (omega arith) (omega arith) q
      (HoldsArmed-HoldsRetried user id now max_attempts table m
        (upsert-HoldsArmed user id now st.outbox t))
      p
