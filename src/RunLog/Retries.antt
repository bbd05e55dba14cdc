-- ===== src/RunLog/Retries.antt =====
-- A turn that is sent again with its key.
use latest_poseidon.Prelude.{
  same_text, if◌then◌else◌, ◌≡◌, refl, ap, ap₂, ◌∙◌, inl, inr, String, str_eq, eq_iff, Bool, true,
  false, ◌&&◌, Option, none, some, List, [], ◌∷◌, Bool-cases, arith,
}
use latest_poseidon.AgentLoop.Types.{Text}
use latest_poseidon.RunLog.{
  TurnRun, TurnHandle, sql_eq, has_key, find_existing, is_taken, insert_if, new_turn, start_turn,
  update_where, finalize, redact_turns_for_conversation,
}

-- What happens to the log meanwhile, by any user.
pub data Act : Type 0 where
  starts : String → String → Option String → Option String → Option Text → Text → Act
  finalizes : String → String → String → Option String → Option Text → Act
  redacts : String → String → Act

unfoldable pub act : Act → List TurnRun → List TurnRun
act (starts user id conversation_id key question parsed) table =
    (start_turn user id conversation_id key question parsed table).1
act (finalizes user id status message_id summary) table =
    finalize user id status message_id summary table
act (redacts user conversation_id) table = redact_turns_for_conversation user conversation_id table

unfoldable pub run : List Act → List TurnRun → List TurnRun
run [] table = table
run (a ∷ acts) table = run acts (act a table)

abbrev handle_id : Option TurnHandle → Option String
handle_id none = none
handle_id (some h) = some h.turn_run_id

sql_eq-some : (a : Option String) (k : String) → sql_eq a (some k) ≡ true → a ≡ some k
sql_eq-some none k h = absurd (cc h)
sql_eq-some (some a) k h = ap (λ x. some x) ((eq_iff a k).0 h)

module _ (user key : String) where
  chosen_key :
      (b : Bool) (f : TurnRun → TurnRun) (r : TurnRun)
      → has_key user (some key) (f r) ≡ has_key user (some key) r
      → has_key user (some key) (if b then f r else r) ≡ has_key user (some key) r
  chosen_key true f r h = h
  chosen_key false f r h = refl

  chosen_id :
      (b : Bool) (f : TurnRun → TurnRun) (r : TurnRun)
      → (f r).id ≡ r.id
      → (if b then f r else r).id ≡ r.id
  chosen_id true f r h = h
  chosen_id false f r h = refl

  find_existing-update_where :
      (p : TurnRun → Bool) (f : TurnRun → TurnRun)
      → ((r : TurnRun) → (f r).id ≡ r.id)
      → ((r : TurnRun) → has_key user (some key) (f r) ≡ has_key user (some key) r)
      → (table : List TurnRun)
      → find_existing user (some key) (update_where p f table) ≡ find_existing user (some key) table
  unfolding find_existing update_where
  find_existing-update_where p f i k [] = refl
  find_existing-update_where p f i k (r ∷ table) = λ j.
      if chosen_key (p r) f r (k r) j
      then some (chosen_id (p r) f r (i r) j)
      else find_existing-update_where p f i k table j

  insert_if-keeps :
      (found : Option String) (taken : Bool) (row : TurnRun) (table : List TurnRun) {id : String}
      → find_existing row.user_sub row.client_turn_key table ≡ found
      → find_existing user (some key) table ≡ some id
      → find_existing user (some key) (insert_if found taken row table).1 ≡ some id
  unfolding find_existing
  insert_if-keeps (some existing) taken row table e h = h
  insert_if-keeps none true row table e h = h
  insert_if-keeps none false row table e h = elim (Bool-cases (has_key user (some key) row)) [
    | inl t ↦
        (let is_user : row.user_sub ≡ user = (eq_iff row.user_sub user).0 (ground (arith, t)) in
          let is_key : row.client_turn_key ≡ some key =
            sql_eq-some row.client_turn_key key (ground (arith, t)) in
          absurd (cc (e, h, ap₂ (λ u k. find_existing u k table) is_user is_key)))
    | inr f ↦ rw f h
  ]

  act-keeps :
      (a : Act) (table : List TurnRun) {id : String}
      → find_existing user (some key) table ≡ some id
      → find_existing user (some key) (act a table) ≡ some id
  unfolding act start_turn finalize redact_turns_for_conversation
  act-keeps (starts u i c k q p) table h =
      insert_if-keeps (find_existing u k table) (is_taken i table) _ table refl h
  act-keeps (finalizes u i s m a) table h =
      find_existing-update_where _ _ (λ r. refl) (λ r. refl) table ∙ h
  act-keeps (redacts u c) table h = find_existing-update_where _ _ (λ r. refl) (λ r. refl) table ∙ h

  run-keeps :
      (acts : List Act) (table : List TurnRun) {id : String}
      → find_existing user (some key) table ≡ some id
      → find_existing user (some key) (run acts table) ≡ some id
  unfolding run
  run-keeps [] table h = h
  run-keeps (a ∷ acts) table h = run-keeps acts (act a table) (act-keeps a table h)

  -- What a start that returns a handle leaves.
  insert_if-found :
      (found : Option String) (taken : Bool) (row : TurnRun) (table : List TurnRun) (h : TurnHandle)
      → find_existing user (some key) table ≡ found
      → row.user_sub ≡ user
      → row.client_turn_key ≡ some key
      → (insert_if found taken row table).0 ≡ some h
      → find_existing user (some key) (insert_if found taken row table).1 ≡ some h.turn_run_id
  unfolding find_existing
  insert_if-found (some existing) taken row table h e u k r = e ∙ ap handle_id r
  insert_if-found none true row table h e u k r = absurd (cc r)
  insert_if-found none false row table h e u k r =
      let own : has_key user (some key) row ≡ true =
        ap₂ (λ a b. str_eq a user && sql_eq b (some key)) u k
        ∙ ap₂ (λ a b. a && b) (same_text user) (same_text key) in
      rw own (ap handle_id r)

-- A turn that is sent again with the key of one that has started runs no second time: whatever was
-- started, finalized or redacted in between, by any user, the second start makes no row, and returns the
-- id of the first one with the word that it did not make it. The conversation, the question and the id of
-- the second may be others.
pub start_turn-retried :
    (user key id id' : String) (conversation_id conversation_id' : Option String)
    (question question' : Option Text) (parsed parsed' : Text) (table : List TurnRun)
    (handle : TurnHandle) (acts : List Act)
    → (start_turn user id conversation_id (some key) question parsed table).0 ≡ some handle
    → let later =
        run acts (start_turn user id conversation_id (some key) question parsed table).1 in
      start_turn user id' conversation_id' (some key) question' parsed' later
      ≡ (some (record { turn_run_id = handle.turn_run_id; created = false }), later)
unfolding start_turn
start_turn-retried user key id id' conversation_id conversation_id' question question' parsed
      parsed' table handle acts h =
    let later = run acts (start_turn user id conversation_id (some key) question parsed table).1 in
    let kept : find_existing user (some key) later ≡ some handle.turn_run_id =
      run-keeps user key acts _ (
        insert_if-found user key (find_existing user (some key) table) (is_taken id table) _ table
          handle refl refl refl h) in
    ap
      (λ o.
        insert_if o (is_taken id' later)
          (new_turn user id' conversation_id' (some key) question' parsed') later)
      kept
