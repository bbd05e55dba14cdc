-- ===== src/History/Writes/Stored.antt =====
-- What holds of the tables and what each write keeps of it: every message stands in a conversation of its
-- own user.
use latest_poseidon.Prelude.{
  not-true, same_text, if◌then◌else◌, ℕ, ◌≡◌, ◌≢◌, refl, sym, subst, ap, ◌∙◌, inl, inr, String,
  str_eq, eq_iff, Bool, true, false, ◌&&◌, ◌||◌, not, Option, List, [], ◌∷◌, All, All-weaken,
  Result, ok, err, keep, keep-true, keep-false, Bool-cases, Result-cases, >>=-eq-ok, ok-injective,
  arith,
}
use latest_poseidon.AgentLoop.Types.{Text}
use latest_poseidon.History.{
  Conversation, Message, HistoryError, Codec, no_conversation, bad_id, duplicate_id, require, found,
  conversation_key, message_key, owns, has_conversation,
}
use latest_poseidon.History.Pages.{HasKeys, keep-HasKeys}
use latest_poseidon.History.Writes.{
  Tables, update_conversation, is_taken, is_used, create_conversation, delete_row, append_message,
  parse_optional,
}

abbrev pub IsOwned : Tables → Type 0
IsOwned (conversations, messages) =
    All (λ m. has_conversation m.user_sub m.conversation_id conversations ≡ true) messages

-- The ids of conversations differ, and so do those of messages; and each message stands in a
-- conversation of its user.
pub record IsStored (t : Tables) : Type 0 where
  pub conversation_ids : HasKeys conversation_key t.0
  pub message_ids : HasKeys message_key t.1
  pub owned : IsOwned t

-- The tables after a write; one that raises leaves them.
abbrev pub committed : Result HistoryError Tables → Tables → Tables
committed (ok t') t = t'
committed (err e) t = t

different : (s k : String) → str_eq s k ≡ false → s ≢ k
different s k h e = cc (h, (eq_iff s k).1 e)

is_used-fresh :
    (id : String) (table : List Conversation)
    → is_used id table ≡ false
    → All (λ c. c.id ≢ id) table
is_used-fresh id [] h = tt
is_used-fresh id (c ∷ table) h =
    (different c.id id (ground (arith, h)), is_used-fresh id table (ground (arith, h)))

is_taken-fresh :
    (id : String) (messages : List Message)
    → is_taken id messages ≡ false
    → All (λ m. m.id ≢ id) messages
is_taken-fresh id [] h = tt
is_taken-fresh id (m ∷ messages) h =
    (different m.id id (ground (arith, h)), is_taken-fresh id messages (ground (arith, h)))

-- An update that changes neither the id nor the user of a row.
module _ (user id : String) (f : Conversation → Conversation)
    (same_id : (c : Conversation) → (f c).id ≡ c.id)
    (same_user : (c : Conversation) → (f c).user_sub ≡ c.user_sub) where
  chosen_id : (b : Bool) (c : Conversation) → (if b then f c else c).id ≡ c.id
  chosen_id true c = same_id c
  chosen_id false c = refl

  chosen_user : (b : Bool) (c : Conversation) → (if b then f c else c).user_sub ≡ c.user_sub
  chosen_user true c = same_user c
  chosen_user false c = refl

  update_conversation-ids :
      (k : String) (table : List Conversation)
      → All (λ c. c.id ≢ k) table
      → All (λ c. c.id ≢ k) (update_conversation user id f table)
  unfolding update_conversation
  update_conversation-ids k [] h = tt
  update_conversation-ids k (c ∷ table) h = (
    subst (λ i. i ≢ k) (sym (chosen_id (owns user c && str_eq c.id id) c)) h.0,
    update_conversation-ids k table h.1,
  )

  update_conversation-HasKeys :
      (table : List Conversation)
      → HasKeys conversation_key table
      → HasKeys conversation_key (update_conversation user id f table)
  unfolding update_conversation
  update_conversation-HasKeys [] h = tt
  update_conversation-HasKeys (c ∷ table) h = (
    subst (λ i. All (λ y. y.id ≢ i) (update_conversation user id f table))
        (sym (chosen_id (owns user c && str_eq c.id id) c))
        (update_conversation-ids c.id table h.0),
    update_conversation-HasKeys table h.1,
  )

  has_conversation-update_conversation :
      (u k : String) (table : List Conversation)
      → has_conversation u k (update_conversation user id f table) ≡ has_conversation u k table
  unfolding update_conversation
  has_conversation-update_conversation u k [] = refl
  has_conversation-update_conversation u k (c ∷ table) = λ i.
      (str_eq (chosen_user (owns user c && str_eq c.id id) c i) u
        && str_eq (chosen_id (owns user c && str_eq c.id id) c i) k)
      || has_conversation-update_conversation u k table i

  pub update_conversation-IsStored :
      (conversations : List Conversation) (messages : List Message)
      → IsStored (conversations, messages)
      → IsStored (update_conversation user id f conversations, messages)
  update_conversation-IsStored conversations messages h = record {
    conversation_ids = update_conversation-HasKeys conversations h.conversation_ids;
    message_ids = h.message_ids;
    owned =
        All-weaken _ _ messages
          (λ m e.
            has_conversation-update_conversation m.user_sub m.conversation_id conversations ∙ e)
          h.owned;
  }

require-ok : (b : Bool) (e : HistoryError) {u : Unit {0}} → require b e ≡ ok u → b ≡ true
require-ok true e h = refl
require-ok false e h = absurd (cc h)

-- A message of a conversation that its user sees.
append-IsStored :
    (m : Message) (conversations : List Conversation) (messages : List Message)
    → has_conversation m.user_sub m.conversation_id conversations ≡ true
    → is_taken m.id messages ≡ false
    → IsStored (conversations, messages)
    → IsStored (conversations, m ∷ messages)
append-IsStored m conversations messages seen fresh h = record {
  conversation_ids = h.conversation_ids;
  message_ids = (is_taken-fresh m.id messages fresh, h.message_ids);
  owned = (seen, h.owned);
}

add_conversation-IsStored :
    (c : Conversation) (conversations : List Conversation) (messages : List Message)
    → is_used c.id conversations ≡ false
    → IsStored (conversations, messages)
    → IsStored (c ∷ conversations, messages)
add_conversation-IsStored c conversations messages new h = record {
  conversation_ids = (is_used-fresh c.id conversations new, h.conversation_ids);
  message_ids = h.message_ids;
  owned = All-weaken _ _ messages (λ m e. ground (arith, e)) h.owned;
}

apart : (s k : String) → str_eq s k ≡ false → str_eq k s ≡ false
apart s k n = elim (Bool-cases (str_eq k s)) [
  | inl t ↦ absurd (different s k n (sym ((eq_iff k s).0 t)))
  | inr f ↦ f
]

pub create_conversation-IsStored :
    (user id opener_id mode : String) (opener : Text) (now : ℕ) (t : Tables)
    → IsStored t
    → IsStored (committed (create_conversation user id opener_id mode opener now t) t)
unfolding create_conversation
create_conversation-IsStored user id opener_id mode opener now (conversations, messages) h =
    elim (Bool-cases (is_used id conversations)) [
      | inl t ↦ rw t h
      | inr new ↦ elim (Bool-cases (is_taken opener_id messages)) [
        | inl t ↦ rw (new, t) h
        | inr fresh ↦
            rw (new, fresh)
              (append-IsStored _ _ messages (rw (same_text user, same_text id)) fresh
                (add_conversation-IsStored _ conversations messages new h))
      ]
    ]

has_conversation-deleted :
    (user id u k : String) (table : List Conversation)
    → str_eq k id ≡ false
    → has_conversation u k (keep (λ c. not (owns user c && str_eq c.id id)) table)
      ≡ has_conversation u k table
has_conversation-deleted user id u k [] n = unfold keep in refl
has_conversation-deleted user id u k (c ∷ table) n =
    elim (Bool-cases (owns user c && str_eq c.id id)) [
      | inl t ↦ rw (keep-false (λ c. not (owns user c && str_eq c.id id)) c table (ap not t)) (
          let is_id : c.id ≡ id = (eq_iff c.id id).0 (ground (arith, t)) in
          let other : str_eq c.id k ≡ false =
            subst (λ i. str_eq i k ≡ false) (sym is_id) (apart k id n) in
          ground (arith, other, has_conversation-deleted user id u k table n))
      | inr f ↦ rw (keep-true (λ c. not (owns user c && str_eq c.id id)) c table (ap not f)) (
          ap (λ b. (owns u c && str_eq c.id k) || b) (has_conversation-deleted user id u k table n))
    ]

IsOwned-deleted :
    (user id : String) (conversations : List Conversation) (messages : List Message)
    → IsOwned (conversations, messages)
    → IsOwned (
      keep (λ c. not (owns user c && str_eq c.id id)) conversations,
      keep (λ m. not (str_eq m.conversation_id id)) messages,
    )
IsOwned-deleted user id conversations [] h = unfold keep in tt
IsOwned-deleted user id conversations (m ∷ messages) h =
    elim (Bool-cases (str_eq m.conversation_id id)) [
      | inl t ↦
          rw (keep-false (λ m. not (str_eq m.conversation_id id)) m messages (ap not t))
            (IsOwned-deleted user id conversations messages h.1)
      | inr f ↦ rw (keep-true (λ m. not (str_eq m.conversation_id id)) m messages (ap not f)) (
        has_conversation-deleted user id m.user_sub m.conversation_id conversations f ∙ h.0,
        IsOwned-deleted user id conversations messages h.1,
      )
    ]

pub delete_row-IsStored :
    (user id : String) (t : Tables) → IsStored t → IsStored (delete_row user id t).1
unfolding delete_row
delete_row-IsStored user id (conversations, messages) h =
    elim (Bool-cases (has_conversation user id conversations)) [
      | inl t ↦ rw t (record {
        conversation_ids = keep-HasKeys conversation_key _ conversations h.conversation_ids;
        message_ids = keep-HasKeys message_key _ messages h.message_ids;
        owned = IsOwned-deleted user id conversations messages h.owned;
      })
      | inr f ↦ rw f h
    ]

pub append_message-IsStored :
    (codec : Codec) (user cid message_id role : String) (parts : Text) (turn_id : Option String)
    (now : ℕ) (t : Tables)
    → IsStored t
    → IsStored (committed (append_message codec user cid message_id role parts turn_id now t) t)
unfolding append_message
append_message-IsStored codec user cid message_id role parts turn_id now (conversations, messages)
      h =
    let r =
      append_message codec user cid message_id role parts turn_id now (conversations, messages) in
    elim (Result-cases r) [
      | inr (e, q) ↦ rw q h
      | inl (t', q) ↦
          (let (id, a, q1) = >>=-eq-ok (found no_conversation (codec.parse_uuid cid)) _ q in
            let (m, b, q2) = >>=-eq-ok (found bad_id (codec.parse_uuid message_id)) _ q1 in
            let (turn, c, q3) = >>=-eq-ok (parse_optional codec turn_id) _ q2 in
            let (u, v, q4) =
              >>=-eq-ok (require (has_conversation user id conversations) no_conversation) _ q3 in
            let (w, x, q5) = >>=-eq-ok (require (not (is_taken m messages)) duplicate_id) _ q4 in
            rw q (
              subst IsStored (ok-injective q5) (
                append-IsStored _ _ messages
                  (has_conversation-update_conversation user id (λ c. record c { updated_at = now })
                      (λ c. refl) (λ c. refl) user id conversations
                    ∙ require-ok _ no_conversation v)
                  (not-true (is_taken m messages) (require-ok _ duplicate_id x))
                  (update_conversation-IsStored user id (λ c. record c { updated_at = now })
                    (λ c. refl) (λ c. refl) conversations messages h))))
    ]
