-- ===== src/Outbox/Rearm.antt =====
-- A turn that lands while a worker distils an older state of its conversation is never lost.
use latest_poseidon.Prelude.{
  same_text, ℕ, ◌≡◌, ◌≢◌, refl, sym, subst, ap, String, str_eq, eq_iff, Bool, true, false, Option,
  none, some, List, [], ◌∷◌, All, Result, ok, err, >>=-eq-ok, ok-injective, Bool-cases, inl, inr,
  if◌then◌else◌, arith, ==_iff,
}
use latest_poseidon.Outbox.{
  Row, pending, OutboxError, rearm, new_row, upsert, with_id, touch, mark_done, record_failure,
  is_claimed, update_where, set_done, set_failure,
}

-- SELECT ... WHERE conversation_id = :conversation_id
unfoldable pub find_row : String → List Row → Option Row
find_row id [] = none
find_row id (r ∷ rows) = if str_eq r.conversation_id id then some r else find_row id rows

-- What a worker does to a row after its claim.
pub data Transition : Type 0 where
  to_done : Transition
  to_failure : String → ℕ → Transition

-- A transition by a user, on a conversation, for the turn that the claim read, at a time.
pub record WorkerStep : Type 0 where
  pub user : String
  pub conversation : String
  pub claimed : ℕ
  pub now : ℕ
  pub transition : Transition

-- The table after a statement, or as it was where the statement raised.
abbrev pub after {ℓ} : {A : Type ℓ} → Result OutboxError (A × List Row) → List Row → List Row
after (ok (a, table')) table = table'
after (err e) table = table

unfoldable pub act : (String → Option String) → Transition → WorkerStep → List Row → List Row
act parse_uuid to_done s table =
    after (mark_done parse_uuid s.user s.conversation s.claimed s.now table) table
act parse_uuid (to_failure error max_attempts) s table =
    after (record_failure parse_uuid s.user s.conversation s.claimed error max_attempts s.now table)
      table

abbrev pub step : (String → Option String) → WorkerStep → List Row → List Row
step parse_uuid s table = act parse_uuid s.transition s table

unfoldable pub steps : (String → Option String) → List WorkerStep → List Row → List Row
steps parse_uuid [] table = table
steps parse_uuid (s ∷ ss) table = steps parse_uuid ss (step parse_uuid s table)

-- The row that a touch leaves.
pub record IsArmed (user : String) (now : ℕ) (r : Row) : Type 0 where
  pub owner : r.user_sub ≡ user
  pub turn : r.last_turn_at ≡ now
  pub is_pending : r.status ≡ pending
  pub no_attempts : r.attempts ≡ 0
  pub no_error : r.last_error ≡ none

-- The table holds such a row for the conversation.
abbrev pub HoldsArmed : String → String → ℕ → List Row → Type 0
HoldsArmed user id now table = (r : Row) × (find_row id table ≡ some r) × IsArmed user now r

new_row-HoldsArmed :
    (user id : String) (now : ℕ) → HoldsArmed user id now (new_row user id now ∷ [])
unfolding new_row find_row
new_row-HoldsArmed user id now = (
  new_row user id now,
  rw (same_text id),
  record { owner = refl; turn = refl; is_pending = refl; no_attempts = refl; no_error = refl },
)

rearm-HoldsArmed :
    (user id : String) (now : ℕ) (r : Row) (rows : List Row)
    → str_eq r.conversation_id id ≡ true
    → str_eq r.user_sub user ≡ true
    → HoldsArmed user id now (rearm now r ∷ rows)
unfolding rearm find_row
rearm-HoldsArmed user id now r rows h o = (
  rearm now r,
  rw h,
  record {
    owner = (eq_iff r.user_sub user).0 o;
    turn = refl;
    is_pending = refl;
    no_attempts = refl;
    no_error = refl;
  },
)

skip-HoldsArmed :
    (user id : String) (now : ℕ) (r : Row) (rows : List Row)
    → str_eq r.conversation_id id ≡ false
    → HoldsArmed user id now rows
    → HoldsArmed user id now (r ∷ rows)
unfolding find_row
skip-HoldsArmed user id now r rows h (x, e, a) = (x, rw h e, a)

pub upsert-HoldsArmed :
    (user id : String) (now : ℕ) (table : List Row) {table' : List Row}
    → upsert user id now table ≡ ok table'
    → HoldsArmed user id now table'
unfolding upsert
upsert-HoldsArmed user id now [] h =
    subst (HoldsArmed user id now) (ok-injective h) (new_row-HoldsArmed user id now)
upsert-HoldsArmed user id now (r ∷ rows) h = elim (Bool-cases (str_eq r.conversation_id id)) [
  | inl m ↦ elim (Bool-cases (str_eq r.user_sub user)) [
    | inl o ↦
        subst (HoldsArmed user id now) (ok-injective (rw (m, o) at h))
          (rearm-HoldsArmed user id now r rows m o)
    | inr o ↦ absurd (cc (rw (m, o) at h))
  ]
  | inr m ↦
      (let (rows', e, h') = >>=-eq-ok (upsert user id now rows) _ (rw m at h) in
        subst (HoldsArmed user id now) (ok-injective h')
          (skip-HoldsArmed user id now r rows' m (upsert-HoldsArmed user id now rows e)))
]

pub find_row-skip :
    (id : String) (x : Row) (rows : List Row) {r : Row}
    → str_eq x.conversation_id id ≡ false
    → find_row id rows ≡ some r
    → find_row id (x ∷ rows) ≡ some r
unfolding find_row
find_row-skip id x rows m h = rw m h

-- An update that passes over the row that is found leaves it found.
update_where-find_row :
    (p : Row → Bool) (f : Row → Row) (id : String) (table : List Row) (r : Row)
    → ((x : Row) → (f x).conversation_id ≡ x.conversation_id)
    → p r ≡ false
    → find_row id table ≡ some r
    → find_row id (update_where p f table) ≡ some r
unfolding update_where find_row
update_where-find_row p f id [] r k n h = h
update_where-find_row p f id (x ∷ rows) r k n h = elim (Bool-cases (str_eq x.conversation_id id)) [
  | inl m ↦
      (let e : x ≡ r = cc (rw m at h) in
        let px : p x ≡ false = subst (λ y. p y ≡ false) (sym e) n in rw (px, m) (ap some e))
  | inr m ↦
      (let rest = update_where-find_row p f id rows r k n (rw m at h) in
        elim (Bool-cases (p x)) [
          | inl t ↦ rw t (find_row-skip id (f x) (update_where p f rows) (rw (k x) m) rest)
          | inr u ↦ rw u (find_row-skip id x (update_where p f rows) m rest)
        ])
]

is_claimed-other :
    (user id : String) (claimed : ℕ) (r : Row)
    → claimed ≢ r.last_turn_at
    → is_claimed user id claimed r ≡ false
unfolding is_claimed
is_claimed-other user id claimed r h = ground (arith, ==_iff r.last_turn_at claimed)

-- An update by a worker that claimed another turn.
update_where-HoldsArmed :
    (f : Row → Row) (user id owner conversation : String) (now claimed : ℕ) (table : List Row)
    → ((x : Row) → (f x).conversation_id ≡ x.conversation_id)
    → claimed ≢ now
    → HoldsArmed owner id now table
    → HoldsArmed owner id now (update_where (is_claimed user conversation claimed) f table)
update_where-HoldsArmed f user id owner conversation now claimed table k h (r, e, a) = (
  r,
  update_where-find_row (is_claimed user conversation claimed) f id table r k
      (is_claimed-other user conversation claimed r (λ q. h (cc (q, a.turn)))) e,
  a,
)

-- A statement leaves what the table had, if its id is malformed, or what the statement leaves.
pub after-with_id {ℓ κ} :
    {A : Type ℓ} (P : List Row → Type κ) (o : Option String)
    (k : String → Result OutboxError (A × List Row)) (table : List Row)
    → P table
    → ((parsed : String) → P (after (k parsed) table))
    → P (after (with_id o k) table)
after-with_id P none k table h g = h
after-with_id P (some parsed) k table h g = g parsed

module _ (parse_uuid : String → Option String) (owner id : String) (now : ℕ) where
  act-HoldsArmed :
      (t : Transition) (s : WorkerStep) (table : List Row)
      → s.claimed ≢ now
      → HoldsArmed owner id now table
      → HoldsArmed owner id now (act parse_uuid t s table)
  unfolding act mark_done record_failure set_done set_failure
  act-HoldsArmed to_done s table h k =
      after-with_id (HoldsArmed owner id now) (parse_uuid s.conversation) _ table k (λ parsed.
        update_where-HoldsArmed (set_done s.now) s.user id owner parsed now s.claimed table
          (λ x. refl) h k)
  act-HoldsArmed (to_failure error max_attempts) s table h k =
      after-with_id (HoldsArmed owner id now) (parse_uuid s.conversation) _ table k (λ parsed.
        update_where-HoldsArmed (set_failure error max_attempts s.now) s.user id owner parsed now
          s.claimed table (λ x. refl) h k)

  steps-HoldsArmed :
      (ss : List WorkerStep) (table : List Row)
      → All (λ s. s.claimed ≢ now) ss
      → HoldsArmed owner id now table
      → HoldsArmed owner id now (steps parse_uuid ss table)
  unfolding steps
  steps-HoldsArmed [] table h k = k
  steps-HoldsArmed (s ∷ ss) table h k =
      steps-HoldsArmed ss (step parse_uuid s table) h.1 (act-HoldsArmed s.transition s table h.0 k)

pub touch-upsert :
    (parse_uuid : String → Option String) (user id : String) (now : ℕ) (table : List Row)
    {parsed : String}
    → parse_uuid id ≡ some parsed
    → touch parse_uuid user id now table ≡ upsert user parsed now table
unfolding touch
touch-upsert parse_uuid user id now table h = rw h

-- A touch that returns leaves its conversation pending, with no attempts and no error. Whatever workers
-- then do to the table, in any order and as any user, for turns claimed at another time than that of
-- the touch, the row stays exactly so: a turn that lands during a distillation is never marked done,
-- and never charged with the failure of an older one.
pub touch-survives :
    (parse_uuid : String → Option String) (user id : String) (now : ℕ) (table : List Row)
    {parsed : String} {table' : List Row} (ss : List WorkerStep)
    → parse_uuid id ≡ some parsed
    → touch parse_uuid user id now table ≡ ok table'
    → All (λ s. s.claimed ≢ now) ss
    → HoldsArmed user parsed now (steps parse_uuid ss table')
touch-survives parse_uuid user id now table {parsed} {table'} ss h e a =
    steps-HoldsArmed parse_uuid user parsed now ss table' a (
      upsert-HoldsArmed user parsed now table
        (subst (λ x. x ≡ ok table') (touch-upsert parse_uuid user id now table h) e))
