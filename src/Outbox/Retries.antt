-- ===== src/Outbox/Retries.antt =====
-- How often a conversation is retried.
use latest_poseidon.Prelude.{
  ℕ, ◌+◌, ◌≤◌, ◌<◌, ◌≡◌, refl, sym, subst, ap, String, str_eq, eq_iff, Bool, true, Option, some,
  List, [], ◌∷◌, map, length, ok, Bool-cases, inl, inr, arith,
}
use latest_poseidon.Outbox.{
  Row, pending, failed, is_claimed, update_where, set_failure, touch, record_failure,
}
use latest_poseidon.Outbox.Rearm.{
  find_row, WorkerStep, to_failure, act, step, steps, HoldsArmed, upsert-HoldsArmed, touch-upsert,
  find_row-skip,
}

-- An update of the row that is found is found.
pub update_where-hit :
    (p : Row → Bool) (f : Row → Row) (id : String) (table : List Row) (r : Row)
    → ((x : Row) → (f x).conversation_id ≡ x.conversation_id)
    → p r ≡ true
    → find_row id table ≡ some r
    → find_row id (update_where p f table) ≡ some (f r)
unfolding update_where find_row
update_where-hit p f id [] r k n h = absurd (cc)
update_where-hit p f id (x ∷ rows) r k n h = elim (Bool-cases (str_eq x.conversation_id id)) [
  | inl m ↦
      (let e : x ≡ r = cc (rw m at h) in
        let px : p x ≡ true = subst (λ y. p y ≡ true) (sym e) n in
        let same : str_eq (f x).conversation_id id ≡ true = rw (k x) m in
        rw (px, same) (ap (λ y. some (f y)) e))
  | inr m ↦
      (let rest = update_where-hit p f id rows r k n (rw m at h) in
        elim (Bool-cases (p x)) [
          | inl t ↦ rw t (find_row-skip id (f x) (update_where p f rows) (rw (k x) m) rest)
          | inr u ↦ rw u (find_row-skip id x (update_where p f rows) m rest)
        ])
]

-- A row of a user that failed `n` times since its last turn.
pub record IsRetried (user id : String) (now max_attempts n : ℕ) (r : Row) : Type 0 where
  pub conversation : r.conversation_id ≡ id
  pub owner : r.user_sub ≡ user
  pub turn : r.last_turn_at ≡ now
  pub counted : r.attempts ≡ n
  pub retried : n < max_attempts → r.status ≡ pending
  pub exhausted : max_attempts ≤ n → r.status ≡ failed

abbrev pub HoldsRetried : String → String → ℕ → ℕ → ℕ → List Row → Type 0
HoldsRetried user id now max_attempts n table =
    (r : Row) × (find_row id table ≡ some r) × IsRetried user id now max_attempts n r

pub set_failure-IsRetried :
    (user id error : String) (now max_attempts n at : ℕ) (r : Row)
    → IsRetried user id now max_attempts n r
    → IsRetried user id now max_attempts (n + 1) (set_failure error max_attempts at r)
unfolding set_failure
set_failure-IsRetried user id error now max_attempts n at r h = record {
  conversation = h.conversation;
  owner = h.owner;
  turn = h.turn;
  counted = omega (arith, h.counted);
  retried = λ l. ground (arith, h.counted, l);
  exhausted = λ l. ground (arith, h.counted, l);
}

pub set_failure-conversation :
    (error : String) (max_attempts at : ℕ) (r : Row)
    → (set_failure error max_attempts at r).conversation_id ≡ r.conversation_id
unfolding set_failure
set_failure-conversation error max_attempts at r = refl

pub is_claimed-same :
    (user id : String) (now : ℕ) (r : Row)
    → r.user_sub ≡ user
    → r.conversation_id ≡ id
    → r.last_turn_at ≡ now
    → is_claimed user id now r ≡ true
unfolding is_claimed
is_claimed-same user id now r a b c =
    ground (arith, (eq_iff r.user_sub user).1 a, (eq_iff r.conversation_id id).1 b, c)

find_row-id :
    (id : String) (table : List Row) (r : Row) → find_row id table ≡ some r → r.conversation_id ≡ id
unfolding find_row
find_row-id id [] r h = absurd (cc)
find_row-id id (x ∷ rows) r h = elim (Bool-cases (str_eq x.conversation_id id)) [
  | inl m ↦
      (let e : x ≡ r = cc (rw m at h) in
        subst (λ y. y.conversation_id ≡ id) e ((eq_iff x.conversation_id id).0 m))
  | inr m ↦ find_row-id id rows r (rw m at h)
]

pub HoldsArmed-HoldsRetried :
    (user id : String) (now max_attempts : ℕ) (table : List Row)
    → 1 ≤ max_attempts
    → HoldsArmed user id now table
    → HoldsRetried user id now max_attempts 0 table
HoldsArmed-HoldsRetried user id now max_attempts table h (r, e, a) = (
  r,
  e,
  record {
    conversation = find_row-id id table r e;
    owner = a.owner;
    turn = a.turn;
    counted = a.no_attempts;
    retried = λ _. a.is_pending;
    exhausted = λ l. absurd (omega (arith, h, l));
  },
)

-- A failed attempt at the turn of the last touch: its error, and when it was recorded.
abbrev pub failure_at : String → String → ℕ → ℕ → String × ℕ → WorkerStep
failure_at user conversation claimed max_attempts (error, at) = record {
  user = user;
  conversation = conversation;
  claimed = claimed;
  now = at;
  transition = to_failure error max_attempts;
}

module _ (parse_uuid : String → Option String) (user conversation id : String)
    (now max_attempts : ℕ) (parses : parse_uuid conversation ≡ some id) where
  failure-HoldsRetried :
      (failure : String × ℕ) (n : ℕ) (table : List Row)
      → HoldsRetried user id now max_attempts n table
      → HoldsRetried user id now max_attempts
          (n + 1)
          (step parse_uuid (failure_at user conversation now max_attempts failure) table)
  unfolding act record_failure
  failure-HoldsRetried (error, at) n table (r, e, h) = rw parses (
    set_failure error max_attempts at r,
    update_where-hit (is_claimed user id now) (set_failure error max_attempts at) id table r
        (set_failure-conversation error max_attempts at)
        (is_claimed-same user id now r h.owner h.conversation h.turn) e,
    set_failure-IsRetried user id error now max_attempts n at r h,
  )

  failures-HoldsRetried :
      (failures : List (String × ℕ)) (n : ℕ) (table : List Row)
      → HoldsRetried user id now max_attempts n table
      → HoldsRetried user id now max_attempts
          (n + length failures)
          (steps parse_uuid (map (failure_at user conversation now max_attempts) failures) table)
  unfolding steps
  failures-HoldsRetried [] n table h =
      subst (λ k. HoldsRetried user id now max_attempts k table) (omega arith) h
  failures-HoldsRetried (f ∷ failures) n table h =
      subst
        (λ k. HoldsRetried user id now max_attempts k (
          steps parse_uuid (map (failure_at user conversation now max_attempts) (f ∷ failures))
            table))
        (omega arith) (failures-HoldsRetried failures (n + 1) _ (failure-HoldsRetried f n table h))

-- After a touch, each failure recorded for its turn counts once, and the row stays pending, to be
-- claimed again, until exactly the `max_attempts`-th, which marks it failed; with no further turn it
-- then stays failed. At least one attempt is allowed.
pub touch-retries :
    (parse_uuid : String → Option String) (user conversation : String) (now max_attempts : ℕ)
    (table : List Row) {id : String} {table' : List Row} (failures : List (String × ℕ))
    → 1 ≤ max_attempts
    → parse_uuid conversation ≡ some id
    → touch parse_uuid user conversation now table ≡ ok table'
    → HoldsRetried user id now max_attempts
        (length failures)
        (steps parse_uuid (map (failure_at user conversation now max_attempts) failures) table')
touch-retries parse_uuid user conversation now max_attempts table {id} {table'} failures m h e =
    let t = subst (λ x. x ≡ ok table') (touch-upsert parse_uuid user conversation now table h) e in
    let failing = map (failure_at user conversation now max_attempts) failures in
    subst (λ n. HoldsRetried user id now max_attempts n (steps parse_uuid failing table'))
      (omega arith)
      (failures-HoldsRetried parse_uuid user conversation id now max_attempts h failures 0 table' (
        HoldsArmed-HoldsRetried user id now max_attempts table' m
          (upsert-HoldsArmed user id now table t)))
