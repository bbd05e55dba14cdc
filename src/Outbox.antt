-- ===== src/Outbox.antt =====
-- backend/poseidon/core/personalization/outbox.py and the claim of
-- backend/poseidon/scripts/memory_worker.py: the queue of conversations to distil, a row for each. A
-- statement is a function of the table at the time that `now()` answers. It runs as a role to which the
-- row-level security of migration 0008 applies (`database_app_role`, or an unprivileged connection), so
-- its user sees only their own rows; the claim runs with the worker's own role and sees every row. The
-- conversation of a new row exists: the foreign key of the insert is not modelled.
pub mod Rearm
pub mod Retries
pub mod Claims
pub mod Examples
use latest_poseidon.Prelude.{
  ℕ, ◌+◌, ◌*◌, String, str_eq, Bool, true, false, ◌&&◌, Option, none, some, List, [], ◌∷◌, length,
  take, Result, ok, err, ◌>>=◌, leb, ltb, ◌==◌, if◌then◌else◌, keep, sort_by, map,
}

pub data Status : Type 0 where
  pending done failed : Status

-- A row of `memory_outbox`; times are in microseconds.
pub record Row : Type 0 where
  pub conversation_id : String
  pub user_sub : String
  pub last_turn_at : ℕ
  pub status : Status
  pub attempts : ℕ
  pub last_error : Option String
  pub updated_at : ℕ

-- The policy `memory_outbox_owner`: user_sub = current_setting('app.user_sub').
abbrev pub sees : String → Row → Bool
sees user r = str_eq r.user_sub user

-- `ValueError` for an id that is no UUID, and the duplicate key of a row that the user cannot see.
pub data OutboxError : Type 0 where
  malformed_id duplicate_key : OutboxError

-- ON CONFLICT DO UPDATE SET last_turn_at = now(), status = 'pending', attempts = 0, last_error = NULL
unfoldable pub rearm : ℕ → Row → Row
rearm now r = record r { last_turn_at = now; status = pending; attempts = 0; last_error = none }

-- The row that `_TOUCH_SQL` inserts.
unfoldable pub new_row : String → String → ℕ → Row
new_row user id now = record {
  conversation_id = id;
  user_sub = user;
  last_turn_at = now;
  status = pending;
  attempts = 0;
  last_error = none;
  updated_at = now;
}

-- `_TOUCH_SQL`
unfoldable pub upsert : String → String → ℕ → List Row → Result OutboxError (List Row)
upsert user id now [] = ok (new_row user id now ∷ [])
upsert user id now (r ∷ rows) =
    let rest = upsert user id now rows in
    if str_eq r.conversation_id id
    then (if sees user r then ok (rearm now r ∷ rows) else err duplicate_key)
    else rest >>= λ rows'. ok (r ∷ rows')

-- WHERE conversation_id = :conversation_id AND last_turn_at = :claimed_last_turn_at, of the rows that
-- the user sees.
unfoldable pub is_claimed : String → String → ℕ → Row → Bool
is_claimed user id claimed r =
    sees user r && (str_eq r.conversation_id id && r.last_turn_at == claimed)

-- UPDATE ... SET ... WHERE ...
unfoldable pub update_where : (Row → Bool) → (Row → Row) → List Row → List Row
update_where p f [] = []
update_where p f (r ∷ rows) =
    let rest = update_where p f rows in if p r then f r ∷ rest else r ∷ rest

-- `_MARK_DONE_SQL`
unfoldable pub set_done : ℕ → Row → Row
set_done now r = record r { status = done; last_error = none; updated_at = now }

-- `_RECORD_FAILURE_SQL`: the test reads the attempts before the update.
unfoldable pub set_failure : String → ℕ → ℕ → Row → Row
set_failure error max_attempts now r = record r {
  attempts = r.attempts + 1;
  last_error = some error;
  updated_at = now;
  status = if leb max_attempts (r.attempts + 1) then failed else pending;
}

-- RETURNING status, attempts, of the first row.
unfoldable pub returning : List Row → Option (Status × ℕ)
returning [] = none
returning (r ∷ rows) = some (r.status, r.attempts)

-- A statement for an id that parses; `ValueError` for one that does not.
abbrev pub with_id {ℓ} :
    {A : Type ℓ} → Option String → (String → Result OutboxError A) → Result OutboxError A
with_id none k = err malformed_id
with_id (some parsed) k = k parsed

-- `_parse_uuid`: the canonical text of an id, or nothing.
module _ (parse_uuid : String → Option String) where
  -- `touch`
  unfoldable pub touch : String → String → ℕ → List Row → Result OutboxError (List Row)
  touch user id now table = with_id (parse_uuid id) (λ parsed. upsert user parsed now table)

  -- `mark_done`
  unfoldable pub mark_done :
      String → String → ℕ → ℕ → List Row → Result OutboxError (Bool × List Row)
  mark_done user id claimed now table = with_id (parse_uuid id) (λ parsed.
      let p = is_claimed user parsed claimed in
      ok (length (keep p table) == 1, update_where p (set_done now) table))

  -- `record_failure`
  unfoldable pub record_failure :
      String
      → String
      → ℕ
      → String
      → ℕ
      → ℕ
      → List Row
      → Result OutboxError (Option (Status × ℕ) × List Row)
  record_failure user id claimed error max_attempts now table = with_id (parse_uuid id) (λ parsed.
      let p = is_claimed user parsed claimed in
      ok (
        returning (map (set_failure error max_attempts now) (keep p table)),
        update_where p (set_failure error max_attempts now) table,
      ))

abbrev pub is_pending : Status → Bool
is_pending pending = true
is_pending _ = false

-- status = 'pending' AND last_turn_at < now() - make_interval(mins => :idle_minutes)
unfoldable pub is_idle : ℕ → ℕ → Row → Bool
is_idle now idle_minutes r =
    is_pending r.status && ltb (r.last_turn_at + idle_minutes * 60000000) now

unfoldable pub older : Row → Row → Bool
older r s = leb r.last_turn_at s.last_turn_at

-- `claim_idle_conversations`, where no other worker holds a lock.
unfoldable pub claim_idle_conversations : ℕ → ℕ → ℕ → List Row → List Row
claim_idle_conversations now idle_minutes limit table =
    take limit (sort_by older (keep (is_idle now idle_minutes) table))
