-- ===== src/History/Writes/Owned.antt =====
-- The tables after any sequence of writes, by any users.
use latest_poseidon.Prelude.{ℕ, refl, String, Option, none, some, List, [], ◌∷◌}
use latest_poseidon.AgentLoop.Types.{Text}
use latest_poseidon.History.{Codec}
use latest_poseidon.History.Writes.{
  Tables, create_conversation, retitle_of, delete_of, append_message, set_title,
  delete_conversation,
}
use latest_poseidon.History.Writes.Stored.{
  IsStored, committed, update_conversation-IsStored, create_conversation-IsStored,
  append_message-IsStored, delete_row-IsStored,
}

-- A write of a user. What it is given is what the method is given, with the ids and the time that it
-- takes from elsewhere.
pub data Write : Type 0 where
  creates : String → String → String → String → Text → ℕ → Write
  appends : String → String → String → String → Text → Option String → ℕ → Write
  sets_title : String → String → String → Write
  deletes : String → String → Write

-- The tables after a write.
unfoldable pub write : Codec → Write → Tables → Tables
write codec (creates user id opener_id mode opener now) t =
    committed (create_conversation user id opener_id mode opener now t) t
write codec (appends user cid message_id role parts turn_id now) t =
    committed (append_message codec user cid message_id role parts turn_id now t) t
write codec (sets_title user cid title) t = set_title codec user cid title t
write codec (deletes user cid) t = (delete_conversation codec user cid t).1

unfoldable pub run : Codec → List Write → Tables → Tables
run codec [] t = t
run codec (w ∷ writes) t = run codec writes (write codec w t)

retitle_of-IsStored :
    (id : Option String) (user title : String) (t : Tables)
    → IsStored t
    → IsStored (retitle_of id user title t)
retitle_of-IsStored none user title t h = h
retitle_of-IsStored (some id) user title t h =
    update_conversation-IsStored user id (λ c. record c { title = title }) (λ c. refl) (λ c. refl)
      t.0 t.1 h

delete_of-IsStored :
    (id : Option String) (user : String) (t : Tables)
    → IsStored t
    → IsStored (delete_of id user t).1
delete_of-IsStored none user t h = h
delete_of-IsStored (some id) user t h = delete_row-IsStored user id t h

write-IsStored : (codec : Codec) (w : Write) (t : Tables) → IsStored t → IsStored (write codec w t)
unfolding write set_title delete_conversation
write-IsStored codec (creates user id opener_id mode opener now) t h =
    create_conversation-IsStored user id opener_id mode opener now t h
write-IsStored codec (appends user cid message_id role parts turn_id now) t h =
    append_message-IsStored codec user cid message_id role parts turn_id now t h
write-IsStored codec (sets_title user cid title) t h =
    retitle_of-IsStored (codec.parse_uuid cid) user title t h
write-IsStored codec (deletes user cid) t h = delete_of-IsStored (codec.parse_uuid cid) user t h

runs-IsStored :
    (codec : Codec) (writes : List Write) (t : Tables) → IsStored t → IsStored (run codec writes t)
unfolding run
runs-IsStored codec [] t h = h
runs-IsStored codec (w ∷ writes) t h =
    runs-IsStored codec writes (write codec w t) (write-IsStored codec w t h)

-- After any sequence of writes by any users, of whatever ids and also where some of them raise, no two
-- conversations and no two messages have an id in common, and every message stands in a conversation that
-- is its own user's: none is left in a conversation of another user or in one that was deleted.
pub run-IsStored : (codec : Codec) (writes : List Write) → IsStored (run codec writes ([], []))
run-IsStored codec writes =
    runs-IsStored codec writes ([], [])
      (record { conversation_ids = tt; message_ids = tt; owned = tt })
