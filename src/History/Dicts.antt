-- ===== src/History/Dicts.antt =====
-- `ConversationStateStore` of backend/poseidon/core/chat/state.py: what a conversation keeps between turns,
-- in three dicts.
use latest_poseidon.Prelude.{ℕ, ◌+◌, String, Bool, false, List, ◌∷◌, lookup}
use latest_poseidon.Slots.{ConversationSlots, empty_slots}
use latest_poseidon.History.State.{coalesce}

pub record ConversationStateStore : Type 0 where
  pub slots : List (String × ConversationSlots)
  pub turn_index : List (String × ℕ)
  pub brief_done : List (String × Bool)

unfoldable pub get : String → ConversationStateStore → ConversationSlots
get id store = coalesce (lookup id store.slots) empty_slots

unfoldable pub put : String → ConversationSlots → ConversationStateStore → ConversationStateStore
put id slots store = record store { slots = (id, slots) ∷ store.slots }

unfoldable pub next_turn_index : String → ConversationStateStore → ℕ × ConversationStateStore
next_turn_index id store =
    let index = coalesce (lookup id store.turn_index) 0 + 1 in
    (index, record store { turn_index = (id, index) ∷ store.turn_index })

unfoldable pub get_brief_done : String → ConversationStateStore → Bool
get_brief_done id store = coalesce (lookup id store.brief_done) false

unfoldable pub set_brief_done : String → Bool → ConversationStateStore → ConversationStateStore
set_brief_done id value store = record store { brief_done = (id, value) ∷ store.brief_done }
