-- ===== src/History/Calls/Same.antt =====
-- A state in the database and in the dicts of the other store, and what a call does to both.
use latest_poseidon.Prelude.{
  same_text, ◌+◌, ◌≡◌, refl, ap, ◌∙◌, String, str_eq, Bool, false, Option, none, some, [], ok,
  lookup,
}
use latest_poseidon.Slots.{ConversationSlots, empty_slots}
use latest_poseidon.History.Slots.{
  slots_to_json, slots_from_json, CanStore, slots_from_json-slots_to_json,
}
use latest_poseidon.History.State.{
  State, no_state, coalesce, with_slots, with_brief_done, with_next_turn, slots_of, brief_of,
}
use latest_poseidon.History.Dicts.{
  ConversationStateStore, get, put, next_turn_index, get_brief_done, set_brief_done,
}

-- The state of a row holds what the dicts hold for its id.
pub record Same (o : Option State) (id : String) (store : ConversationStateStore) : Type 0 where
  pub slots : slots_of (some o) ≡ ok (get id store)
  pub index : coalesce (coalesce o no_state).turn_index 0 ≡ coalesce (lookup id store.turn_index) 0
  pub brief : brief_of (some o) ≡ get_brief_done id store

slots_from_json-nil : slots_from_json [] ≡ ok empty_slots
unfolding slots_from_json lookup
slots_from_json-nil = refl

pub put-Same :
    (id : String) (s : ConversationSlots) (store : ConversationStateStore) (o : Option State)
    → CanStore s
    → Same o id store
    → Same (some (with_slots (slots_to_json s) o)) id (put id s store)
unfolding put get get_brief_done lookup
put-Same id s store none k h = record {
  slots = rw (same_text id) (slots_from_json-slots_to_json s k);
  index = h.index;
  brief = h.brief;
}
put-Same id s store (some o) k h = record {
  slots = rw (same_text id) (slots_from_json-slots_to_json s k);
  index = h.index;
  brief = h.brief;
}

pub put-Same_other :
    (id j : String) (s : ConversationSlots) (store : ConversationStateStore) (o : Option State)
    → str_eq id j ≡ false
    → Same o j store
    → Same o j (put id s store)
unfolding put get get_brief_done lookup
put-Same_other id j s store o n h = record {
  slots = rw n h.slots;
  index = h.index;
  brief = h.brief;
}

pub next_turn_index-Same :
    (id : String) (store : ConversationStateStore) (o : Option State)
    → Same o id store
    → Same (some (with_next_turn o)) id (next_turn_index id store).1
unfolding next_turn_index get get_brief_done lookup
next_turn_index-Same id store none h = record {
  slots = slots_from_json-nil ∙ h.slots;
  index = rw (same_text id) (ap (λ n. n + 1) h.index);
  brief = h.brief;
}
next_turn_index-Same id store (some o) h = record {
  slots = h.slots;
  index = rw (same_text id) (ap (λ n. n + 1) h.index);
  brief = h.brief;
}

pub next_turn_index-Same_other :
    (id j : String) (store : ConversationStateStore) (o : Option State)
    → str_eq id j ≡ false
    → Same o j store
    → Same o j (next_turn_index id store).1
unfolding next_turn_index get get_brief_done lookup
next_turn_index-Same_other id j store o n h = record {
  slots = h.slots;
  index = rw n h.index;
  brief = h.brief;
}

pub set_brief_done-Same :
    (id : String) (b : Bool) (store : ConversationStateStore) (o : Option State)
    → Same o id store
    → Same (some (with_brief_done b o)) id (set_brief_done id b store)
unfolding set_brief_done get get_brief_done lookup
set_brief_done-Same id b store none h = record {
  slots = slots_from_json-nil ∙ h.slots;
  index = h.index;
  brief = rw (same_text id) refl;
}
set_brief_done-Same id b store (some o) h = record {
  slots = h.slots;
  index = h.index;
  brief = rw (same_text id) refl;
}

pub set_brief_done-Same_other :
    (id j : String) (b : Bool) (store : ConversationStateStore) (o : Option State)
    → str_eq id j ≡ false
    → Same o j store
    → Same o j (set_brief_done id b store)
unfolding set_brief_done get get_brief_done lookup
set_brief_done-Same_other id j b store o n h = record {
  slots = h.slots;
  index = h.index;
  brief = rw n h.brief;
}
