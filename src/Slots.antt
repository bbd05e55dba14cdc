-- ===== src/Slots.antt =====
-- `ConversationSlots` of backend/poseidon/core/skills/context.py and the tri-state carry of
-- backend/poseidon/core/parsing/carry.py.
use latest_poseidon.Prelude.{String, Option, none, List, []}
use latest_poseidon.Calendar.{Date}

pub record ConversationSlots : Type 0 where
  pub customer : Option String
  pub port : Option String
  pub period_a : Option Date
  pub period_b : Option Date
  pub mode : String
  pub region : Option String
  pub topic : Option String
  pub pass_through : List (String × String)
  pub period_a_end : Option Date
  pub period_b_end : Option Date
  pub perspective : Option String
  pub office_column : Option String
  pub office_value : Option String
  pub report_ref : Option String
  pub report_label : Option String

-- ConversationSlots()
abbrev pub empty_slots : ConversationSlots
empty_slots = record {
  customer = none;
  port = none;
  period_a = none;
  period_b = none;
  mode = "default";
  region = none;
  topic = none;
  pass_through = [];
  period_a_end = none;
  period_b_end = none;
  perspective = none;
  office_column = none;
  office_value = none;
  report_ref = none;
  report_label = none;
}

-- One field of a turn: not mentioned, or the new value (`none` clears the slot).
pub data Update {ℓ} (A : Type ℓ) : Type ℓ where
  unset : Update A
  set_to : Option A → Update A

pub record SlotUpdates : Type 0 where
  pub customer : Update String
  pub port : Update String
  pub period_a : Update Date
  pub period_b : Update Date
  pub period_a_end : Update Date
  pub period_b_end : Update Date

-- `_carried`
unfoldable pub carried {ℓ} : {A : Type ℓ} → Option A → Update A → Option A
carried prior unset = prior
carried prior (set_to value) = value

unfoldable pub apply_carry : ConversationSlots → SlotUpdates → ConversationSlots
unfolding carried
apply_carry slots updates = record slots {
  customer = carried slots.customer updates.customer;
  port = carried slots.port updates.port;
  period_a = carried slots.period_a updates.period_a;
  period_b = carried slots.period_b updates.period_b;
  period_a_end = carried slots.period_a_end updates.period_a_end;
  period_b_end = carried slots.period_b_end updates.period_b_end;
}
