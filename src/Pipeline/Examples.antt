-- ===== src/Pipeline/Examples.antt =====
-- A message that names a customer and a month, and the pipeline's theorems at it.
use latest_poseidon.Prelude.{◌≡◌, refl, false, none, some, List, [], ◌∷◌, ok, arith, lookup}
use latest_poseidon.Calendar.{Date, IsDate, days_in_month}
use latest_poseidon.Slots.{ConversationSlots, empty_slots}
use latest_poseidon.Periods.Parser.{Match, month_year}
use latest_poseidon.Periods.Parser.Total.{HasSlots}
use latest_poseidon.Resolver.Examples.{demo_tools, demo_values}
use latest_poseidon.Pipeline.Plans.{Reading, Pools}
use latest_poseidon.Pipeline.Turns.{parse_turn}
use latest_poseidon.Pipeline.Names.{NamesWritten, parse_turn-NamesWritten}
use latest_poseidon.Pipeline.Memory.{
  IsMessage, Remembers, parse_turn-Remembers, conversation, conversation-HasSlots,
}

abbrev june_15 : Date
june_15 = record { year = 2025; month = 6; day = 15 }

abbrev march : List Match
march = record { phrase = month_year "march" 2025; opens_side = false; preceding = "in" } ∷ []

-- "volume for Meridian in march 2025"
abbrev demo_reading : Reading
demo_reading = record {
  clears_port = false;
  clears_customer = false;
  port_candidates = [];
  quoted = none;
  cued = λ span. some (record { phrase = "Meridian"; span = (11, 19) });
  slice = none;
  has_by = false;
  is_period_like = λ s. false;
  sides = λ spans. (march, none);
}

abbrev demo_pools : Pools
demo_pools = record {
  customers = demo_values;
  ports = [];
  available = record { start = none; end = none };
}

june_15-IsDate : IsDate june_15
unfolding days_in_month
june_15-IsDate = omega arith

demo-IsMessage : IsMessage demo_reading demo_pools june_15
unfolding lookup
demo-IsMessage = record {
  left_matches = λ spans. (((3, refl), (omega arith, omega arith)), tt);
  right_matches = λ spans. tt;
  is_reference = record { valid = june_15-IsDate; late = omega arith; early = omega arith };
  is_last = tt;
}

empty-HasSlots : HasSlots empty_slots
empty-HasSlots = record { slot_a = tt; slot_b = tt }

parse_turn-Remembers_example :
    Remembers (parse_turn demo_tools demo_reading demo_pools empty_slots june_15)
parse_turn-Remembers_example =
    parse_turn-Remembers demo_tools demo_reading demo_pools empty_slots june_15 demo-IsMessage
      empty-HasSlots

-- The same turn, as a value.
abbrev demo_turn : Remembers (parse_turn demo_tools demo_reading demo_pools empty_slots june_15)
demo_turn =
    parse_turn-Remembers demo_tools demo_reading demo_pools empty_slots june_15 demo-IsMessage
      empty-HasSlots

parse_turn-NamesWritten_example : NamesWritten demo_reading demo_pools empty_slots demo_turn.turn
parse_turn-NamesWritten_example =
    parse_turn-NamesWritten demo_tools demo_reading demo_pools empty_slots june_15 demo_turn.returns

abbrev two_messages : List (Reading × (Pools × Date))
two_messages = (demo_reading, (demo_pools, june_15)) ∷ (demo_reading, (demo_pools, june_15)) ∷ []

conversation-HasSlots_example :
    (end : ConversationSlots) × (conversation demo_tools two_messages empty_slots ≡ ok end)
    × HasSlots end
conversation-HasSlots_example =
    conversation-HasSlots demo_tools two_messages empty_slots (demo-IsMessage, (demo-IsMessage, tt))
      empty-HasSlots
