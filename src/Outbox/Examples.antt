-- ===== src/Outbox/Examples.antt =====
-- The outbox's theorems at a table of two users.
use latest_poseidon.Prelude.{
  keep, ℕ, ◌≡◌, refl, String, Option, some, List, [], ◌∷◌, ok, arith, map,
}
use latest_poseidon.Outbox.{Row, done, rearm, touch, is_idle, claim_idle_conversations, upsert}
use latest_poseidon.Outbox.Rearm.{WorkerStep, to_done, steps, HoldsArmed, touch-survives}
use latest_poseidon.Outbox.Claims.{Claims, claim_idle_conversations-Claims}
use latest_poseidon.Outbox.Retries.{HoldsRetried, failure_at, touch-retries}

abbrev as_id : String → Option String
as_id s = some s

abbrev row_of : String → String → Row
row_of user id = record {
  conversation_id = id;
  user_sub = user;
  last_turn_at = 10;
  status = done;
  attempts = 2;
  last_error = some "timeout";
  updated_at = 20;
}

abbrev demo_table : List Row
demo_table = row_of "ana" "c1" ∷ row_of "ben" "c2" ∷ []

abbrev touched_table : List Row
touched_table = row_of "ana" "c1" ∷ rearm 50 (row_of "ben" "c2") ∷ []

touched : touch as_id "ben" "c2" 50 demo_table ≡ ok touched_table
unfolding touch upsert
touched = refl

-- The worker finishes the turn of time 10 after the touch at time 50.
abbrev late_worker : WorkerStep
late_worker = record {
  user = "ben";
  conversation = "c2";
  claimed = 10;
  now = 60;
  transition = to_done;
}

touch-survives_example : HoldsArmed "ben" "c2" 50 (steps as_id (late_worker ∷ []) touched_table)
touch-survives_example =
    touch-survives as_id "ben" "c2" 50 demo_table (late_worker ∷ []) refl touched
      ((λ e. absurd (omega (arith, e))), tt)

abbrev two_failures : List (String × ℕ)
two_failures = ("timeout", 60) ∷ ("bad json", 70) ∷ []

touch-retries_example :
    HoldsRetried "ben" "c2" 50 5 2
      (steps as_id (map (failure_at "ben" "c2" 50 5) two_failures) touched_table)
touch-retries_example =
    touch-retries as_id "ben" "c2" 50 5 demo_table two_failures (omega arith) refl touched

claim_idle_conversations-Claims_example :
    Claims 1
      (keep (is_idle 1000000000 15) touched_table)
      (claim_idle_conversations 1000000000 15 1 touched_table)
claim_idle_conversations-Claims_example =
    claim_idle_conversations-Claims 1000000000 15 1 touched_table
