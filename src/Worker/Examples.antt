-- ===== src/Worker/Examples.antt =====
-- A conversation that is distilled at the second attempt, and the worker's theorems at it.
use latest_poseidon.Prelude.{
  ◌≡◌, refl, String, none, some, [], ◌∷◌, ◌++◌, codes, Result, ok, err, arith, keep, sort_by,
  insert_by,
}
use latest_poseidon.AgentLoop.Types.{Text}
use latest_poseidon.AgentLoop.Content.{join, is_space, rstrip}
use latest_poseidon.Memory.{
  text, distiller, get_current, write_version, check_entries, validate_entries, validate_entry,
  render_entry, render_entries_markdown, has_key, insert_version, is_stale, prune, max_version,
  versions_of,
}
use latest_poseidon.Memory.Numbering.{IsMemory}
use latest_poseidon.Outbox.{
  Row, pending, touch, upsert, mark_done, is_claimed, update_where, new_row, set_failure,
  record_failure,
}
use latest_poseidon.Worker.Distill.{
  Item, markdown, part, array, object, render_transcript, render_parts, render_blocks, lstrip,
  strip, parse_entries, parse_elements, parse_element, strip_front, strip_back, original,
  stamp_entries,
}
use latest_poseidon.Worker.{
  Response, Store, World, user_turns, write_drafts, use_answer, attempt, finish, settle,
  distill_row, process_items, process_one, fail,
}
use latest_poseidon.Worker.Spend.{Accounts, cost, process_one-Accounts}
use latest_poseidon.Worker.Provenance.{MemoryAfter, process_one-MemoryAfter}
use latest_poseidon.Worker.Settles.{
  IsQuiet, Processed, stop, claim, SettledWithin, touch-SettledWithin,
}
use latest_poseidon.Outbox.Rearm.{find_row}

abbrev said : Text → Item
said t = record { role = "user"; parts = markdown t ∷ [] }

-- The transcript skips a blank text, and names a part of another kind.
transcript :
    render_transcript (
      said (codes " hello ")
      ∷ record { role = "assistant"; parts = markdown (codes " ") ∷ part (codes "table") ∷ [] }
      ∷ [])
    ≡ codes "user: hello" ++ 10 ∷ 10 ∷ codes "assistant: [table]"
unfolding render_transcript render_parts render_blocks lstrip strip rstrip is_space join
transcript = refl

-- A world in which the model answers so.
abbrev world : Result String Response → World
world answer = record {
  get_messages = λ user id. ok (some (said (codes "volumes?") ∷ said (codes "in euros") ∷ []));
  start_turn = some "t1";
  distill = λ transcript existing. answer;
  fenced = λ t. none;
  loads = λ t. some (array (object (text "preference") (text " Use euros ") ∷ []));
  describe = λ f. "error";
  iso_now = "2025-06-01";
  now = 90;
  parse_uuid = λ id. some id;
  settings = record { memory_max_chars = 4000; memory_keep_versions = 20 };
  memory_max_attempts = 2;
  others_memory = λ table. table;
  others_outbox = λ table. table;
}

abbrev unreachable_model : World
unreachable_model = world (err "timeout")

abbrev usable_answer : World
usable_answer = world (ok (record { text = codes "[...]"; input_tokens = 900; output_tokens = 40 }))

abbrev row : Row
row = record {
  conversation_id = "c1";
  user_sub = "ana";
  last_turn_at = 10;
  status = pending;
  attempts = 0;
  last_error = none;
  updated_at = 10;
}

abbrev store : Store
store = record { memory = []; outbox = row ∷ []; log = [] }

-- The statement is stripped, and attributed to the conversation.
distilled :
    (process_one usable_answer row store).1.memory
    ≡ record {
      user_sub = "ana";
      version = 1;
      entries =
          record {
            kind = text "preference";
            statement = text "Use euros";
            source_conversation_id = text "c1";
            at = text "2025-06-01";
          }
          ∷ [];
      created_by = distiller;
      created_at = 90;
    }
      ∷ []
unfolding process_one process_items distill_row attempt use_answer write_drafts settle finish
    user_turns render_transcript render_parts render_blocks lstrip strip rstrip is_space join
    parse_entries parse_elements parse_element strip_front strip_back original stamp_entries
    write_version check_entries validate_entries validate_entry render_entry render_entries_markdown
    has_key insert_version is_stale prune max_version get_current versions_of keep sort_by insert_by
    mark_done is_claimed update_where
distilled = refl

empty-IsMemory : IsMemory []
unfolding max_version versions_of keep sort_by
empty-IsMemory u = tt

process_one-Accounts_example :
    Accounts [] (process_one usable_answer row store).1.log (cost usable_answer row store)
process_one-Accounts_example = process_one-Accounts usable_answer row store refl

charged : cost usable_answer row store ≡ 940
unfolding user_turns
charged = refl

process_one-MemoryAfter_example :
    MemoryAfter usable_answer row store (process_one usable_answer row store).1.memory
process_one-MemoryAfter_example = process_one-MemoryAfter usable_answer row store empty-IsMemory

world-IsQuiet : (answer : Result String Response) → IsQuiet "c1" 2 (world answer)
world-IsQuiet answer = record {
  reads = λ user id. (_, refl);
  undisturbed = λ table. refl;
  parses = refl;
  same_limit = refl;
}

touched : touch (λ id. some id) "ana" "c1" 10 [] ≡ ok (row ∷ [])
unfolding touch upsert new_row
touched = refl

abbrev failed_row : Row
failed_row = record {
  conversation_id = "c1";
  user_sub = "ana";
  last_turn_at = 10;
  status = pending;
  attempts = 1;
  last_error = some "error";
  updated_at = 90;
}

abbrev failed_store : Store
failed_store = (process_one unreachable_model row store).1

armed : find_row "c1" store.outbox ≡ some row
unfolding find_row
armed = refl

failed_once : find_row "c1" failed_store.outbox ≡ some failed_row
unfolding find_row process_one process_items user_turns distill_row settle attempt fail
    record_failure update_where is_claimed set_failure
failed_once = refl

-- The model cannot be reached, and then answers.
settled :
    Processed "c1"
      (unreachable_model ∷ usable_answer ∷ [])
      store
      (process_one usable_answer failed_row failed_store).1
settled =
    claim unreachable_model (usable_answer ∷ []) store _ row armed refl
      (claim usable_answer [] failed_store _ failed_row failed_once refl (stop _))

touch-SettledWithin_example :
    SettledWithin "c1" 2 2 (process_one usable_answer failed_row failed_store).1.outbox
touch-SettledWithin_example =
    touch-SettledWithin (λ id. some id) "ana" "c1" 10 2
      (record { memory = []; outbox = []; log = [] }) (unreachable_model ∷ usable_answer ∷ [])
      (omega arith) refl touched (world-IsQuiet (err "timeout"), (world-IsQuiet _, tt)) settled
