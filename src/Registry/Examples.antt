-- ===== src/Registry/Examples.antt =====
-- A small tree of tasks, and the registry's theorems at it.
use latest_poseidon.Prelude.{
  ℕ, ◌≡◌, ◌↔◌, refl, Bool, true, false, none, some, List, [], ◌∷◌, ◌++◌, All, map, codes, codes_le,
  Result, ok, err, sort_by, insert_by, keep,
}
use latest_poseidon.AgentLoop.Types.{Text, SkillResult, LlmResponse, given}
use latest_poseidon.AgentLoop.Content.{is_space}
use latest_poseidon.AgentLoop.Turn.{World, run_turn}
use latest_poseidon.Registry.{
  ArgsModel, boolean, mapping, accepted, rejected, returned, raised, Ran, function, SkillDir,
  TaskDir, RegisteredSkill, DefinitionError, no_round_trip, wrong_arity, register, register_all,
  register_tasks, is_enabled, skill_dirs, tasks_of, tasks_of_roots, task_dirs, find_skill,
  colliding, check_wire_names, check_round_trips, discover,
}
use latest_poseidon.Registry.Wire.{text_eq, to_wire, from_wire, IsWireSafe, round_trip_iff}
use latest_poseidon.Registry.Names.{IsReachable, discover-IsReachable}
use latest_poseidon.Registry.Hidden.{with_registry, replace_internal, run_turn-replaced}

abbrev answer : SkillResult
answer = record { succeeded = true; parts = []; proof = []; error = none }

abbrev skill_dir : Text → Bool → ℕ → SkillDir
skill_dir name internal arity = record {
  name = name;
  has_schema = true;
  schema = some (record {
    args_model = some (record { validate = λ raw. accepted raw; json_schema = codes "{}" });
    skill_meta = some (record {
      description = some (codes "Volumes of a port");
      examples = some [];
      internal = some (boolean internal);
    });
  });
  skill = some (function arity (λ n args. returned answer));
}

-- Two tasks, the second of which is not enabled, and a directory without a manifest.
abbrev tree : Text → ℕ → List (List TaskDir)
tree task arity =
    (record {
      name = task;
      manifest = some (mapping none none);
      skills = skill_dir (codes "query") false arity ∷ skill_dir (codes "compile") true 2 ∷ [];
    }
      ∷ record {
        name = codes "draft";
        manifest = some (mapping none (some (boolean false)));
        skills = skill_dir (codes "query") false 3 ∷ [];
      }
      ∷ record { name = codes "_shared"; manifest = none; skills = [] }
      ∷ [])
    ∷ []

-- The skills of a registry that is discovered.
abbrev skills_of : Result DefinitionError (List RegisteredSkill) → List RegisteredSkill
skills_of (ok skills) = skills
skills_of (err e) = []

abbrev skills : List RegisteredSkill
skills = skills_of (discover (tree (codes "qa") 2))

discovered : discover (tree (codes "qa") 2) ≡ ok skills
unfolding discover register_tasks register_all register is_enabled skill_dirs tasks_of
    tasks_of_roots task_dirs find_skill colliding check_wire_names check_round_trips text_eq to_wire
    from_wire sort_by insert_by codes_le keep is_space
discovered = refl

-- The directory `qa_` gives an id with no two underscores in a row that is not read back.
not_read_back : discover (tree (codes "qa_") 2) ≡ err (no_round_trip (codes "qa_.compile"))
unfolding discover register_tasks register_all register is_enabled skill_dirs tasks_of
    tasks_of_roots task_dirs find_skill colliding check_wire_names check_round_trips text_eq to_wire
    from_wire sort_by insert_by codes_le keep is_space
not_read_back = refl

three_parameters : discover (tree (codes "qa") 3) ≡ err (wrong_arity (codes "qa.query"))
unfolding discover register_tasks register_all register is_enabled skill_dirs tasks_of
    tasks_of_roots task_dirs find_skill text_eq sort_by insert_by codes_le keep is_space
three_parameters = refl

discover-IsReachable_example : All (IsReachable skills) skills
discover-IsReachable_example = discover-IsReachable (tree (codes "qa") 2) discovered

round_trip_iff_example :
    (from_wire (to_wire (codes "qa_.query")) ≡ codes "qa_.query") ↔ IsWireSafe (codes "qa_.query")
round_trip_iff_example = round_trip_iff (codes "qa_.query")

-- A model that says what it is told of itself and calls the internal skill.
abbrev reply : Text → LlmResponse
reply system = record {
  text = system;
  tool_calls = record { id = "t1"; name = "qa.compile"; arguments = [] } ∷ [];
  stop_reason = "tool_use";
  input_tokens = 5;
  output_tokens = 1;
  reasoning = [];
}

abbrev loop_world : World
loop_world = record {
  provider = "stub";
  model = "m";
  system = [];
  tools = [];
  invoke = λ n system messages tools. reply system;
  internal = λ name. none;
  dispatch = λ n name arguments. answer;
  duration = λ n. 0;
}

abbrev broken : ℕ → Text → Ran
broken n args = raised (codes "secret")

abbrev strict : ArgsModel
strict = record { validate = λ raw. rejected (codes "secret"); json_schema = codes "secret" }

-- The system prompt around the lines of the skills.
abbrev prompt : Text → Text
prompt lines = codes "You route: " ++ lines

run_turn-replaced_example :
    run_turn (with_registry prompt loop_world skills) (given (codes "hi") ∷ []) 3
    ≡ run_turn
        (with_registry prompt loop_world
          (map (replace_internal broken strict (codes "secret")) skills))
        (given (codes "hi") ∷ [])
        3
run_turn-replaced_example =
    run_turn-replaced broken strict (codes "secret") prompt loop_world skills
      (given (codes "hi") ∷ []) 3
