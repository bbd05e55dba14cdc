-- ===== src/Registry.antt =====
-- backend/poseidon/core/skills/registry.py: what discovery makes of the tree of tasks, and dispatch.
-- Names and ids are texts.
pub mod Wire
pub mod Names
pub mod Hidden
pub mod Examples
use latest_poseidon.Prelude.{
  ℕ, suc, ◌+◌, String, Bool, true, false, ◌&&◌, ◌||◌, not, Option, none, some, List, [], ◌∷◌, ◌++◌,
  map, length, codes, codes_le, Result, ok, err, ◌>>=◌, ◌>>◌, leb, ltb, ◌==◌, if◌then◌else◌,
  sort_by, keep,
}
use latest_poseidon.AgentLoop.Types.{Text, SkillResult, Problem, ToolSchema}
use latest_poseidon.AgentLoop.Content.{join, or_empty, is_space}
use latest_poseidon.Registry.Wire.{text_eq, to_wire, from_wire}

-- A value of a manifest or of SKILL_META: a text, a Boolean, or another one.
pub data Value : Type 0 where
  string : Text → Value
  boolean : Bool → Value
  object : Value

-- `task.yml` as it is read; an empty file is an empty mapping. Of a mapping, `id` and `enabled`, where
-- `id: null` counts as no id.
pub data Manifest : Type 0 where
  no_yaml no_mapping : Manifest
  mapping : Option Value → Option Value → Manifest

-- What the arguments of a call are to the `Args` model: accepted as a value, rejected with the reasons
-- that `_explain` joins, or an exception of a validator.
pub data Validated : Type 0 where
  accepted : Text → Validated
  rejected : Text → Validated
  crashed : Text → Validated

-- What `run` does: a result, a value of another type, whose name it has, or an exception.
pub data Ran : Type 0 where
  returned : SkillResult → Ran
  returned_other : Text → Ran
  raised : Text → Ran

-- SKILL_META. `description` if it is a text, `examples` if they are a list of texts, and `internal` if
-- it is given.
pub record Meta : Type 0 where
  pub description : Option Text
  pub examples : Option (List Text)
  pub internal : Option Value

-- The `Args` model: its validation, and its JSON schema as text.
pub record ArgsModel : Type 0 where
  pub validate : Text → Validated
  pub json_schema : Text

-- schema.py: the Args model, if it is one, and SKILL_META, if it is a dict.
pub record Schema : Type 0 where
  pub args_model : Option ArgsModel
  pub skill_meta : Option Meta

-- `run` of skill.py: nothing that can be called, a function whose signature cannot be read, or one with
-- a number of positional parameters.
pub data Run : Type 0 where
  not_callable not_inspectable : Run
  function : ℕ → (ℕ → Text → Ran) → Run

-- A directory under skills/; the modules are there if they can be imported.
pub record SkillDir : Type 0 where
  pub name : Text
  pub has_schema : Bool
  pub schema : Option Schema
  pub skill : Option Run

-- A directory of a root of the package; a directory without skills/ holds no skill.
pub record TaskDir : Type 0 where
  pub name : Text
  pub manifest : Option Manifest
  pub skills : List SkillDir

-- `RegisteredSkill`; `fn` also takes the number of the call, since a skill may answer otherwise later.
pub record RegisteredSkill : Type 0 where
  pub skill_id : Text
  pub args_model : ArgsModel
  pub fn : ℕ → Text → Ran
  pub description : Text
  pub examples : List Text
  pub internal : Bool

-- `SkillDefinitionError`, for its reasons.
pub data DefinitionError : Type 0 where
  invalid_yaml invalid_manifest wrong_id wrong_enabled : Text → DefinitionError
  duplicate_id no_import no_args no_meta no_description long_description wrong_examples
        wrong_internal no_run no_signature wrong_arity :
      Text → DefinitionError
  long_wire_name no_round_trip : Text → DefinitionError
  collision : Text → Text → DefinitionError

abbrev pub require : Bool → DefinitionError → Result DefinitionError (Unit {0})
require true e = ok tt
require false e = err e

-- declared_id is not None and declared_id != task_name
abbrev pub is_wrong_id : Option Value → Text → Bool
is_wrong_id none task = false
is_wrong_id (some (string t)) task = not (text_eq t task)
is_wrong_id (some other) task = true

abbrev pub enabled_value : Option Value → Text → Result DefinitionError Bool
enabled_value none task = ok true
enabled_value (some (boolean b)) task = ok b
enabled_value (some other) task = err (wrong_enabled task)

-- `_is_enabled`
unfoldable pub is_enabled : Manifest → Text → Result DefinitionError Bool
is_enabled no_yaml task = err (invalid_yaml task)
is_enabled no_mapping task = err (invalid_manifest task)
is_enabled (mapping id enabled) task =
    require (not (is_wrong_id id task)) (wrong_id task) >> enabled_value enabled task

abbrev pub found {ℓ} : {A : Type ℓ} → Option A → DefinitionError → Result DefinitionError A
found none e = err e
found (some a) e = ok a

abbrev pub is_blank : Text → Bool
is_blank [] = true
is_blank (c ∷ t) = is_space c && is_blank t

abbrev pub internal_value : Option Value → Text → Result DefinitionError Bool
internal_value none id = ok false
internal_value (some (boolean b)) id = ok b
internal_value (some other) id = err (wrong_internal id)

-- `_check_run_arity`, of a `run` that can be called.
abbrev pub run_of : Run → Text → Result DefinitionError (ℕ → Text → Ran)
run_of not_callable id = err (no_run id)
run_of not_inspectable id = err (no_signature id)
run_of (function arity f) id = require (arity == 2) (wrong_arity id) >> ok f

abbrev pub max_description_chars : ℕ
max_description_chars = 300

-- `_register`
unfoldable pub register : SkillDir → Text → Result DefinitionError RegisteredSkill
register dir id = do
  schema ← found dir.schema (no_import id)
  skill ← found dir.skill (no_import id)
  args_model ← found schema.args_model (no_args id)
  meta ← found schema.skill_meta (no_meta id)
  description ← found meta.description (no_description id)
  stated ← require (not (is_blank description)) (no_description id)
  short ← require (leb (length description) max_description_chars) (long_description id)
  examples ← found meta.examples (wrong_examples id)
  internal ← internal_value meta.internal id
  fn ← run_of skill id
  ok (record {
    skill_id = id;
    args_model = args_model;
    fn = fn;
    description = description;
    examples = examples;
    internal = internal;
  })

-- self._skills.get(skill_id)
unfoldable pub find_skill : Text → List RegisteredSkill → Option RegisteredSkill
find_skill id [] = none
find_skill id (s ∷ skills) =
    let rest = find_skill id skills in if text_eq s.skill_id id then some s else rest

-- Not yet a key of the dict.
abbrev pub is_new : Option RegisteredSkill → Bool
is_new none = true
is_new (some s) = false

abbrev pub skill_id_of : Text → Text → Text
skill_id_of task skill = task ++ 46 ∷ skill

-- The skills of a task, added to the dict.
unfoldable pub register_all :
    Text → List SkillDir → List RegisteredSkill → Result DefinitionError (List RegisteredSkill)
register_all task [] skills = ok skills
register_all task (dir ∷ dirs) skills = do
  unclaimed ←
      require (is_new (find_skill (skill_id_of task dir.name) skills))
        (duplicate_id (skill_id_of task dir.name))
  s ← register dir (skill_id_of task dir.name)
  register_all task dirs (skills ++ s ∷ [])

abbrev pub by_skill_name : SkillDir → SkillDir → Bool
by_skill_name d e = codes_le d.name e.name

-- `_skill_dirs`
unfoldable pub skill_dirs : TaskDir → List SkillDir
skill_dirs task = sort_by by_skill_name (keep (λ d. d.has_schema) task.skills)

abbrev pub by_task_name : Text × TaskDir × Manifest → Text × TaskDir × Manifest → Bool
by_task_name d e = codes_le d.0 e.0

-- The directories with a manifest.
unfoldable pub tasks_of : List TaskDir → List (Text × TaskDir × Manifest)
tasks_of [] = []
tasks_of (d ∷ dirs) = elim d.manifest [
  | none ↦ tasks_of dirs
  | some m ↦ (d.name, d, m) ∷ tasks_of dirs
]

unfoldable pub tasks_of_roots : List (List TaskDir) → List (Text × TaskDir × Manifest)
tasks_of_roots [] = []
tasks_of_roots (root ∷ roots) = sort_by by_task_name (tasks_of root) ++ tasks_of_roots roots

-- `_task_dirs`, of the roots of the package.
unfoldable pub task_dirs : List (List TaskDir) → List (Text × TaskDir × Manifest)
task_dirs roots = sort_by by_task_name (tasks_of_roots roots)

abbrev pub register_if :
    Bool
    → Text
    → List SkillDir
    → List RegisteredSkill
    → Result DefinitionError (List RegisteredSkill)
register_if true task dirs skills = register_all task dirs skills
register_if false task dirs skills = ok skills

-- The loop of `discover` over the tasks.
unfoldable pub register_tasks :
    List (Text × TaskDir × Manifest)
    → List RegisteredSkill
    → Result DefinitionError (List RegisteredSkill)
register_tasks [] skills = ok skills
register_tasks ((name, dir, manifest) ∷ tasks) skills = do
  enabled ← is_enabled manifest name
  registered ← register_if enabled name (skill_dirs dir) skills
  register_tasks tasks registered

abbrev pub max_wire_name : ℕ
max_wire_name = 64

-- mapped_to_skill_id.get(mapped)
unfoldable pub colliding : Text → List Text → Option Text
colliding wire [] = none
colliding wire (id ∷ ids) =
    let rest = colliding wire ids in if text_eq (to_wire id) wire then some id else rest

abbrev pub no_collision : Option Text → Text → Result DefinitionError (Unit {0})
no_collision none id = ok tt
no_collision (some other) id = err (collision other id)

-- The first loop of `_check_bedrock_safe_names`, after the ids that it has seen.
unfoldable pub check_wire_names : List Text → List Text → Result DefinitionError (Unit {0})
check_wire_names seen [] = ok tt
check_wire_names seen (id ∷ ids) =
    require (leb (length (to_wire id)) max_wire_name) (long_wire_name id)
    >> (no_collision (colliding (to_wire id) seen) id >> check_wire_names (id ∷ seen) ids)

-- Its second loop.
unfoldable pub check_round_trips : List Text → Result DefinitionError (Unit {0})
check_round_trips [] = ok tt
check_round_trips (id ∷ ids) =
    require (text_eq (from_wire (to_wire id)) id) (no_round_trip id) >> check_round_trips ids

-- `skill_ids`
abbrev pub skill_ids : List RegisteredSkill → List Text
skill_ids skills = map (λ s. s.skill_id) skills

-- `discover`, of a package that can be imported and has directories.
unfoldable pub discover : List (List TaskDir) → Result DefinitionError (List RegisteredSkill)
discover roots = do
  skills ← register_tasks (task_dirs roots) []
  fit ← check_wire_names [] (skill_ids skills)
  safe ← check_round_trips (skill_ids skills)
  ok skills

-- The skills that the router may choose: `router_skill_ids` are their ids.
unfoldable pub router_skills : List RegisteredSkill → List RegisteredSkill
router_skills skills = keep (λ s. not s.internal) skills

-- `RegisteredSkill.tool_schema`
abbrev pub tool_schema : RegisteredSkill → ToolSchema
tool_schema s = record {
  name = s.skill_id;
  description = s.description;
  input_schema = s.args_model.json_schema;
}

-- `tool_schemas`
unfoldable pub tool_schemas : List RegisteredSkill → List ToolSchema
unfolding router_skills
tool_schemas skills = map tool_schema (router_skills skills)

abbrev pub skill_line : RegisteredSkill → Text
skill_line s = s.skill_id ++ (codes ": " ++ s.description)

-- `skill_lines_block` of backend/poseidon/core/llm/prompts.py
unfoldable pub skill_lines_block : List RegisteredSkill → Text
unfolding router_skills
skill_lines_block skills = join (codes "\n") (map skill_line (router_skills skills))

-- `_registered_names`
unfoldable pub registered_names : List RegisteredSkill → Text
unfolding router_skills
registered_names skills = or_empty (join (codes ", ") (skill_ids (router_skills skills)))

abbrev pub failure : ℕ → String → Text → SkillResult
failure status title detail = record {
  succeeded = false;
  parts = [];
  proof = [];
  error = some (record { status = status; title = title; detail = detail });
}

-- What `dispatch` makes of a run.
abbrev pub ran : Text → Ran → SkillResult
ran id (returned r) = r
ran id (returned_other name) =
    failure 500 "skill failure"
      (codes "'" ++ (id ++ (codes "' returned " ++ (name ++ codes ", not a SkillResult"))))
ran id (raised e) = failure 500 "skill failure" e

-- And of the arguments.
abbrev pub validated : ℕ → RegisteredSkill → Text → Validated → SkillResult
validated n s id (accepted args) = ran id (s.fn n args)
validated n s id (rejected why) = failure 422 "invalid arguments" why
validated n s id (crashed e) =
    failure 500 "skill failure"
      (codes "validating arguments for '" ++ (id ++ (codes "' raised " ++ e)))

-- The problem of an id that is not registered, with the names that may be chosen.
abbrev pub unknown_skill : Text → Text → SkillResult
unknown_skill id names =
    failure 404 "unknown skill"
      (codes "no skill is registered as '" ++ (id ++ (codes "'; registered: " ++ names)))

abbrev pub dispatched :
    ℕ → List RegisteredSkill → Text → Text → Option RegisteredSkill → SkillResult
dispatched n skills id raw_args none = unknown_skill id (registered_names skills)
dispatched n skills id raw_args (some s) = validated n s id (s.args_model.validate raw_args)

-- `dispatch`
unfoldable pub dispatch : List RegisteredSkill → ℕ → Text → Text → SkillResult
dispatch skills n id raw_args = dispatched n skills id raw_args (find_skill id skills)
