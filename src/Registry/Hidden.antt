-- ===== src/Registry/Hidden.antt =====
-- The registry behind the agent loop: what an internal skill does is out of the model's reach.
use latest_poseidon.Prelude.{
  ℕ, ◌≡◌, ◌≢◌, refl, sym, ap, ap₂, ◌∙◌, inl, inr, Bool, true, false, not, Option, none, some, List,
  [], ◌∷◌, map, codes, Bool-cases, keep, keep-true, keep-false,
}
use latest_poseidon.AgentLoop.Types.{Text, Message}
use latest_poseidon.AgentLoop.Content.{join, or_empty}
use latest_poseidon.AgentLoop.Turn.{World, run_turn}
use latest_poseidon.AgentLoop.Turn.Internal.{with_dispatch, run_turn-internal}
use latest_poseidon.Registry.{
  RegisteredSkill, ArgsModel, Ran, tool_schema, skill_line, tool_schemas, skill_lines_block,
  find_skill, skill_ids, router_skills, registered_names, unknown_skill, dispatched, dispatch,
}
use latest_poseidon.Registry.Wire.{text_eq}

-- Whether a found skill is internal.
abbrev pub internal_of : Option RegisteredSkill → Option Bool
internal_of none = none
internal_of (some s) = some s.internal

-- The world of the loop with the skills of a registry: `prompt` is the system prompt around the lines of
-- its skills.
abbrev pub with_registry : (Text → Text) → World → List RegisteredSkill → World
with_registry prompt w skills = record w {
  system = prompt (skill_lines_block skills);
  tools = tool_schemas skills;
  internal = λ name. internal_of (find_skill (codes name) skills);
  dispatch = λ n name arguments. dispatch skills n (codes name) arguments;
}

abbrev pub map_option :
    (RegisteredSkill → RegisteredSkill) → Option RegisteredSkill → Option RegisteredSkill
map_option h none = none
map_option h (some s) = some (h s)

module _ (f : ℕ → Text → Ran) (g : ArgsModel) (description : Text) where
  abbrev pub replaced : Bool → RegisteredSkill → RegisteredSkill
  replaced true s = record s { fn = f; args_model = g; description = description }
  replaced false s = s

  -- A skill that behaves otherwise and is described otherwise, if it is internal.
  abbrev pub replace_internal : RegisteredSkill → RegisteredSkill
  replace_internal s = replaced s.internal s

  replaced-skill_id : (b : Bool) (s : RegisteredSkill) → (replaced b s).skill_id ≡ s.skill_id
  replaced-skill_id true s = refl
  replaced-skill_id false s = refl

  replaced-internal : (b : Bool) (s : RegisteredSkill) → (replaced b s).internal ≡ s.internal
  replaced-internal true s = refl
  replaced-internal false s = refl

  -- A skill that is not internal stays as it is.
  replaced_same : (b : Bool) (s : RegisteredSkill) → b ≢ true → replaced b s ≡ s
  replaced_same true s h = absurd (h refl)
  replaced_same false s h = refl

  find_skill-replaced :
      (id : Text) (skills : List RegisteredSkill)
      → find_skill id (map replace_internal skills)
        ≡ map_option replace_internal (find_skill id skills)
  unfolding find_skill
  find_skill-replaced id [] = refl
  find_skill-replaced id (s ∷ skills) =
      let same : text_eq (replace_internal s).skill_id id ≡ text_eq s.skill_id id =
        ap (λ i. text_eq i id) (replaced-skill_id s.internal s) in
      elim (Bool-cases (text_eq s.skill_id id)) [
        | inl t ↦ rw (same, t)
        | inr u ↦ rw (same, u) (find_skill-replaced id skills)
      ]

  internal_of-replaced :
      (o : Option RegisteredSkill) → internal_of (map_option replace_internal o) ≡ internal_of o
  internal_of-replaced none = refl
  internal_of-replaced (some s) = ap (λ b. some b) (replaced-internal s.internal s)

  router_skills-replaced :
      (skills : List RegisteredSkill)
      → router_skills (map replace_internal skills) ≡ router_skills skills
  unfolding router_skills
  router_skills-replaced [] = unfold keep in refl
  router_skills-replaced (s ∷ skills) =
      let same : not (replace_internal s).internal ≡ not s.internal =
        ap not (replaced-internal s.internal s) in
      elim (Bool-cases s.internal) [
        | inl t ↦
            keep-false (λ x. not x.internal) (replace_internal s) (map replace_internal skills)
              (same ∙ ap not t)
            ∙ router_skills-replaced skills
            ∙ sym (keep-false (λ x. not x.internal) s skills (ap not t))
        | inr u ↦
            keep-true (λ x. not x.internal) (replace_internal s) (map replace_internal skills)
              (same ∙ ap not u)
            ∙ ap₂ (λ x l. x ∷ l) (replaced_same s.internal s (λ e. cc (e, u)))
                (router_skills-replaced skills)
            ∙ sym (keep-true (λ x. not x.internal) s skills (ap not u))
      ]

  registered_names-replaced :
      (skills : List RegisteredSkill)
      → registered_names (map replace_internal skills) ≡ registered_names skills
  unfolding registered_names
  registered_names-replaced skills =
      ap (λ l. or_empty (join (codes ", ") (skill_ids l))) (router_skills-replaced skills)

  dispatched-replaced :
      (n : ℕ) (skills : List RegisteredSkill) (id args : Text) (o : Option RegisteredSkill)
      → internal_of o ≢ some true
      → dispatched n skills id args o
        ≡ dispatched n (map replace_internal skills) id args (map_option replace_internal o)
  dispatched-replaced n skills id args none h =
      ap (λ names. unknown_skill id names) (sym (registered_names-replaced skills))
  dispatched-replaced n skills id args (some s) h =
      ap (λ x. dispatched n skills id args (some x))
        (sym (replaced_same s.internal s (λ e. h (ap (λ b. some b) e))))

  dispatch-replaced :
      (n : ℕ) (skills : List RegisteredSkill) (id args : Text)
      → internal_of (find_skill id skills) ≢ some true
      → dispatch skills n id args ≡ dispatch (map replace_internal skills) n id args
  unfolding dispatch
  dispatch-replaced n skills id args h =
      dispatched-replaced n skills id args (find_skill id skills) h
      ∙ ap (dispatched n (map replace_internal skills) id args)
          (sym (find_skill-replaced id skills))

  internal-replaced :
      (id : Text) (skills : List RegisteredSkill)
      → internal_of (find_skill id (map replace_internal skills))
        ≡ internal_of (find_skill id skills)
  internal-replaced id skills =
      ap internal_of (find_skill-replaced id skills) ∙ internal_of-replaced (find_skill id skills)

  tool_schemas-replaced :
      (skills : List RegisteredSkill)
      → tool_schemas skills ≡ tool_schemas (map replace_internal skills)
  unfolding tool_schemas
  tool_schemas-replaced skills = ap (λ l. map tool_schema l) (sym (router_skills-replaced skills))

  skill_lines_block-replaced :
      (skills : List RegisteredSkill)
      → skill_lines_block skills ≡ skill_lines_block (map replace_internal skills)
  unfolding skill_lines_block
  skill_lines_block-replaced skills =
      ap (λ l. join (codes "\n") (map skill_line l)) (sym (router_skills-replaced skills))

  with_registry-replaced :
      (prompt : Text → Text) (w : World) (skills : List RegisteredSkill)
      → with_dispatch
          (with_registry prompt w skills)
          (λ n name arguments. dispatch (map replace_internal skills) n (codes name) arguments)
        ≡ with_registry prompt w (map replace_internal skills)
  with_registry-replaced prompt w skills = λ i. record w {
    system = prompt (skill_lines_block-replaced skills i);
    tools = tool_schemas-replaced skills i;
    internal = λ name. sym (internal-replaced (codes name) skills) i;
    dispatch = λ n name arguments. dispatch (map replace_internal skills) n (codes name) arguments;
  }

  -- Over a registry, a turn of the agent loop is the same whatever the internal skills are: with another
  -- `run`, another model of arguments and another description for each of them, every reply, record and
  -- event of the turn is as before, whatever the model makes of the system prompt, the messages and the
  -- tools that it is given. The names and the number of the internal skills stay as they are.
  pub run_turn-replaced :
      (prompt : Text → Text) (w : World) (skills : List RegisteredSkill) (window : List Message)
      (max_iterations : ℕ)
      → run_turn (with_registry prompt w skills) window max_iterations
        ≡ run_turn (with_registry prompt w (map replace_internal skills)) window max_iterations
  run_turn-replaced prompt w skills window max_iterations =
      run_turn-internal (with_registry prompt w skills)
        (λ n name arguments. dispatch (map replace_internal skills) n (codes name) arguments)
        (λ n name arguments h. dispatch-replaced n skills (codes name) arguments h) window
        max_iterations
      ∙ ap (λ v. run_turn v window max_iterations) (with_registry-replaced prompt w skills)
