-- ===== src/Registry/Names.antt =====
-- What discovery guarantees of the skills that it registers.
use latest_poseidon.Prelude.{
  not-true, ◌≤◌, ◌≡◌, refl, sym, subst, ap, ◌∙◌, inl, inr, Bool, true, false, not, Option, none,
  some, List, [], ◌∷◌, ◌++◌, All, All-append, All-weaken, length, leb, leb→le, ok, >>=-eq-ok,
  ok-injective, Bool-cases,
}
use latest_poseidon.AgentLoop.Types.{Text}
use latest_poseidon.Registry.{
  RegisteredSkill, SkillDir, TaskDir, Manifest, DefinitionError, require, found, is_blank,
  no_import, no_args, no_meta, no_description, long_description, wrong_examples, duplicate_id,
  max_description_chars, internal_value, run_of, register, find_skill, is_new, skill_id_of,
  register_all, skill_dirs, task_dirs, is_enabled, register_if, register_tasks, max_wire_name,
  colliding, no_collision, check_wire_names, check_round_trips, skill_ids, discover, long_wire_name,
  no_round_trip,
}
use latest_poseidon.Registry.Wire.{text_eq, text_eq_iff, to_wire, from_wire}

-- A skill whose description the router can show: not blank, and within the cap.
pub record IsDescribed (s : RegisteredSkill) : Type 0 where
  pub stated : is_blank s.description ≡ false
  pub short : length s.description ≤ max_description_chars

-- A skill that stands under its id, and is described.
abbrev pub IsFound : List RegisteredSkill → RegisteredSkill → Type 0
IsFound skills s = (find_skill s.skill_id skills ≡ some s) × IsDescribed s

require-true : (b : Bool) (e : DefinitionError) {u : Unit {0}} → require b e ≡ ok u → b ≡ true
require-true true e h = refl
require-true false e h = absurd (cc h)

register-IsDescribed :
    (dir : SkillDir) (id : Text) {s : RegisteredSkill}
    → register dir id ≡ ok s
    → (s.skill_id ≡ id) × IsDescribed s
unfolding register
register-IsDescribed dir id {s} h =
    let (schema, _, h1) = >>=-eq-ok (found dir.schema (no_import id)) _ h in
    let (skill, _, h2) = >>=-eq-ok (found dir.skill (no_import id)) _ h1 in
    let (args_model, _, h3) = >>=-eq-ok (found schema.args_model (no_args id)) _ h2 in
    let (meta, _, h4) = >>=-eq-ok (found schema.skill_meta (no_meta id)) _ h3 in
    let (description, _, h5) = >>=-eq-ok (found meta.description (no_description id)) _ h4 in
    let (_, stated, h6) =
      >>=-eq-ok (require (not (is_blank description)) (no_description id)) _ h5 in
    let (_, short, h7) =
      >>=-eq-ok (require (leb (length description) max_description_chars) (long_description id)) _
        h6 in
    let (examples, _, h8) = >>=-eq-ok (found meta.examples (wrong_examples id)) _ h7 in
    let (internal, _, h9) = >>=-eq-ok (internal_value meta.internal id) _ h8 in
    let (fn, _, h10) = >>=-eq-ok (run_of skill id) _ h9 in
    let e = ok-injective h10 in
    (
      sym (ap (λ x. x.skill_id) e),
      subst IsDescribed e (record {
        stated = not-true _ (require-true _ (no_description id) stated);
        short = leb→le _ _ (require-true _ (long_description id) short);
      }),
    )

find_skill-append :
    (id : Text) (xs ys : List RegisteredSkill) {s : RegisteredSkill}
    → find_skill id xs ≡ some s
    → find_skill id (xs ++ ys) ≡ some s
unfolding find_skill
find_skill-append id [] ys h = absurd (cc h)
find_skill-append id (x ∷ xs) ys h = elim (Bool-cases (text_eq x.skill_id id)) [
  | inl t ↦ rw t (rw t at h)
  | inr f ↦ rw f (find_skill-append id xs ys (rw f at h))
]

find_skill-last :
    (xs : List RegisteredSkill) (s : RegisteredSkill)
    → find_skill s.skill_id xs ≡ none
    → find_skill s.skill_id (xs ++ s ∷ []) ≡ some s
unfolding find_skill
find_skill-last [] s h = rw ((text_eq_iff s.skill_id s.skill_id).1 refl)
find_skill-last (x ∷ xs) s h = elim (Bool-cases (text_eq x.skill_id s.skill_id)) [
  | inl t ↦ absurd (cc (rw t at h))
  | inr f ↦ rw f (find_skill-last xs s (rw f at h))
]

is_new-none : (o : Option RegisteredSkill) → is_new o ≡ true → o ≡ none
is_new-none none h = refl
is_new-none (some s) h = absurd (cc h)

-- The skills that are registered so far.
abbrev IsRegistered : List RegisteredSkill → Type 0
IsRegistered skills = All (IsFound skills) skills

push-IsRegistered :
    (skills : List RegisteredSkill) (s : RegisteredSkill)
    → IsRegistered skills
    → find_skill s.skill_id skills ≡ none
    → IsDescribed s
    → IsRegistered (skills ++ s ∷ [])
push-IsRegistered skills s r n d =
    All-append (IsFound (skills ++ s ∷ [])) skills (s ∷ [])
      (All-weaken _ _ skills (λ x (f, e). (find_skill-append x.skill_id skills (s ∷ []) f, e)) r)
      ((find_skill-last skills s n, d), tt)

register_all-IsRegistered :
    (task : Text) (dirs : List SkillDir) (skills : List RegisteredSkill)
    {out : List RegisteredSkill}
    → IsRegistered skills
    → register_all task dirs skills ≡ ok out
    → IsRegistered out
unfolding register_all
register_all-IsRegistered task [] skills r h = subst IsRegistered (ok-injective h) r
register_all-IsRegistered task (dir ∷ dirs) skills r h =
    let id = skill_id_of task dir.name in
    let (_, new, h1) = >>=-eq-ok (require (is_new (find_skill id skills)) (duplicate_id id)) _ h in
    let (s, e, h2) = >>=-eq-ok (register dir id) _ h1 in
    let (same, described) = register-IsDescribed dir id e in
    let missing = is_new-none (find_skill id skills) (require-true _ (duplicate_id id) new) in
    register_all-IsRegistered task dirs (skills ++ s ∷ [])
      (push-IsRegistered skills s r (ap (λ i. find_skill i skills) same ∙ missing) described) h2

register_if-IsRegistered :
    (enabled : Bool) (task : Text) (dirs : List SkillDir) (skills : List RegisteredSkill)
    {out : List RegisteredSkill}
    → IsRegistered skills
    → register_if enabled task dirs skills ≡ ok out
    → IsRegistered out
register_if-IsRegistered true task dirs skills r h = register_all-IsRegistered task dirs skills r h
register_if-IsRegistered false task dirs skills r h = subst IsRegistered (ok-injective h) r

register_tasks-IsRegistered :
    (tasks : List (Text × TaskDir × Manifest)) (skills : List RegisteredSkill)
    {out : List RegisteredSkill}
    → IsRegistered skills
    → register_tasks tasks skills ≡ ok out
    → IsRegistered out
unfolding register_tasks
register_tasks-IsRegistered [] skills r h = subst IsRegistered (ok-injective h) r
register_tasks-IsRegistered ((name, dir, manifest) ∷ tasks) skills r h =
    let (enabled, _, h1) = >>=-eq-ok (is_enabled manifest name) _ h in
    let (registered, e, h2) = >>=-eq-ok (register_if enabled name (skill_dirs dir) skills) _ h1 in
    register_tasks-IsRegistered tasks registered
      (register_if-IsRegistered enabled name (skill_dirs dir) skills r e) h2

check_wire_names-fits :
    (seen ids : List Text) {u : Unit {0}}
    → check_wire_names seen ids ≡ ok u
    → All (λ id. length (to_wire id) ≤ max_wire_name) ids
unfolding check_wire_names
check_wire_names-fits seen [] h = tt
check_wire_names-fits seen (id ∷ ids) h =
    let (_, fits, h1) =
      >>=-eq-ok (require (leb (length (to_wire id)) max_wire_name) (long_wire_name id)) _ h in
    let (_, _, h2) = >>=-eq-ok (no_collision (colliding (to_wire id) seen) id) _ h1 in
    (leb→le _ _ (require-true _ (long_wire_name id) fits), check_wire_names-fits (id ∷ seen) ids h2)

check_round_trips-All :
    (ids : List Text) {u : Unit {0}}
    → check_round_trips ids ≡ ok u
    → All (λ id. from_wire (to_wire id) ≡ id) ids
unfolding check_round_trips
check_round_trips-All [] h = tt
check_round_trips-All (id ∷ ids) h =
    let (_, same, h1) =
      >>=-eq-ok (require (text_eq (from_wire (to_wire id)) id) (no_round_trip id)) _ h in
    ((text_eq_iff _ id).0 (require-true _ (no_round_trip id) same), check_round_trips-All ids h1)

-- A skill that a provider's name leads back to.
pub record IsReachable (skills : List RegisteredSkill) (s : RegisteredSkill) : Type 0 where
  pub round_trip : from_wire (to_wire s.skill_id) ≡ s.skill_id
  pub fits : length (to_wire s.skill_id) ≤ max_wire_name
  pub dispatches : find_skill (from_wire (to_wire s.skill_id)) skills ≡ some s
  pub described : IsDescribed s

reachable :
    (skills : List RegisteredSkill) (xs : List RegisteredSkill)
    → All (IsFound skills) xs
    → All (λ id. from_wire (to_wire id) ≡ id) (skill_ids xs)
    → All (λ id. length (to_wire id) ≤ max_wire_name) (skill_ids xs)
    → All (IsReachable skills) xs
reachable skills [] f r l = tt
reachable skills (s ∷ xs) f r l = (
  record {
    round_trip = r.0;
    fits = l.0;
    dispatches = ap (λ id. find_skill id skills) r.0 ∙ f.0.0;
    described = f.0.1;
  },
  reachable skills xs f.1 r.1 l.1,
)

-- If discovery returns, every skill that it registers, internal ones too, has a wire name of at most 64
-- characters, which is read back as its id and finds this very skill and no other; and its description
-- is not blank and has at most 300 characters.
pub discover-IsReachable :
    (roots : List (List TaskDir)) {skills : List RegisteredSkill}
    → discover roots ≡ ok skills
    → All (IsReachable skills) skills
unfolding discover
discover-IsReachable roots {skills} h =
    let (found_skills, e, h1) = >>=-eq-ok (register_tasks (task_dirs roots) []) _ h in
    let (_, wire, h2) = >>=-eq-ok (check_wire_names [] (skill_ids found_skills)) _ h1 in
    let (_, trips, h3) = >>=-eq-ok (check_round_trips (skill_ids found_skills)) _ h2 in
    subst (λ l. All (IsReachable l) l) (ok-injective h3)
      (reachable found_skills found_skills (register_tasks-IsRegistered (task_dirs roots) [] tt e)
        (check_round_trips-All (skill_ids found_skills) trips)
        (check_wire_names-fits [] (skill_ids found_skills) wire))
