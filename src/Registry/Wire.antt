-- ===== src/Registry/Wire.antt =====
-- The names of skills on the wire: `_to_bedrock_tool_name` and `_from_bedrock_tool_name` of
-- backend/poseidon/core/llm/bedrock.py, which the registry's check repeats.
use latest_poseidon.Prelude.{
  ℕ, ◌≡◌, ◌≢◌, ◌⊎◌, ◌↔◌, refl, sym, ap, ap₂, ◌∙◌, inl, inr, Bool, true, false, ◌&&◌, [], ◌∷◌, ◌==◌,
  ==_iff, if◌then◌else◌, Bool-cases, arith,
}
use latest_poseidon.AgentLoop.Types.{Text}

-- s == t
unfoldable pub text_eq : Text → Text → Bool
text_eq [] [] = true
text_eq [] (d ∷ t) = false
text_eq (c ∷ s) [] = false
text_eq (c ∷ s) (d ∷ t) = c == d && text_eq s t

and_true : (a b : Bool) → (a && b) ≡ true → (a ≡ true) × (b ≡ true)
and_true true b h = (refl, h)
and_true false b h = absurd (cc h)

cons_head : {c d : ℕ} {s t : Text} → ◌≡◌ {A = Text} (c ∷ s) (d ∷ t) → c ≡ d
cons_head h = cc h

cons_tail : {c d : ℕ} {s t : Text} → ◌≡◌ {A = Text} (c ∷ s) (d ∷ t) → s ≡ t
cons_tail h = cc h

pub text_eq_iff : (s t : Text) → (text_eq s t ≡ true) ↔ (s ≡ t)
unfolding text_eq
text_eq_iff [] [] = (λ h. refl, λ h. refl)
text_eq_iff [] (d ∷ t) = (λ h. absurd (cc h), λ h. absurd (cc h))
text_eq_iff (c ∷ s) [] = (λ h. absurd (cc h), λ h. absurd (cc h))
text_eq_iff (c ∷ s) (d ∷ t) = (
  λ h.
      let (a, b) = and_true (c == d) (text_eq s t) h in
      ap₂ (λ x l. x ∷ l) ((==_iff c d).0 a) ((text_eq_iff s t).0 b),
  λ h. rw ((==_iff c d).1 (cons_head h), (text_eq_iff s t).1 (cons_tail h)),
)

-- skill_id.replace(".", "__")
unfoldable pub to_wire : Text → Text
to_wire [] = []
to_wire (c ∷ t) = let rest = to_wire t in if c == 46 then 95 ∷ 95 ∷ rest else c ∷ rest

-- wire_name.replace("__", ".")
unfoldable pub from_wire : Text → Text
from_wire [] = []
from_wire (c ∷ []) = c ∷ []
from_wire (c ∷ d ∷ t) =
    let replaced = from_wire t in
    let skipped = from_wire (d ∷ t) in if c == 95 && d == 95 then 46 ∷ replaced else c ∷ skipped

-- No underscore stands before an underscore or a dot.
abbrev pub FollowsUnderscore : Text → Type 0
FollowsUnderscore [] = ⊥
FollowsUnderscore (d ∷ t) = (d ≡ 95) ⊎ (d ≡ 46)

abbrev pub IsWireSafe : Text → Type 0
IsWireSafe [] = Unit {0}
IsWireSafe (c ∷ t) = (c ≡ 95 → FollowsUnderscore t → ⊥) × IsWireSafe t

from_wire-plain : (c : ℕ) (t : Text) → (c == 95) ≡ false → from_wire (c ∷ t) ≡ c ∷ from_wire t
unfolding from_wire
from_wire-plain c [] h = refl
from_wire-plain c (d ∷ t) h = rw h

from_wire-dot : (t : Text) → from_wire (95 ∷ 95 ∷ t) ≡ 46 ∷ from_wire t
unfolding from_wire
from_wire-dot t = refl

from_wire-under :
    (d : ℕ) (t : Text) → (d == 95) ≡ false → from_wire (95 ∷ d ∷ t) ≡ 95 ∷ from_wire (d ∷ t)
unfolding from_wire
from_wire-under d t h = rw h

to_wire-dot : (t : Text) → to_wire (46 ∷ t) ≡ 95 ∷ 95 ∷ to_wire t
unfolding to_wire
to_wire-dot t = refl

to_wire-other : (c : ℕ) (t : Text) → (c == 46) ≡ false → to_wire (c ∷ t) ≡ c ∷ to_wire t
unfolding to_wire
to_wire-other c t h = rw h

ne_test : (c d : ℕ) → c ≢ d → (c == d) ≡ false
ne_test c d h = ground (arith, h)

-- Behind an underscore that nothing critical follows, the wire name goes on as it does alone.
under-to_wire :
    (t : Text) → (FollowsUnderscore t → ⊥) → from_wire (95 ∷ to_wire t) ≡ 95 ∷ from_wire (to_wire t)
under-to_wire [] h = unfold from_wire to_wire in refl
under-to_wire (d ∷ t) h =
    let dot : (d == 46) ≡ false = ne_test d 46 (λ e. h (inr e)) in
    let under : (d == 95) ≡ false = ne_test d 95 (λ e. h (inl e)) in
    rw (to_wire-other d t dot) (from_wire-under d (to_wire t) under)

-- Where one follows, it is taken for a dot.
under-to_wire_dot :
    (t : Text) → FollowsUnderscore t → (r : Text) × (from_wire (95 ∷ to_wire t) ≡ 46 ∷ r)
under-to_wire_dot [] h = elim h [ ]
under-to_wire_dot (d ∷ t) (inl e) =
    (from_wire (to_wire t), rw (e, to_wire-other 95 t refl) (from_wire-dot (to_wire t)))
under-to_wire_dot (d ∷ t) (inr e) =
    (from_wire (95 ∷ to_wire t), rw (e, to_wire-dot t) (from_wire-dot (95 ∷ to_wire t)))

safe-round_trip : (id : Text) → IsWireSafe id → from_wire (to_wire id) ≡ id
safe-round_trip [] h = unfold from_wire to_wire in refl
safe-round_trip (c ∷ t) h = elim (Bool-cases (c == 46)) [
  | inl dot ↦
      (let e = (==_iff c 46).0 dot in
        rw (e, to_wire-dot t, from_wire-dot (to_wire t)) (ap (λ l. 46 ∷ l) (safe-round_trip t h.1)))
  | inr other ↦ elim (Bool-cases (c == 95)) [
    | inl under ↦
        (let e = (==_iff c 95).0 under in
          rw (to_wire-other c t other, e, under-to_wire t (h.0 e))
            (ap (λ l. 95 ∷ l) (safe-round_trip t h.1)))
    | inr plain ↦
        rw (to_wire-other c t other, from_wire-plain c (to_wire t) plain)
          (ap (λ l. c ∷ l) (safe-round_trip t h.1))
  ]
]

not_critical : (t : Text) → from_wire (95 ∷ to_wire t) ≡ 95 ∷ t → FollowsUnderscore t → ⊥
not_critical t k f =
    let (r, d) = under-to_wire_dot t f in absurd (omega (arith, cons_head (sym d ∙ k)))

round_trip-safe : (id : Text) → from_wire (to_wire id) ≡ id → IsWireSafe id
round_trip-safe [] h = tt
round_trip-safe (c ∷ t) h = elim (Bool-cases (c == 46)) [
  | inl dot ↦
      (let e = (==_iff c 46).0 dot in
        let k = rw (e, to_wire-dot t, from_wire-dot (to_wire t)) at h in
        (λ u f. absurd (omega (arith, e, u)), round_trip-safe t (cons_tail k)))
  | inr other ↦ elim (Bool-cases (c == 95)) [
    | inl under ↦
        (let e = (==_iff c 95).0 under in
          let k : from_wire (95 ∷ to_wire t) ≡ 95 ∷ t = rw (to_wire-other c t other, e) at h in
          let critical = not_critical t k in
          (λ u f. critical f, round_trip-safe t (cons_tail (sym (under-to_wire t critical) ∙ k))))
    | inr plain ↦
        (let k = rw (to_wire-other c t other, from_wire-plain c (to_wire t) plain) at h in
          (λ u f. absurd (cc ((==_iff c 95).1 u, plain)), round_trip-safe t (cons_tail k)))
  ]
]

-- The wire name of a skill id is read back as that id exactly if no underscore of the id stands before
-- an underscore or a dot. So an id without two underscores in a row can fail too: one with an
-- underscore before its dot.
pub round_trip_iff : (id : Text) → (from_wire (to_wire id) ≡ id) ↔ IsWireSafe id
round_trip_iff id = (round_trip-safe id, safe-round_trip id)
