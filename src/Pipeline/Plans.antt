-- ===== src/Pipeline/Plans.antt =====
-- backend/poseidon/core/parsing/pipeline.py: the plans for the port and the customer of a message.
-- What `re` finds in the normalized text is a `Reading`.
use latest_poseidon.Prelude.{
  ℕ, String, Bool, true, false, not, ◌||◌, Option, none, some, List, [], ◌∷◌, if◌then◌else◌,
}
use latest_poseidon.Slots.{ConversationSlots, Update, unset, set_to}
use latest_poseidon.Resolver.{TextTools, ResolvedEntity, Issue, resolve}
use latest_poseidon.Periods.Parser.{Match, PeriodRange, ParseIssue}

abbrev pub Span : Type 0
Span = ℕ × ℕ

-- `_Detected`; a carried customer has no span in the message.
pub record Detected : Type 0 where
  pub phrase : String
  pub span : Option Span

-- A `_Detected` of the port step, which always has a span.
pub record Captured : Type 0 where
  pub phrase : String
  pub span : Span

-- "port of", "at" and "in"
pub data Cue : Type 0 where
  cue_port_of cue_at cue_in : Cue

-- `_PortCandidate`: its options are the full phrase and, of a lowercase capture, its prefixes.
pub record PortCandidate : Type 0 where
  pub cue : Cue
  pub cue_start : ℕ
  pub capitalised : Bool
  pub full : Captured
  pub shorter : List Captured

-- An issue of a turn: of a name, with its kind and the words the user typed; of the periods; of a
-- slice with no dimension, with its phrase.
pub data TurnIssue : Type 0 where
  name_issue : String → String → Issue → TurnIssue
  period_issue : ParseIssue → TurnIssue
  dimension_unspecified : String → TurnIssue

-- `_SlotPlan`
pub record SlotPlan : Type 0 where
  pub entity : Option ResolvedEntity
  pub mask_span : Option Span
  pub issue : Option TurnIssue
  pub slot_update : Update String

-- What the patterns find: the two clearing phrases, the port cues with their phrases, a quoted span,
-- the first customer cue outside a span, a slice phrase and whether "by" and a word occur, which
-- phrases read as periods, and the period phrases of the text once some spans are blanked, on the
-- left side and, of a comparison, on the right.
pub record Reading : Type 0 where
  pub clears_port : Bool
  pub clears_customer : Bool
  pub port_candidates : List PortCandidate
  pub quoted : Option Captured
  pub cued : Option Span → Option Captured
  pub slice : Option String
  pub has_by : Bool
  pub is_period_like : String → Bool
  pub sides : List Span → List Match × Option (List Match)

-- What the data client lists.
pub record Pools : Type 0 where
  pub customers : List String
  pub ports : List String
  pub available : PeriodRange

abbrev pub is_some {ℓ} : {A : Type ℓ} → Option A → Bool
is_some none = false
is_some (some a) = true

abbrev pub is_empty {ℓ} : {A : Type ℓ} → List A → Bool
is_empty [] = true
is_empty (x ∷ xs) = false

abbrev pub is_cue_in : Cue → Bool
is_cue_in cue_in = true
is_cue_in _ = false

abbrev pub is_cue_port_of : Cue → Bool
is_cue_port_of cue_port_of = true
is_cue_port_of _ = false

-- A plan that leaves the slot alone.
abbrev pub keep_slot : Option TurnIssue → SlotPlan
keep_slot issue = record { entity = none; mask_span = none; issue = issue; slot_update = unset }

-- A plan that applies an entity.
abbrev pub apply_entity : ResolvedEntity → Option Span → SlotPlan
apply_entity entity span = record {
  entity = some entity;
  mask_span = span;
  issue = none;
  slot_update = set_to (some entity.value);
}

abbrev pub clear_slot : SlotPlan
clear_slot = record { entity = none; mask_span = none; issue = none; slot_update = set_to none }

abbrev pub name_issue? : String → String → Option Issue → Option TurnIssue
name_issue? kind phrase none = none
name_issue? kind phrase (some i) = some (name_issue kind phrase i)

-- The end of `_plan_resolution`, from the resolution. The kind of its issue stays "customer".
abbrev pub plan_entity : Detected → Option ResolvedEntity → Option Issue → SlotPlan
plan_entity detected (some entity) issue = apply_entity entity detected.span
plan_entity detected none issue = keep_slot (name_issue? "customer" detected.phrase issue)

-- The option with its entity, or what the other options give.
abbrev pub resolved_or :
    Captured
    → Option ResolvedEntity
    → Option (Captured × ResolvedEntity)
    → Option (Captured × ResolvedEntity)
resolved_or option (some entity) rest = some (option, entity)
resolved_or option none rest = rest

-- A claim, or what the other candidates give.
abbrev pub claim_or :
    Option (SlotPlan × Option Span) → SlotPlan × Option Span → SlotPlan × Option Span
claim_or (some p) rest = p
claim_or none rest = rest

-- What a candidate claims whose option resolves.
abbrev pub resolved_claim :
    PortCandidate
    → Option (Captured × ResolvedEntity)
    → Option (SlotPlan × Option Span)
    → Option (SlotPlan × Option Span)
resolved_claim candidate (some (option, entity)) missed =
    some (apply_entity entity (some option.span), some (candidate.cue_start, option.span.1))
resolved_claim candidate none missed = missed

-- What a candidate claims that does not resolve: its full phrase's issue, if it is kept.
abbrev pub issue_claim : PortCandidate → Option Issue → Bool → Option (SlotPlan × Option Span)
issue_claim candidate none keeps = none
issue_claim candidate (some issue) false = none
issue_claim candidate (some issue) true = some (
  keep_slot (some (name_issue "port" candidate.full.phrase issue)),
  some (candidate.cue_start, candidate.full.span.1),
)

module _ (t : TextTools) where
  -- `_plan_resolution`
  unfoldable pub plan_resolution : Option Detected → Bool → List String → String → SlotPlan
  plan_resolution detected true values kind = clear_slot
  plan_resolution none false values kind = keep_slot none
  plan_resolution (some d) false values kind =
      let resolution = resolve t d.phrase values kind true in
      plan_entity d resolution.entity resolution.issue

  -- `_is_customer_like`
  unfoldable pub is_customer_like : String → List String → Bool
  is_customer_like phrase customers =
      let resolution = resolve t phrase customers "customer" true in
      is_some resolution.entity || not (is_empty resolution.candidates)

  -- `_keeps_port_issue`
  unfoldable pub keeps_port_issue : (String → Bool) → PortCandidate → Bool → List String → Bool
  keeps_port_issue is_period_like candidate candidates_found customers =
      if candidates_found || is_cue_port_of candidate.cue
      then true
      else if not candidate.capitalised
      then false
      else if is_period_like candidate.full.phrase
      then false
      else not (is_customer_like candidate.full.phrase customers)

  -- Whether a fuzzy match of the candidate is only a question.
  unfoldable pub is_strict : PortCandidate → Bool
  is_strict candidate = is_cue_in candidate.cue || not candidate.capitalised

  -- The first option that resolves.
  unfoldable pub first_resolved :
      Bool → List String → List Captured → Option (Captured × ResolvedEntity)
  first_resolved strict ports [] = none
  first_resolved strict ports (option ∷ options) =
      resolved_or option (resolve t option.phrase ports "port" (not strict)).entity
        (first_resolved strict ports options)

  -- One round of the loop of `_plan_port`: the decision of a candidate that is a claim.
  unfoldable pub claim :
      (String → Bool) → PortCandidate → List String → List String → Option (SlotPlan × Option Span)
  claim is_period_like candidate ports customers =
      let strict = is_strict candidate in
      let full_result = resolve t candidate.full.phrase ports "port" (not strict) in
      let keeps =
        keeps_port_issue is_period_like candidate (not (is_empty full_result.candidates))
          customers in
      resolved_claim candidate (first_resolved strict ports (candidate.full ∷ candidate.shorter))
        (issue_claim candidate full_result.issue keeps)

  -- `_plan_port`
  unfoldable pub plan_port :
      (String → Bool) → List PortCandidate → List String → List String → SlotPlan × Option Span
  plan_port is_period_like [] ports customers = (keep_slot none, none)
  plan_port is_period_like (candidate ∷ candidates) ports customers =
      claim_or (claim is_period_like candidate ports customers)
        (plan_port is_period_like candidates ports customers)

abbrev pub as_detected : Captured → Detected
as_detected c = record { phrase = c.phrase; span = some c.span }

abbrev pub carried_customer : Option String → Option Detected
carried_customer none = none
carried_customer (some name) = some (record { phrase = name; span = none })

-- `_detect_customer`
unfoldable pub detect_customer : Reading → Option Span → ConversationSlots → Option Detected
detect_customer r exclude slots = elim r.quoted [
  | some c ↦ some (as_detected c)
  | none ↦ elim (r.cued exclude) [
    | some c ↦ some (as_detected c)
    | none ↦ carried_customer slots.customer
  ]
]
