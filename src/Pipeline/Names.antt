-- ===== src/Pipeline/Names.antt =====
-- What a turn does to the customer and the port of its conversation.
use latest_poseidon.Prelude.{
  ◌≡◌, refl, subst, String, Bool, true, false, not, Option, none, some, List, [], ◌∷◌, ok, Memᴰ,
  Bool-cases, inl, inr, if◌then◌else◌, >>=-eq-ok, ok-injective,
}
use latest_poseidon.Calendar.{Date}
use latest_poseidon.Slots.{ConversationSlots, carried, apply_carry}
use latest_poseidon.Resolver.{TextTools, ResolvedEntity, Issue, resolve}
use latest_poseidon.Resolver.Sound.{Answers, resolve-IsAnswer}
use latest_poseidon.Periods.Parser.{parse_periods}
use latest_poseidon.Pipeline.Plans.{
  Span, Reading, Pools, SlotPlan, TurnIssue, Detected, name_issue, name_issue?, Captured,
  PortCandidate, apply_entity, keep_slot, clear_slot, plan_entity, plan_resolution, plan_port,
  first_resolved, resolved_or, resolved_claim, issue_claim, claim_or, claim,
}
use latest_poseidon.Pipeline.Turns.{
  ParsedTurn, port_plan, customer_plan, parse_turn, write_back, parsed_turn, period_a_update,
  period_b_update,
}

-- A slot after a turn: the certified value of the entity, or nothing if the message clears it, or what
-- it was.
abbrev pub Writes :
    Bool → List String → Option String → Option ResolvedEntity → Option String → Type 0
Writes clears values prior (some e) slot =
    (clears ≡ false) × Memᴰ e.value values × (slot ≡ some e.value)
Writes clears values prior none slot = slot ≡ (if clears then none else prior)

abbrev PlanWrites : Bool → List String → SlotPlan → Type 0
PlanWrites clears values plan =
    (prior : Option String)
    → Writes clears values prior plan.entity (carried prior plan.slot_update)

clear_slot-PlanWrites : (values : List String) → PlanWrites true values clear_slot
unfolding carried
clear_slot-PlanWrites values prior = refl

keep_slot-PlanWrites :
    (values : List String) (i : Option TurnIssue) → PlanWrites false values (keep_slot i)
unfolding carried
keep_slot-PlanWrites values i prior = refl

apply_entity-PlanWrites :
    (values : List String) (e : ResolvedEntity) (span : Option Span)
    → Memᴰ e.value values
    → PlanWrites false values (apply_entity e span)
unfolding carried
apply_entity-PlanWrites values e span m prior = (refl, m, refl)

module _ (t : TextTools) where
  Answers-Mem :
      (phrase : String) (values : List String) (kind : String) (auto? : Bool) (e : ResolvedEntity)
      (cs : List String) (i : Option Issue)
      → Answers t phrase values kind auto? (some e) cs i
      → Memᴰ e.value values
  Answers-Mem phrase values kind auto? e cs none h = h.1
  Answers-Mem phrase values kind auto? e cs (some i) h = absurd h

  -- An entity of a resolution is a certified value.
  entity-Mem :
      (phrase : String) (values : List String) (kind : String) (auto? : Bool) (e : ResolvedEntity)
      → (resolve t phrase values kind auto?).entity ≡ some e
      → Memᴰ e.value values
  entity-Mem phrase values kind auto? e h =
      let r = resolve t phrase values kind auto? in
      Answers-Mem phrase values kind auto? e r.candidates r.issue (
        subst (λ o. Answers t phrase values kind auto? o r.candidates r.issue) h
          (resolve-IsAnswer t phrase values kind auto?))

  plan_entity-PlanWrites :
      (d : Detected) (values : List String) (o : Option ResolvedEntity) (i : Option Issue)
      → ((e : ResolvedEntity) → o ≡ some e → Memᴰ e.value values)
      → PlanWrites false values (plan_entity d o i)
  plan_entity-PlanWrites d values (some e) i h = apply_entity-PlanWrites values e d.span (h e refl)
  plan_entity-PlanWrites d values none i h =
      keep_slot-PlanWrites values (name_issue? "customer" d.phrase i)

  plan_resolution-PlanWrites :
      (d : Option Detected) (clears : Bool) (values : List String) (kind : String)
      → PlanWrites clears values (plan_resolution t d clears values kind)
  unfolding plan_resolution
  plan_resolution-PlanWrites d true values kind = clear_slot-PlanWrites values
  plan_resolution-PlanWrites none false values kind = keep_slot-PlanWrites values none
  plan_resolution-PlanWrites (some d) false values kind =
      plan_entity-PlanWrites d values _ _ (entity-Mem d.phrase values kind true)

  -- An entity found among the options, if any, is a certified value.
  FoundIn : List String → Option (Captured × ResolvedEntity) → Type 0
  FoundIn values none = Unit
  FoundIn values (some (c, e)) = Memᴰ e.value values

  resolved_or-FoundIn :
      (values : List String) (c : Captured) (o : Option ResolvedEntity)
      (rest : Option (Captured × ResolvedEntity))
      → ((e : ResolvedEntity) → o ≡ some e → Memᴰ e.value values)
      → FoundIn values rest
      → FoundIn values (resolved_or c o rest)
  unfolding FoundIn
  resolved_or-FoundIn values c (some e) rest h k = h e refl
  resolved_or-FoundIn values c none rest h k = k

  first_resolved-FoundIn :
      (strict : Bool) (ports : List String) (options : List Captured)
      → FoundIn ports (first_resolved t strict ports options)
  unfolding first_resolved FoundIn
  first_resolved-FoundIn strict ports [] = tt
  first_resolved-FoundIn strict ports (option ∷ options) =
      resolved_or-FoundIn ports option _ _ (entity-Mem option.phrase ports "port" (not strict))
        (first_resolved-FoundIn strict ports options)

  -- A claim, if it is one, writes the port as a turn may that does not clear it.
  ClaimWrites : List String → Option (SlotPlan × Option Span) → Type 0
  ClaimWrites values none = Unit
  ClaimWrites values (some (plan, span)) = PlanWrites false values plan

  issue_claim-ClaimWrites :
      (values : List String) (candidate : PortCandidate) (i : Option Issue) (keeps : Bool)
      → ClaimWrites values (issue_claim candidate i keeps)
  unfolding ClaimWrites
  issue_claim-ClaimWrites values candidate none keeps = tt
  issue_claim-ClaimWrites values candidate (some i) false = tt
  issue_claim-ClaimWrites values candidate (some i) true =
      keep_slot-PlanWrites values (some (name_issue "port" candidate.full.phrase i))

  resolved_claim-ClaimWrites :
      (values : List String) (candidate : PortCandidate) (o : Option (Captured × ResolvedEntity))
      (missed : Option (SlotPlan × Option Span))
      → FoundIn values o
      → ClaimWrites values missed
      → ClaimWrites values (resolved_claim candidate o missed)
  unfolding ClaimWrites FoundIn
  resolved_claim-ClaimWrites values candidate (some (c, e)) missed h k =
      apply_entity-PlanWrites values e (some c.span) h
  resolved_claim-ClaimWrites values candidate none missed h k = k

  claim_or-PlanWrites :
      (values : List String) (o : Option (SlotPlan × Option Span)) (rest : SlotPlan × Option Span)
      → ClaimWrites values o
      → PlanWrites false values rest.0
      → PlanWrites false values (claim_or o rest).0
  unfolding ClaimWrites
  claim_or-PlanWrites values (some p) rest h k = h
  claim_or-PlanWrites values none rest h k = k

  plan_port-PlanWrites :
      (is_period_like : String → Bool) (candidates : List PortCandidate)
      (ports customers : List String)
      → PlanWrites false ports (plan_port t is_period_like candidates ports customers).0
  unfolding plan_port claim
  plan_port-PlanWrites is_period_like [] ports customers = keep_slot-PlanWrites ports none
  plan_port-PlanWrites is_period_like (candidate ∷ candidates) ports customers =
      claim_or-PlanWrites ports _ _
        (resolved_claim-ClaimWrites ports candidate _ _
          (first_resolved-FoundIn _ ports (candidate.full ∷ candidate.shorter))
          (issue_claim-ClaimWrites ports candidate _ _))
        (plan_port-PlanWrites is_period_like candidates ports customers)

  port_plan-PlanWrites :
      (r : Reading) (pools : Pools) → PlanWrites r.clears_port pools.ports (port_plan t r pools).0
  unfolding port_plan
  port_plan-PlanWrites r pools = elim (Bool-cases r.clears_port) [
    | inl c ↦ rw c (clear_slot-PlanWrites pools.ports)
    | inr k ↦
        rw k (plan_port-PlanWrites r.is_period_like r.port_candidates pools.ports pools.customers)
  ]

-- The outcome of a turn for the two names.
pub record NamesWritten (r : Reading) (pools : Pools) (slots : ConversationSlots)
    (turn : ParsedTurn) : Type 0 where
  pub customer_written :
      Writes r.clears_customer pools.customers slots.customer turn.customer turn.slots.customer
  pub port_written : Writes r.clears_port pools.ports slots.port turn.port turn.slots.port

-- A turn that returns writes each of its two name slots in one of three ways: with the certified value
-- of the entity that it reports, where the message does not clear the slot; with nothing, where the
-- message clears it, and then no entity is reported; or with the value it had, where no entity is
-- reported, so that a name that does not resolve never resets or replaces the slot.
pub parse_turn-NamesWritten :
    (t : TextTools) (r : Reading) (pools : Pools) (slots : ConversationSlots) (reference : Date)
    {turn : ParsedTurn}
    → parse_turn t r pools slots reference ≡ ok turn
    → NamesWritten r pools slots turn
unfolding parse_turn customer_plan write_back parsed_turn apply_carry
parse_turn-NamesWritten t r pools slots reference {turn} h =
    let port = port_plan t r pools in
    let (p, _, h1) = >>=-eq-ok (parse_periods _ _ slots reference pools.available) _ h in
    let (a, _, h2) = >>=-eq-ok (period_a_update p.a_source p.period_a) _ h1 in
    let (b, _, h3) = >>=-eq-ok (period_b_update p.b_source p.period_b) _ h2 in
    subst (NamesWritten r pools slots) (ok-injective h3) (record {
      customer_written =
          plan_resolution-PlanWrites t _ r.clears_customer pools.customers "customer" _;
      port_written = port_plan-PlanWrites t r pools _;
    })
