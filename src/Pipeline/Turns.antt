-- ===== src/Pipeline/Turns.antt =====
-- backend/poseidon/core/parsing/pipeline.py: `parse_turn`, which masks the phrases that the plans use,
-- parses the periods of the rest, and writes the outcome back into the slots.
use latest_poseidon.Prelude.{
  String, Bool, Option, none, some, List, [], ◌∷◌, Result, ok, err, ◌>>=◌, if◌then◌else◌,
}
use latest_poseidon.Slots.{ConversationSlots, Update, unset, set_to, apply_carry}
use latest_poseidon.Resolver.{TextTools, ResolvedEntity}
use latest_poseidon.Periods.Windows.{PeriodWindow}
use latest_poseidon.Periods.Parser.{
  ParseIssue, Source, text, carry, absent, PeriodParse, parse_periods,
}
use latest_poseidon.Calendar.{Date, Error, attribute_error}
use latest_poseidon.Pipeline.Plans.{
  Span, Reading, Pools, SlotPlan, TurnIssue, period_issue, dimension_unspecified, clear_slot,
  plan_resolution, plan_port, detect_customer,
}

-- `ParsedTurn`, without the hints.
pub record ParsedTurn : Type 0 where
  pub slots : ConversationSlots
  pub period_a : Option PeriodWindow
  pub period_b : Option PeriodWindow
  pub customer : Option ResolvedEntity
  pub port : Option ResolvedEntity
  pub issues : List TurnIssue

-- `_plan_slice`
unfoldable pub plan_slice : Option String → Bool → Option TurnIssue
plan_slice none has_by = none
plan_slice (some phrase) has_by = if has_by then none else some (dimension_unspecified phrase)

-- `(issue for issue in (...) if issue is not None)`
abbrev pub present {ℓ} : {A : Type ℓ} → List (Option A) → List A
present [] = []
present (none ∷ xs) = present xs
present (some x ∷ xs) = x ∷ present xs

-- `window.start` and `window.end` of a window that may be `None`.
abbrev pub window_bounds : Option PeriodWindow → Result Error (Date × Date)
window_bounds none = err attribute_error
window_bounds (some w) = ok (w.start, w.end)

abbrev pub replace : Date × Date → Update Date × Update Date
replace (start, end) = (set_to (some start), set_to (some end))

-- The write-back of the first period: its start and end if the text names it.
unfoldable pub period_a_update :
    Source → Option PeriodWindow → Result Error (Update Date × Update Date)
period_a_update text w = do b ← window_bounds w; ok (replace b)
period_a_update _ w = ok (unset, unset)

-- The write-back of the second one, by its source alone.
unfoldable pub period_b_update :
    Source → Option PeriodWindow → Result Error (Update Date × Update Date)
period_b_update text w = do b ← window_bounds w; ok (replace b)
period_b_update carry w = ok (unset, unset)
period_b_update absent w = ok (set_to none, set_to none)

abbrev pub period_issue? : Option ParseIssue → Option TurnIssue
period_issue? none = none
period_issue? (some i) = some (period_issue i)

-- The turn, once the updates of the two periods are known.
unfoldable pub parsed_turn :
    ConversationSlots
    → SlotPlan
    → SlotPlan
    → Option TurnIssue
    → PeriodParse
    → Update Date × Update Date
    → Update Date × Update Date
    → ParsedTurn
parsed_turn slots customer port slice p a b = record {
  slots = apply_carry slots (record {
    customer = customer.slot_update;
    port = port.slot_update;
    period_a = a.0;
    period_b = b.0;
    period_a_end = a.1;
    period_b_end = b.1;
  });
  period_a = p.period_a;
  period_b = p.period_b;
  customer = customer.entity;
  port = port.entity;
  issues = present (customer.issue ∷ port.issue ∷ period_issue? p.issue ∷ slice ∷ []);
}

-- The end of `parse_turn`: the write-back, and the turn.
unfoldable pub write_back :
    ConversationSlots
    → SlotPlan
    → SlotPlan
    → Option TurnIssue
    → PeriodParse
    → Result Error ParsedTurn
write_back slots customer port slice p = do
  a ← period_a_update p.a_source p.period_a
  b ← period_b_update p.b_source p.period_b
  ok (parsed_turn slots customer port slice p a b)

module _ (t : TextTools) where
  -- The port's plan and the span that the customer's cues must not read.
  unfoldable pub port_plan : Reading → Pools → SlotPlan × Option Span
  port_plan r pools =
      if r.clears_port
      then (clear_slot, none)
      else plan_port t r.is_period_like r.port_candidates pools.ports pools.customers

  unfoldable pub customer_plan : Reading → Pools → ConversationSlots → Option Span → SlotPlan
  customer_plan r pools slots exclude =
      plan_resolution t (if r.clears_customer then none else detect_customer r exclude slots)
        r.clears_customer pools.customers "customer"

  -- `parse_turn`
  unfoldable pub parse_turn : Reading → Pools → ConversationSlots → Date → Result Error ParsedTurn
  parse_turn r pools slots reference =
      let port = port_plan r pools in
      let customer = customer_plan r pools slots port.1 in
      let sides = r.sides (present (customer.mask_span ∷ port.0.mask_span ∷ [])) in
      parse_periods sides.0 sides.1 slots reference pools.available >>= λ p.
      write_back slots customer port.0 (plan_slice r.slice r.has_by) p
