-- ===== src/Pipeline/Memory.antt =====
-- The periods that a conversation remembers: what a turn reports is what the next turns read back, and
-- no turn of a conversation raises.
use latest_poseidon.Prelude.{
  ◌≡◌, refl, sym, subst, ℕ, Bool, true, false, Option, none, some, List, [], ◌∷◌, All, Result, ok,
  ◌>>=◌, >>=-eq-ok, ok-injective, arith,
}
use latest_poseidon.Calendar.{Date, Error}
use latest_poseidon.Slots.{ConversationSlots, Update, unset, set_to, carried, apply_carry}
use latest_poseidon.Resolver.{TextTools}
use latest_poseidon.Periods.Windows.{PeriodWindow, Resolved, slot_window, window_kind}
use latest_poseidon.Periods.Windows.Slots.{slot_window-window}
use latest_poseidon.Periods.Parser.{
  Match, PeriodRange, Source, text, carry, absent, PeriodParse, parse_periods, or_carry,
  carried_window, window_of,
}
use latest_poseidon.Periods.Parser.Resolves.{IsReference}
use latest_poseidon.Periods.Parser.Total.{
  AreMatches, AreMatches?, HasSlots, IsSlot, IsLast, IsStorable, parse_periods-Parses,
}
use latest_poseidon.Periods.Parser.Sources.{Agrees, parse_periods-Agrees, parse_periods-Stages}
use latest_poseidon.Pipeline.Plans.{Reading, Pools, SlotPlan, TurnIssue}
use latest_poseidon.Pipeline.Turns.{
  ParsedTurn, period_a_update, period_b_update, window_bounds, replace, write_back, parsed_turn,
  parse_turn,
}

-- A message that the parser can be given: period phrases as the pattern lets them through, a
-- reference date with room on both sides, and a last available date with a day after it.
pub record IsMessage (r : Reading) (pools : Pools) (reference : Date) : Type 0 where
  pub left_matches : (spans : List (ℕ × ℕ)) → AreMatches (r.sides spans).0
  pub right_matches : (spans : List (ℕ × ℕ)) → AreMatches? (r.sides spans).1
  pub is_reference : IsReference reference
  pub is_last : IsLast pools.available.end

-- A slot and its end read back as a window, or are empty where there is none.
abbrev pub ReadsBack : Option PeriodWindow → Option Date → Option Date → Type 0
ReadsBack none start end = start ≡ none
ReadsBack (some w) none end = ⊥
ReadsBack (some w) (some start) end = slot_window start end ≡ ok w

-- The same of the window that a turn reports, if it reports one.
abbrev pub ReadsBack? : Option PeriodWindow → Option Date → Option Date → Type 0
ReadsBack? none start end = Unit
ReadsBack? (some w) start end = ReadsBack (some w) start end

-- An update of a period slot that returns, and what the slot then is.
record Stores (P : Option Date → Option Date → Type 0) (start end : Option Date)
    (r : Result Error (Update Date × Update Date)) : Type 0 where
  found : Update Date × Update Date
  returns : r ≡ ok found
  then : P (carried start found.0) (carried end found.1)

-- A slot that the next turn can read, as the window.
abbrev Holds :
    ℕ
    → (Option PeriodWindow → Option Date → Option Date → Type 0)
    → Option PeriodWindow
    → Option Date
    → Option Date
    → Type 0
Holds first Reads w start end = IsSlot first start end × Reads w start end

replace-Stores :
    (first : ℕ) (w : PeriodWindow) (start end : Option Date)
    → IsStorable first (some w)
    → Stores
        (Holds first ReadsBack (some w))
        start
        end
        (window_bounds (some w) >>= λ b. ok (replace b))
unfolding carried
replace-Stores first w start end (v, late, early) = record {
  found = replace (w.start, w.end);
  returns = refl;
  then = ((v.start_date, late, early, v.end_date), slot_window-window w v);
}

-- A carried window is the one that its slot reads back as.
or_carry-ReadsBack :
    (o : Option Resolved) (may : Bool) (start end : Option Date) {x : Option Resolved}
    → or_carry o may start end ≡ ok (x, carry)
    → ReadsBack (window_of x) start end
unfolding or_carry carried_window
or_carry-ReadsBack o true (some d) end {x} h =
    let (r, hr, e) = >>=-eq-ok (carried_window d end) _ h in
    let (w, hw, e2) = >>=-eq-ok (slot_window d end) _ hr in
    let (k, _, e3) = >>=-eq-ok (window_kind w) _ e2 in
    let same : some (record { window = w; kind = k }) ≡ x = cc (ok-injective e3, e) in
    subst (λ y. ReadsBack (window_of y) (some d) end) same hw
or_carry-ReadsBack none true none end h = ground (arith, h)
or_carry-ReadsBack (some r) true none end h = ground (arith, h)
or_carry-ReadsBack none false start end h = ground (arith, h)
or_carry-ReadsBack (some r) false start end h = ground (arith, h)

ReadsBack-weaken :
    (w : Option PeriodWindow) (start end : Option Date)
    → ReadsBack w start end
    → ReadsBack? w start end
ReadsBack-weaken none start end h = tt
ReadsBack-weaken (some w) start end h = h

module _ (start end : Option Date) where
  period_a_update-Stores :
      (s : Source) (w : Option PeriodWindow)
      → Agrees w s
      → IsStorable 2 w
      → IsSlot 2 start end
      → (s ≡ carry → ReadsBack w start end)
      → Stores (Holds 2 ReadsBack? w) start end (period_a_update s w)
  unfolding period_a_update carried
  period_a_update-Stores text none a st sl h = absurd (cc (a.0 refl))
  period_a_update-Stores text (some w) a st sl h = replace-Stores 2 w start end st
  period_a_update-Stores carry w a st sl h = record {
    found = (unset, unset);
    returns = refl;
    then = (sl, ReadsBack-weaken w start end (h refl));
  }
  period_a_update-Stores absent w a st sl h = record {
    found = (unset, unset);
    returns = refl;
    then = (sl, subst (λ x. ReadsBack? x start end) (sym (a.1 refl)) tt);
  }

  period_b_update-Stores :
      (s : Source) (w : Option PeriodWindow)
      → Agrees w s
      → IsStorable 1 w
      → IsSlot 1 start end
      → (s ≡ carry → ReadsBack w start end)
      → Stores (Holds 1 ReadsBack w) start end (period_b_update s w)
  unfolding period_b_update carried
  period_b_update-Stores text none a st sl h = absurd (cc (a.0 refl))
  period_b_update-Stores text (some w) a st sl h = replace-Stores 1 w start end st
  period_b_update-Stores carry w a st sl h = record {
    found = (unset, unset);
    returns = refl;
    then = (sl, h refl);
  }
  period_b_update-Stores absent w a st sl h = record {
    found = (set_to none, set_to none);
    returns = refl;
    then = (tt, subst (λ x. ReadsBack x none none) (sym (a.1 refl)) refl);
  }

-- A turn that returns, and what the next turn finds.
pub record Remembers (r : Result Error ParsedTurn) : Type 0 where
  pub turn : ParsedTurn
  pub returns : r ≡ ok turn
  pub has_slots : HasSlots turn.slots
  pub reads_a : ReadsBack? turn.period_a turn.slots.period_a turn.slots.period_a_end
  pub reads_b : ReadsBack turn.period_b turn.slots.period_b turn.slots.period_b_end

write_back-Remembers :
    (slots : ConversationSlots) (customer port : SlotPlan) (slice : Option TurnIssue)
    (p : PeriodParse)
    → Stores
        (Holds 2 ReadsBack? p.period_a)
        slots.period_a
        slots.period_a_end
        (period_a_update p.a_source p.period_a)
    → Stores
        (Holds 1 ReadsBack p.period_b)
        slots.period_b
        slots.period_b_end
        (period_b_update p.b_source p.period_b)
    → Remembers (write_back slots customer port slice p)
unfolding write_back parsed_turn apply_carry
write_back-Remembers slots customer port slice p a b = record {
  turn = parsed_turn slots customer port slice p a.found b.found;
  returns = rw (a.returns, b.returns);
  has_slots = record { slot_a = a.then.0; slot_b = b.then.0 };
  reads_a = a.then.1;
  reads_b = b.then.1;
}

carried_by :
    {c : Result Error (Option Resolved × Source)} {x : Option Resolved} {y : Source}
    → y ≡ carry
    → c ≡ ok (x, y)
    → c ≡ ok (x, carry)
carried_by {c} {x} e h = subst (λ z. c ≡ ok (x, z)) e h

-- What the parse leaves, written back.
parsed-Remembers :
    (left : List Match) (right : Option (List Match)) (slots : ConversationSlots) (d : Date)
    (available : PeriodRange) (customer port : SlotPlan) (slice : Option TurnIssue)
    → AreMatches left
    → AreMatches? right
    → HasSlots slots
    → IsReference d
    → IsLast available.end
    → Remembers
        (parse_periods left right slots d available >>= λ p. write_back slots customer port slice p)
parsed-Remembers left right slots d available customer port slice hl hr h hd ha =
    let q = parse_periods-Parses left right slots d available hl hr h hd ha in
    let s = parse_periods-Stages left right slots d available q.returns in
    let g = parse_periods-Agrees left right slots d available q.returns in
    rw q.returns (
      write_back-Remembers slots customer port slice q.found
        (period_a_update-Stores slots.period_a slots.period_a_end q.found.a_source q.found.period_a
          g.0 q.storable_a h.slot_a
          (λ e. rw s.window_a (or_carry-ReadsBack _ _ _ _ (carried_by e s.a_is))))
        (period_b_update-Stores slots.period_b slots.period_b_end q.found.b_source q.found.period_b
          g.1 q.storable_b h.slot_b
          (λ e. rw s.window_b (or_carry-ReadsBack _ _ _ _ (carried_by e s.b_is)))))

-- A turn on any message never raises, whatever it names, and the conversation remembers what the turn
-- reports: the window of each period is what the next turn reads back from the slots, where no second
-- period is reported none is stored, and the slots are again such that the next turn does not raise.
pub parse_turn-Remembers :
    (t : TextTools) (r : Reading) (pools : Pools) (slots : ConversationSlots) (reference : Date)
    → IsMessage r pools reference
    → HasSlots slots
    → Remembers (parse_turn t r pools slots reference)
unfolding parse_turn
parse_turn-Remembers t r pools slots reference m h =
    parsed-Remembers _ _ slots reference pools.available _ _ _ (m.left_matches _)
      (m.right_matches _) h m.is_reference m.is_last

-- The messages of a conversation in turn, each against the slots that the one before it left.
unfoldable pub conversation :
    TextTools → List (Reading × (Pools × Date)) → ConversationSlots → Result Error ConversationSlots
conversation t [] slots = ok slots
conversation t ((r, (pools, reference)) ∷ messages) slots =
    parse_turn t r pools slots reference >>= λ turn. conversation t messages turn.slots

-- A conversation of any length on such messages, from slots that a turn can read, never raises, and
-- ends with slots that one more turn can read.
pub conversation-HasSlots :
    (t : TextTools) (messages : List (Reading × (Pools × Date))) (slots : ConversationSlots)
    → All (λ m. IsMessage m.0 m.1.0 m.1.1) messages
    → HasSlots slots
    → (end : ConversationSlots) × (conversation t messages slots ≡ ok end) × HasSlots end
unfolding conversation
conversation-HasSlots t [] slots a h = (slots, refl, h)
conversation-HasSlots t ((r, (pools, reference)) ∷ messages) slots a h =
    let m = parse_turn-Remembers t r pools slots reference a.0 h in
    let (end, e, k) = conversation-HasSlots t messages m.turn.slots a.1 m.has_slots in
    (end, rw m.returns e, k)
