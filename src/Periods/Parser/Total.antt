-- ===== src/Periods/Parser/Total.antt =====
-- `parse_periods` never raises, and every period it returns is one that later turns can use.
use latest_poseidon.Prelude.{
  ℕ, ◌≤◌, ◌<◌, ◌≡◌, refl, Bool, true, false, not, ◌&&◌, ◌||◌, Option, none, some, List, [], ◌∷◌,
  All, Result, ok, ◌>>=◌, Bool-cases, inl, inr, arith,
}
use latest_poseidon.Calendar.{Date, Error, IsDate, max_year}
use latest_poseidon.Slots.{ConversationSlots}
use latest_poseidon.Periods.Windows.{PeriodWindow, IsWindow, Resolved, shift_back_one_year}
use latest_poseidon.Periods.Windows.Shifts.{
  window_kind-HasKind, shift_back_one_year-ShiftsBack, next_day-returns,
}
use latest_poseidon.Periods.Windows.Slots.{IsEnd, slot_window-Holds, window_kind-returns}
use latest_poseidon.Periods.Parser.{
  Match, SideParse, no_phrase, is_skipped, parse_side, PeriodRange, ParseIssue, no_periods,
  ytd_at_year_start, window_issue, availability_issue, Source, carry, PeriodParse, text_source,
  window_of, carried_window, or_carry, comparison, is_none, find_issue, right_side, parse_periods,
}
use latest_poseidon.Periods.Parser.Resolves.{
  IsPhrase, IsPeriod, IsPeriod?, IsReference, ResolvesTo, resolve-ResolvesTo,
}

abbrev pub AreMatches : List Match → Type 0
AreMatches ms = All (λ m. IsPhrase m.phrase) ms

abbrev pub AreMatches? : Option (List Match) → Type 0
AreMatches? none = Unit
AreMatches? (some ms) = AreMatches ms

pub parse_side-ResolvesTo :
    (ms : List Match) (d : Date) (after : Bool)
    → AreMatches ms
    → IsReference d
    → ResolvesTo (parse_side ms d after)
unfolding parse_side
parse_side-ResolvesTo [] d after h r = record { found = no_phrase; returns = refl; is_period = tt }
parse_side-ResolvesTo (m ∷ ms) d after h r = elim (Bool-cases (is_skipped after m)) [
  | inl t ↦ rw t (parse_side-ResolvesTo ms d after h.1 r)
  | inr f ↦ rw f (resolve-ResolvesTo m.phrase d h.0 r)
]

-- A stored slot: empty, or a date from the year `first` to 9998, with an end that is absent or a date.
abbrev pub IsSlot : ℕ → Option Date → Option Date → Type 0
IsSlot first none end = Unit
IsSlot first (some d) end = IsDate d × (first ≤ d.year) × (d.year < max_year) × IsEnd end

-- The slots that a turn can read: the compared period may stand one year before the others.
pub record HasSlots (s : ConversationSlots) : Type 0 where
  pub slot_a : IsSlot 2 s.period_a s.period_a_end
  pub slot_b : IsSlot 1 s.period_b s.period_b_end

-- The newest date present leaves room for the day after it.
abbrev pub IsLast : Option Date → Type 0
IsLast none = Unit
IsLast (some d) = IsDate d × (d.year < max_year)

IsPeriod?-weaken : (o : Option Resolved) → IsPeriod? 2 o → IsPeriod? 1 o
IsPeriod?-weaken none h = tt
IsPeriod?-weaken (some r) h = record {
  valid = h.valid;
  anchor = h.anchor;
  late = omega (arith, h.late);
  early = h.early;
}

-- A computation that returns a period, or none.
pub record GivesPeriod (first : ℕ) (r : Result Error (Option Resolved)) : Type 0 where
  pub found : Option Resolved
  pub returns : r ≡ ok found
  pub is_period : IsPeriod? first found

pub record Carries (first : ℕ) (r : Result Error Resolved) : Type 0 where
  pub found : Resolved
  pub returns : r ≡ ok found
  pub is_period : IsPeriod first found

carried_window-Carries :
    (first : ℕ) (d : Date) (end : Option Date)
    → IsSlot first (some d) end
    → Carries first (carried_window d end)
unfolding carried_window
carried_window-Carries first d end (v, late, early, e) =
    let w = slot_window-Holds d end v e early in
    let (k, shape) = window_kind-returns w.found w.valid (rw w.same_year early) in
    record {
      found = record { window = w.found; kind = k };
      returns = rw (w.returns, shape);
      is_period = record {
        valid = w.valid;
        anchor = window_kind-HasKind w.found k shape;
        late = rw w.same_year late;
        early = rw w.same_year early;
      };
    }

pub record Takes (first : ℕ) (r : Result Error (Option Resolved × Source)) : Type 0 where
  pub found : Option Resolved
  pub source : Source
  pub returns : r ≡ ok (found, source)
  pub is_period : IsPeriod? first found

or_carry-Takes :
    (first : ℕ) (o : Option Resolved) (may : Bool) (start end : Option Date)
    → IsPeriod? first o
    → IsSlot first start end
    → Takes first (or_carry o may start end)
unfolding or_carry
or_carry-Takes first o true (some d) end h s =
    let c = carried_window-Carries first d end s in
    record { found = some c.found; source = carry; returns = rw c.returns; is_period = c.is_period }
or_carry-Takes first o true none end h s = record {
  found = o;
  source = text_source o;
  returns = refl;
  is_period = h;
}
or_carry-Takes first o false start end h s = record {
  found = o;
  source = text_source o;
  returns = refl;
  is_period = h;
}

shift-GivesPeriod :
    (a : Resolved) → IsPeriod 2 a → GivesPeriod 1 (shift_back_one_year a >>= λ b. ok (some b))
shift-GivesPeriod a h =
    let s = shift_back_one_year-ShiftsBack a h.valid h.anchor h.late in
    let late = h.late in
    let early = h.early in
    let before = s.year_before in
    record {
      found = some s.found;
      returns = rw s.returns;
      is_period = record {
        valid = s.valid;
        anchor = rw s.kind_same s.anchor;
        late = omega arith;
        early = omega arith;
      };
    }

comparison-GivesPeriod :
    (right : SideParse) (a : Option Resolved)
    → IsPeriod? 2 right.resolved
    → IsPeriod? 2 a
    → GivesPeriod 1 (comparison right a)
unfolding comparison
comparison-GivesPeriod right none h k = record {
  found = right.resolved;
  returns = refl;
  is_period = IsPeriod?-weaken right.resolved h;
}
comparison-GivesPeriod right (some a) h k = elim (Bool-cases right.prior_year_relative) [
  | inl t ↦ rw t (shift-GivesPeriod a k)
  | inr f ↦ rw f (record {
    found = right.resolved;
    returns = refl;
    is_period = IsPeriod?-weaken right.resolved h;
  })
]

-- A computation that does not raise.
abbrev Returns {ℓ} : {A : Type ℓ} → Result Error A → Type ℓ
Returns {A = A} r = (a : A) × (r ≡ ok a)

window_issue-Returns :
    (w : PeriodWindow) (a b : Option Date) → IsLast b → Returns (window_issue w a b)
unfolding window_issue
window_issue-Returns w (some a) (some b) (v, e) =
    let (after, r, _, _) = next_day-returns b v e in rw r (_, refl)
window_issue-Returns w (some a) none h = (some (no_periods w), refl)
window_issue-Returns w none b h = (some (no_periods w), refl)

availability_issue-Returns :
    (o : Option Resolved) (av : PeriodRange) → IsLast av.end → Returns (availability_issue o av)
unfolding availability_issue
availability_issue-Returns none av h = (none, refl)
availability_issue-Returns (some r) av h = window_issue-Returns r.window av.start av.end h

find_issue-first :
    (o : Option ParseIssue) (a b : Option Resolved) (av : PeriodRange)
    → IsLast av.end
    → availability_issue a av ≡ ok o
    → Returns (find_issue false a b av)
unfolding find_issue
find_issue-first none a b av h r = rw r (availability_issue-Returns b av h)
find_issue-first (some i) a b av h r = rw r (some i, refl)

find_issue-Returns :
    (u : Bool) (a b : Option Resolved) (av : PeriodRange)
    → IsLast av.end
    → Returns (find_issue u a b av)
unfolding find_issue
find_issue-Returns true a b av h = (some ytd_at_year_start, refl)
find_issue-Returns false a b av h =
    let (o, r) = availability_issue-Returns a av h in find_issue-first o a b av h r

right_side-ResolvesTo :
    (ms : Option (List Match)) (d : Date)
    → AreMatches? ms
    → IsReference d
    → ResolvesTo (right_side ms d)
unfolding right_side
right_side-ResolvesTo none d h r = record { found = no_phrase; returns = refl; is_period = tt }
right_side-ResolvesTo (some ms) d h r = parse_side-ResolvesTo ms d true h r

-- A window that later turns can store: accepted, and in the years from `first` to 9998.
abbrev pub IsStorable : ℕ → Option PeriodWindow → Type 0
IsStorable first none = Unit
IsStorable first (some w) = IsWindow w × (first ≤ w.start.year) × (w.start.year < max_year)

IsPeriod?-IsStorable :
    (first : ℕ) (o : Option Resolved) → IsPeriod? first o → IsStorable first (window_of o)
IsPeriod?-IsStorable first none h = tt
IsPeriod?-IsStorable first (some r) h = (h.valid, h.late, h.early)

pub record Parses (r : Result Error PeriodParse) : Type 0 where
  pub found : PeriodParse
  pub returns : r ≡ ok found
  pub storable_a : IsStorable 2 found.period_a
  pub storable_b : IsStorable 1 found.period_b

-- A parse never raises. Whatever phrases the two sides hold, whatever the slots store, and whether or
-- not the period is available, it returns; and the windows that it returns are accepted ones in years
-- that a later carry and a later "vs last year" can reach. It needs a reference date from the year 3
-- to 9998, slots with dates in such years, and a last available date before the year 9999.
pub parse_periods-Parses :
    (left : List Match) (right : Option (List Match)) (slots : ConversationSlots) (d : Date)
    (available : PeriodRange)
    → AreMatches left
    → AreMatches? right
    → HasSlots slots
    → IsReference d
    → IsLast available.end
    → Parses (parse_periods left right slots d available)
unfolding parse_periods
parse_periods-Parses left right slots d available hl hr hs hd ha =
    let l = parse_side-ResolvesTo left d false hl hd in
    let r = right_side-ResolvesTo right d hr hd in
    let a =
      or_carry-Takes 2 l.found.resolved (not l.found.matched) slots.period_a slots.period_a_end
        l.is_period hs.slot_a in
    let b = comparison-GivesPeriod r.found a.found r.is_period a.is_period in
    let b' =
      or_carry-Takes 1 b.found (is_none b.found && not l.found.matched) slots.period_b
        slots.period_b_end b.is_period hs.slot_b in
    let i =
      find_issue-Returns (l.found.ytd_unavailable || r.found.ytd_unavailable) a.found b'.found
        available ha in
    record {
      found = record {
        period_a = window_of a.found;
        period_b = window_of b'.found;
        a_source = a.source;
        b_source = b'.source;
        issue = i.0;
      };
      returns = rw (l.returns, r.returns, a.returns, b.returns, b'.returns, i.1);
      storable_a = IsPeriod?-IsStorable 2 a.found a.is_period;
      storable_b = IsPeriod?-IsStorable 1 b'.found b'.is_period;
    }
