-- ===== src/Periods/Parser/Sources.antt =====
-- Where each period of a parse comes from, and what a turn that names no period keeps.
use latest_poseidon.Prelude.{
  ◌≡◌, ◌↔◌, refl, Bool, true, false, not, ◌&&◌, ◌||◌, Option, none, some, List, ok, ok-injective,
  subst, >>=-eq-ok, arith,
}
use latest_poseidon.Calendar.{Date}
use latest_poseidon.Slots.{ConversationSlots}
use latest_poseidon.Periods.Windows.{PeriodWindow, Resolved}
use latest_poseidon.Periods.Parser.{
  Match, SideParse, parse_side, PeriodRange, Source, carry, absent, PeriodParse, window_of,
  carried_window, or_carry, comparison, is_none, find_issue, right_side, parse_periods,
}

-- The stages of a parse that returns.
pub record Stages (left : List Match) (right : Option (List Match)) (slots : ConversationSlots)
    (d : Date) (p : PeriodParse) : Type 0 where
  pub left_side : SideParse
  pub right_parse : SideParse
  pub resolved_a : Option Resolved
  pub named_b : Option Resolved
  pub resolved_b : Option Resolved
  pub left_is : parse_side left d false ≡ ok left_side
  pub right_is : right_side right d ≡ ok right_parse
  pub a_is :
      or_carry left_side.resolved (not left_side.matched) slots.period_a slots.period_a_end
      ≡ ok (resolved_a, p.a_source)
  pub named_is : comparison right_parse resolved_a ≡ ok named_b
  pub b_is :
      or_carry named_b (is_none named_b && not left_side.matched) slots.period_b slots.period_b_end
      ≡ ok (resolved_b, p.b_source)
  pub window_a : p.period_a ≡ window_of resolved_a
  pub window_b : p.period_b ≡ window_of resolved_b

pub parse_periods-Stages :
    (left : List Match) (right : Option (List Match)) (slots : ConversationSlots) (d : Date)
    (available : PeriodRange) {p : PeriodParse}
    → parse_periods left right slots d available ≡ ok p
    → Stages left right slots d p
unfolding parse_periods
parse_periods-Stages left right slots d available {p} h =
    let (l, hl, h1) = >>=-eq-ok (parse_side left d false) _ h in
    let (r, hr, h2) = >>=-eq-ok (right_side right d) _ h1 in
    let (xa, ha, h3) =
      >>=-eq-ok (or_carry l.resolved (not l.matched) slots.period_a slots.period_a_end) _ h2 in
    let (nb, hn, h4) = >>=-eq-ok (comparison r xa.0) _ h3 in
    let (xb, hb, h5) =
      >>=-eq-ok (or_carry nb (is_none nb && not l.matched) slots.period_b slots.period_b_end) _
        h4 in
    let (i, hi, h6) =
      >>=-eq-ok (find_issue (l.ytd_unavailable || r.ytd_unavailable) xa.0 xb.0 available) _ h5 in
    subst (Stages left right slots d) (ok-injective h6) (record {
      left_side = l;
      right_parse = r;
      resolved_a = xa.0;
      named_b = nb;
      resolved_b = xb.0;
      left_is = hl;
      right_is = hr;
      a_is = ha;
      named_is = hn;
      b_is = hb;
      window_a = refl;
      window_b = refl;
    })

-- A source is "none" exactly where the window is missing.
abbrev pub Agrees : Option PeriodWindow → Source → Type 0
Agrees w s = (w ≡ none) ↔ (s ≡ absent)

or_carry-Agrees :
    (o : Option Resolved) (may : Bool) (start end : Option Date) {x : Option Resolved} {s : Source}
    → or_carry o may start end ≡ ok (x, s)
    → Agrees (window_of x) s
unfolding or_carry
or_carry-Agrees o true (some d) end {x} {s} h =
    let (r, _, e) = >>=-eq-ok (carried_window d end) _ h in
    let w : window_of x ≡ some r.window = ground (arith, e) in
    let c : s ≡ carry = ground (arith, e) in (λ n. cc (n, w), λ a. cc (a, c))
or_carry-Agrees none true none end h = (λ n. cc h, λ a. ground (arith, h))
or_carry-Agrees (some r) true none end h = (λ n. ground (arith, h), λ a. cc h)
or_carry-Agrees none false start end h = (λ n. cc h, λ a. ground (arith, h))
or_carry-Agrees (some r) false start end h = (λ n. ground (arith, h), λ a. cc h)

-- The source of each period is "none" exactly where the parse returns no window for it.
pub parse_periods-Agrees :
    (left : List Match) (right : Option (List Match)) (slots : ConversationSlots) (d : Date)
    (available : PeriodRange) {p : PeriodParse}
    → parse_periods left right slots d available ≡ ok p
    → Agrees p.period_a p.a_source × Agrees p.period_b p.b_source
parse_periods-Agrees left right slots d available h =
    let s = parse_periods-Stages left right slots d available h in
    (rw s.window_a (or_carry-Agrees _ _ _ _ s.a_is), rw s.window_b (or_carry-Agrees _ _ _ _ s.b_is))
