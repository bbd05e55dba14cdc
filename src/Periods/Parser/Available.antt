-- ===== src/Periods/Parser/Available.antt =====
-- When a period counts as available.
use latest_poseidon.Prelude.{
  ◌≡◌, ◌↔◌, true, false, not, ◌&&◌, none, some, ok, Bool-cases, inl, inr, arith, if◌then◌else◌,
}
use latest_poseidon.Calendar.{Date, IsDate, date_lt, next_day}
use latest_poseidon.Calendar.Order.{date_lt_irrefl}
use latest_poseidon.Periods.Windows.{PeriodWindow, IsWindow}
use latest_poseidon.Periods.Parser.{outside, window_issue}

-- A day of the window on which there may be data: not before the first date present, nor after the
-- last one.
pub record IsSharedDay (w : PeriodWindow) (first last d : Date) : Type 0 where
  pub valid : IsDate d
  pub from_start : date_lt d w.start ≡ false
  pub before_end : date_lt d w.end ≡ true
  pub from_first : date_lt d first ≡ false
  pub by_last : date_lt last d ≡ false

-- The day after `last` is the first one after it.
date_lt-next_day_iff :
    (a last after : Date)
    → IsDate a
    → IsDate last
    → next_day last ≡ ok after
    → date_lt a after ≡ not (date_lt last a)
unfolding date_lt next_day
date_lt-next_day_iff a last after va vl h = ground arith

-- A date not after `b`, with `b` before `c`.
date_lt_weaken : (a b c : Date) → date_lt b a ≡ false → date_lt b c ≡ true → date_lt a c ≡ true
unfolding date_lt
date_lt_weaken a b c h k = ground arith

date_le_trans : (a b c : Date) → date_lt b a ≡ false → date_lt c b ≡ false → date_lt c a ≡ false
unfolding date_lt
date_le_trans a b c h k = ground arith

date_lt_asym : (a b : Date) → date_lt a b ≡ true → date_lt b a ≡ false
unfolding date_lt
date_lt_asym a b h = ground arith

module _ (w : PeriodWindow) (first last after : Date) (vw : IsWindow w) (vf : IsDate first)
    (vl : IsDate last) (ordered : date_lt last first ≡ false)
    (next : next_day last ≡ ok after) where
  shared_of_overlap :
      date_lt last w.start ≡ false
      → date_lt first w.end ≡ true
      → (d : Date) × IsSharedDay w first last d
  shared_of_overlap s e = elim (Bool-cases (date_lt w.start first)) [
    | inl t ↦ (
      first,
      record {
        valid = vf;
        from_start = date_lt_asym w.start first t;
        before_end = e;
        from_first = date_lt_irrefl first;
        by_last = ordered;
      },
    )
    | inr f ↦ (
      w.start,
      record {
        valid = vw.start_date;
        from_start = date_lt_irrefl w.start;
        before_end = vw.ordered;
        from_first = f;
        by_last = s;
      },
    )
  ]

  window_issue-eq :
      window_issue w (some first) (some last)
      ≡ ok (
          if date_lt w.start after && date_lt first w.end
          then none
          else some (outside w first last))
  unfolding window_issue
  window_issue-eq = rw next

  starts_by_last : date_lt w.start after ≡ not (date_lt last w.start)
  starts_by_last = date_lt-next_day_iff w.start last after vw.start_date vl next

  available-shared :
      window_issue w (some first) (some last) ≡ ok none → (d : Date) × IsSharedDay w first last d
  available-shared h =
      let q = window_issue-eq in shared_of_overlap (ground (arith, starts_by_last)) (ground arith)

  shared-available :
      (d : Date) × IsSharedDay w first last d → window_issue w (some first) (some last) ≡ ok none
  shared-available (d, h) =
      let s : date_lt last w.start ≡ false = date_le_trans w.start d last h.from_start h.by_last in
      let e : date_lt first w.end ≡ true = date_lt_weaken first d w.end h.from_first h.before_end in
      rw (window_issue-eq, starts_by_last, s, e)

-- A window has no issue exactly if some day of it is not before the first date present nor after the
-- last one, whatever days lie between. The first date is not after the last one, and there is a day
-- after the last one.
pub window_issue_iff :
    (w : PeriodWindow) (first last after : Date)
    → IsWindow w
    → IsDate first
    → IsDate last
    → date_lt last first ≡ false
    → next_day last ≡ ok after
    → (window_issue w (some first) (some last) ≡ ok none)
      ↔ ((d : Date) × IsSharedDay w first last d)
window_issue_iff w first last after vw vf vl o next = (
  available-shared w first last after vw vf vl o next,
  shared-available w first last after vw vf vl o next,
)
