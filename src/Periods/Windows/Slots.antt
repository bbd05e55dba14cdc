-- ===== src/Periods/Windows/Slots.antt =====
-- `slot_window`: what a stored slot is read back as, and the kind of a window.
use latest_poseidon.Prelude.{
  ◌+◌, ◌/◌, ◌%◌, ◌<◌, ◌≡◌, refl, Option, none, some, Result, ok, err, Result-cases, Bool-cases, inl,
  inr, arith, true, false,
}
use latest_poseidon.Calendar.{Date, Error, IsDate, date_lt, max_year}
use latest_poseidon.Calendar.Order.{date_lt_irrefl}
use latest_poseidon.Periods.Windows.{
  PeriodWindow, IsWindow, WindowKind, period_window, month_window, window_kind, slot_window,
}
use latest_poseidon.Periods.Windows.Kinds.{
  first_of, first_of-date, add_months-eq, month_window-eq, month_window-Builds,
}

-- An end date of a slot is absent or a date.
abbrev pub IsEnd : Option Date → Type 0
IsEnd none = Unit
IsEnd (some d) = IsDate d

-- A window that holds a day: it does not start after it, and ends after it.
pub record Holds (d : Date) (r : Result Error PeriodWindow) : Type 0 where
  pub found : PeriodWindow
  pub returns : r ≡ ok found
  pub valid : IsWindow found
  pub starts_by : date_lt d found.start ≡ false
  pub ends_after : date_lt d found.end ≡ true
  pub same_year : found.start.year ≡ d.year

first_of-by : (d : Date) → IsDate d → date_lt d (first_of d.year d.month) ≡ false
unfolding date_lt
first_of-by d v = ground arith

month_ends-after :
    (d : Date) {w : PeriodWindow}
    → IsDate d
    → d.year < max_year
    → month_window d.year d.month ≡ ok w
    → date_lt d w.end ≡ true
unfolding date_lt
month_ends-after d v h r =
    ground (arith, r, month_window-eq d.year d.month (d.year + d.month / 12) (d.month % 12 + 1))

month_window-Holds :
    (d : Date) → IsDate d → d.year < max_year → Holds d (month_window d.year d.month)
month_window-Holds d v h =
    let b = month_window-Builds d.year d.month v.year_low h v.month_low v.month_high in
    record {
      found = b.found;
      returns = b.returns;
      valid = b.valid;
      starts_by = rw b.starts (first_of-by d v);
      ends_after = month_ends-after d v h b.returns;
      same_year = ground (arith, b.starts);
    }

window_kind-no_error :
    (w : PeriodWindow) {e : Error}
    → IsWindow w
    → w.start.year < max_year
    → window_kind w ≡ err e
    → ⊥
unfolding window_kind
window_kind-no_error w v h r =
    let s = v.start_date in
    let y = w.start.year in
    let m = w.start.month in
    ground (
      arith,
      first_of-date (y + 1) 1,
      add_months-eq y m 3 (y + (m + 2) / 12) ((m + 2) % 12 + 1),
      add_months-eq y m 1 (y + m / 12) (m % 12 + 1),
    )

-- A slot with a date in a year up to 9998 is always read back, whatever its end: as a window that
-- `PeriodWindow` accepts, which holds the slot's start.
pub slot_window-Holds :
    (start : Date) (end : Option Date)
    → IsDate start
    → IsEnd end
    → start.year < max_year
    → Holds start (slot_window start end)
unfolding slot_window
slot_window-Holds start none v e h = month_window-Holds start v h
slot_window-Holds start (some end) v e h = elim (Bool-cases (date_lt start end)) [
  | inl t ↦ rw t (record {
    found = record { start = start; end = end };
    returns = unfold period_window in rw t;
    valid = record { start_date = v; end_date = e; ordered = t };
    starts_by = date_lt_irrefl start;
    ends_after = t;
    same_year = refl;
  })
  | inr f ↦ rw f (month_window-Holds start v h)
]

-- The window of a slot that was filled from a window is that window.
pub slot_window-window : (w : PeriodWindow) → IsWindow w → slot_window w.start (some w.end) ≡ ok w
unfolding slot_window period_window
slot_window-window w v = rw v.ordered

-- `window_kind` returns for every window that starts before the year 9999.
pub window_kind-returns :
    (w : PeriodWindow)
    → IsWindow w
    → w.start.year < max_year
    → (k : WindowKind) × (window_kind w ≡ ok k)
window_kind-returns w v h = elim (Result-cases (window_kind w)) [
  | inl r ↦ r
  | inr (e, r) ↦ absurd (window_kind-no_error w v h r)
]
