-- ===== src/Periods/Windows/Shifts.antt =====
-- `_shift_back_one_year`: the window of the same shape one year earlier.
use native.Mathlib.Nat.{le_trans}
use latest_poseidon.Prelude.{
  sym, ap, ℕ, ◌+◌, ◌-◌, ◌*◌, ◌/◌, ◌≤◌, ◌<◌, ◌≡◌, refl, min, Result, ok, Result-cases, Bool-cases,
  inl, inr, err, arith, true,
}
use latest_poseidon.Calendar.{Date, Error, IsDate, date, date_lt, days_in_month, next_day, max_year}
use latest_poseidon.Calendar.Order.{
  days_in_month_bounds, next_day-IsDate, date_lt-next_day, date-IsDate,
}
use latest_poseidon.Periods.Windows.{
  PeriodWindow, IsWindow, WindowKind, month, quarter, year, ytd, day_range, Resolved, period_window,
  window_kind, same_day_prior_year, date_max, shift_window, shift_back_one_year,
}
use latest_poseidon.Periods.Windows.Kinds.{
  Builds, first_of, month_window-Builds, quarter_window-Builds, year_window-Builds, first_of-date,
}

-- The anchor that a kind promises: where the window starts, and for a year to date where it ends.
abbrev pub HasKind : WindowKind → PeriodWindow → Type 0
HasKind month w = w.start.day ≡ 1
HasKind quarter w = (w.start.day ≡ 1) × (3 * ((w.start.month - 1) / 3 + 1) - 2 ≡ w.start.month)
HasKind year w = (w.start.day ≡ 1) × (w.start.month ≡ 1)
HasKind ytd w = (w.start.day ≡ 1) × (w.start.month ≡ 1) × (w.end.year ≡ w.start.year)
HasKind day_range w = Unit

pub window_kind-HasKind : (w : PeriodWindow) (k : WindowKind) → window_kind w ≡ ok k → HasKind k w
unfolding window_kind
window_kind-HasKind w month h = ground arith
window_kind-HasKind w quarter h = ground arith
window_kind-HasKind w year h = ground arith
window_kind-HasKind w ytd h = ground arith
window_kind-HasKind w day_range h = tt

-- The prior-year day of a date.
abbrev pub prior_day : Date → Date
prior_day d = record {
  year = d.year - 1;
  month = d.month;
  day = min d.day (days_in_month (d.year - 1) d.month);
}

prior_day-IsDate : (d : Date) → IsDate d → 2 ≤ d.year → IsDate (prior_day d)
prior_day-IsDate d v h = ground (arith, days_in_month_bounds (d.year - 1) d.month)

same_day_prior_year-eq :
    (d : Date) → IsDate d → 2 ≤ d.year → same_day_prior_year d ≡ ok (prior_day d)
unfolding same_day_prior_year date
same_day_prior_year-eq d v h = ground (arith, days_in_month_bounds (d.year - 1) d.month)

next_day-no_error : (d : Date) {e : Error} → d.year < max_year → next_day d ≡ err e → ⊥
unfolding next_day
next_day-no_error d h r = ground arith

pub next_day-returns :
    (d : Date)
    → IsDate d
    → d.year < max_year
    → (e : Date) × (next_day d ≡ ok e) × IsDate e × (date_lt d e ≡ true)
next_day-returns d v h = elim (Result-cases (next_day d)) [
  | inl (e, r) ↦ (e, r, next_day-IsDate d v r, date_lt-next_day d r)
  | inr (e, r) ↦ absurd (next_day-no_error d h r)
]

-- Where a window that was from `a` to `b` ends, one year earlier: a month, a quarter and a year are
-- whole again, a year to date ends on the prior-year day of `b`, and a range has the prior-year days at
-- both ends, or is the one day after its start if they leave nothing.
abbrev pub EndsAs : WindowKind → Date → Date → PeriodWindow → Type 0
EndsAs ytd a b w = w.end ≡ prior_day b
EndsAs day_range a b w =
    (w.start ≡ prior_day a)
    × ((after : Date) × (next_day (prior_day a) ≡ ok after)
        × (w.end ≡ date_max (prior_day b) after))
EndsAs month a b w = window_kind w ≡ ok month
EndsAs quarter a b w = window_kind w ≡ ok quarter
EndsAs year a b w = window_kind w ≡ ok year

-- A builder that returns an accepted window of kind `k`, in the month of `d`, one year earlier, for a
-- window that ends at `b`.
pub record Shifts (k : WindowKind) (d b : Date) (r : Result Error PeriodWindow) : Type 0 where
  pub found : PeriodWindow
  pub returns : r ≡ ok found
  pub valid : IsWindow found
  pub anchor : HasKind k found
  pub year_before : found.start.year + 1 ≡ d.year
  pub month_same : found.start.month ≡ d.month
  pub ends : EndsAs k d b found

Builds-Shifts :
    (k : WindowKind) (d b : Date) (m : ℕ) {r : Result Error PeriodWindow}
    → 2 ≤ d.year
    → m ≡ d.month
    → ((w : PeriodWindow) → window_kind w ≡ ok k → EndsAs k d b w)
    → Builds k (d.year - 1) m r
    → Shifts k d b r
Builds-Shifts k d b m h e whole s = record {
  found = s.found;
  returns = s.returns;
  valid = s.valid;
  anchor = window_kind-HasKind s.found k s.shape;
  year_before = ground (arith, s.starts);
  month_same = ground (arith, s.starts);
  ends = whole s.found s.shape;
}

date_lt-year : (a b : Date) → date_lt a b ≡ true → a.year ≤ b.year
unfolding date_lt
date_lt-year a b h = ground arith

date_max-after : (a b c : Date) → date_lt a c ≡ true → date_lt a (date_max b c) ≡ true
unfolding date_max date_lt
date_max-after a b c h = ground arith

date_max-IsDate : (a b : Date) → IsDate a → IsDate b → IsDate (date_max a b)
unfolding date_max
date_max-IsDate a b va vb = elim (Bool-cases (date_lt a b)) [ inl t ↦ rw t vb | inr f ↦ rw f va ]

period_window-eq :
    (a b : Date) → date_lt a b ≡ true → period_window a b ≡ ok (record { start = a; end = b })
unfolding period_window
period_window-eq a b h = rw h

shift_window-day_range :
    (a b : Date)
    → IsDate a
    → IsDate b
    → 2 ≤ a.year
    → 2 ≤ b.year
    → Shifts day_range a b (shift_window day_range a b)
unfolding shift_window
shift_window-day_range a b va vb ha hb =
    let sa = prior_day-IsDate a va ha in
    let (after, r, vn, lt) = next_day-returns (prior_day a) sa (omega arith) in
    let ordered = date_max-after (prior_day a) (prior_day b) after lt in
    record {
      found = record { start = prior_day a; end = date_max (prior_day b) after };
      returns = rw (
        same_day_prior_year-eq a va ha,
        same_day_prior_year-eq b vb hb,
        r,
        period_window-eq _ _ ordered,
      );
      valid = record {
        start_date = sa;
        end_date = date_max-IsDate (prior_day b) after (prior_day-IsDate b vb hb) vn;
        ordered = ordered;
      };
      anchor = tt;
      year_before = omega arith;
      month_same = refl;
      ends = (refl, (after, r, refl));
    }

ytd_ordered :
    (a b : Date)
    → 2 ≤ a.year
    → b.year ≡ a.year
    → a.day ≡ 1
    → a.month ≡ 1
    → 1 ≤ b.month
    → date_lt a b ≡ true
    → date_lt (first_of (a.year - 1) 1) (prior_day b) ≡ true
unfolding date_lt
ytd_ordered a b h y d m n lt = ground (arith, days_in_month_bounds (b.year - 1) b.month)

shift_window-ytd :
    (a b : Date)
    → IsDate a
    → IsDate b
    → 2 ≤ a.year
    → a.day ≡ 1
    → a.month ≡ 1
    → b.year ≡ a.year
    → date_lt a b ≡ true
    → Shifts ytd a b (shift_window ytd a b)
unfolding shift_window
shift_window-ytd a b va vb h d m y lt =
    let ordered = ytd_ordered a b h y d m vb.month_low lt in
    let hb : 2 ≤ b.year = omega arith in
    let first =
      first_of-date (a.year - 1) 1 (omega arith) (omega arith) (omega arith) (omega arith) in
    record {
      found = record { start = first_of (a.year - 1) 1; end = prior_day b };
      returns = rw (same_day_prior_year-eq b vb hb, first, period_window-eq _ _ ordered);
      valid = record {
        start_date = date-IsDate (a.year - 1) 1 1 first;
        end_date = prior_day-IsDate b vb hb;
        ordered = ordered;
      };
      anchor = (refl, refl, ap (λ (n : ℕ). n - 1) y);
      year_before = omega arith;
      month_same = sym m;
      ends = refl;
    }

-- Every shape of window moves back: no branch raises.
shift_window-Shifts :
    (k : WindowKind) (w : PeriodWindow)
    → IsWindow w
    → HasKind k w
    → 2 ≤ w.start.year
    → Shifts k w.start w.end (shift_window k w.start w.end)
unfolding shift_window
shift_window-Shifts month w v h y =
    let s = v.start_date in
    Builds-Shifts month w.start w.end w.start.month y refl (λ x e. e)
      (month_window-Builds (w.start.year - 1) w.start.month (omega arith) (omega arith) s.month_low
        s.month_high)
shift_window-Shifts quarter w v h y =
    let s = v.start_date in
    Builds-Shifts quarter w.start w.end _ y h.1 (λ x e. e)
      (quarter_window-Builds (w.start.year - 1) ((w.start.month - 1) / 3 + 1) (omega arith)
        (omega arith) (omega arith) (omega arith))
shift_window-Shifts year w v h y =
    let s = v.start_date in
    Builds-Shifts year w.start w.end 1 y (sym h.1) (λ x e. e)
      (year_window-Builds (w.start.year - 1) (omega arith) (omega arith))
shift_window-Shifts ytd w v h y =
    shift_window-ytd w.start w.end v.start_date v.end_date y h.0 h.1 h.2 v.ordered
shift_window-Shifts day_range w v h y =
    shift_window-day_range w.start w.end v.start_date v.end_date y
      (le_trans y (date_lt-year w.start w.end v.ordered))

-- A shift that returns: an accepted window of the same kind that starts in the same month, one year
-- earlier, and ends as its kind demands.
pub record ShiftsBack (r : Resolved) (s : Result Error Resolved) : Type 0 where
  pub found : Resolved
  pub returns : s ≡ ok found
  pub valid : IsWindow found.window
  pub kind_same : found.kind ≡ r.kind
  pub anchor : HasKind r.kind found.window
  pub year_before : found.window.start.year + 1 ≡ r.window.start.year
  pub month_same : found.window.start.month ≡ r.window.start.month
  pub ends : EndsAs r.kind r.window.start r.window.end found.window

-- A window of any shape that starts in year 2 or later moves back one year without raising: the
-- result is a window that `PeriodWindow` accepts, in the same month of the year before, anchored as its
-- kind demands (on the first of a month, of a quarter, of a year). A month, a quarter and a year become a
-- whole one again; a year to date ends on the prior-year day of its end; a range of days goes from
-- prior-year day to prior-year day, or to the day after its start if that is later.
pub shift_back_one_year-ShiftsBack :
    (r : Resolved)
    → IsWindow r.window
    → HasKind r.kind r.window
    → 2 ≤ r.window.start.year
    → ShiftsBack r (shift_back_one_year r)
unfolding shift_back_one_year
shift_back_one_year-ShiftsBack r v h y =
    let s = shift_window-Shifts r.kind r.window v h y in
    record {
      found = record { window = s.found; kind = r.kind };
      returns = rw s.returns;
      valid = s.valid;
      kind_same = refl;
      anchor = s.anchor;
      year_before = s.year_before;
      month_same = s.month_same;
      ends = s.ends;
    }
