-- ===== src/Periods/Windows.antt =====
-- `PeriodWindow` of backend/poseidon/core/data/specs.py, the windows and their classification in
-- backend/poseidon/core/parsing/period_labels.py, and the window builders of
-- backend/poseidon/core/parsing/period_parser.py.
pub mod Kinds
pub mod Slots
pub mod Shifts
use latest_poseidon.Prelude.{
  ℕ, ◌+◌, ◌-◌, ◌*◌, ◌/◌, ◌%◌, ◌≡◌, Bool, true, false, ◌||◌, ◌&&◌, not, min, Option, none, some,
  Result, ok, err, ◌>>=◌, leb, ltb, ◌==◌, if◌then◌else◌,
}
use latest_poseidon.Calendar.{
  Date, Error, value_error, IsDate, date, date_lt, date_eq, days_in_month, next_day,
}

-- A half-open range of days.
pub record PeriodWindow : Type 0 where
  pub start : Date
  pub end : Date

-- `PeriodWindow.__post_init__` refuses a window whose start is not before its end.
unfoldable pub period_window : Date → Date → Result Error PeriodWindow
period_window a b = if date_lt a b then ok (record { start = a; end = b }) else err value_error

pub data WindowKind : Type 0 where
  month quarter year ytd day_range : WindowKind

-- The months of a year counted from the year 0, as `_add_months` counts them.
abbrev pub month_index : Date → ℕ
month_index d = d.year * 12 + (d.month - 1)

-- `_add_months` for a move forward, and `add_months(first, -months)` for one back: an index below
-- zero has a year below zero, which `date` refuses.
unfoldable pub add_months : Date → ℕ → Result Error Date
add_months first months =
    let index = month_index first + months in date (index / 12) (index % 12 + 1) 1

unfoldable pub sub_months : Date → ℕ → Result Error Date
sub_months first months =
    if ltb (month_index first) months
    then err value_error
    else let index = month_index first - months in date (index / 12) (index % 12 + 1) 1

unfoldable pub month_window : ℕ → ℕ → Result Error PeriodWindow
month_window y m = do first ← date y m 1; after ← add_months first 1; period_window first after

-- start.month in (1, 4, 7, 10)
abbrev pub starts_quarter : ℕ → Bool
starts_quarter m = m == 1 || (m == 4 || (m == 7 || m == 10))

-- `a and end == e`, where the second operand is evaluated, and may raise, only after the first.
unfoldable pub ends_at : Bool → Date → Result Error Date → Result Error Bool
ends_at false end e = ok false
ends_at true end e = do d ← e; ok (date_eq end d)

-- The last two tests of `window_kind`.
unfoldable pub short_kind : PeriodWindow → Bool → WindowKind
short_kind w is_month =
    if is_month
    then month
    else if w.start.month == 1 && w.end.year == w.start.year
    then ytd
    else day_range

-- `window_kind`: the most specific shape first.
unfoldable pub window_kind : PeriodWindow → Result Error WindowKind
unfolding ends_at short_kind
window_kind w = if not (w.start.day == 1) then ok day_range else do
  is_year ← ends_at (w.start.month == 1) w.end (date (w.start.year + 1) 1 1)
  if is_year then ok year else do
    is_quarter ← ends_at (starts_quarter w.start.month) w.end (add_months w.start 3)
    if is_quarter
        then ok quarter
        else do is_month ← ends_at true w.end (add_months w.start 1); ok (short_kind w is_month)

-- `slot_window`: the stored window, or the month that holds the start.
unfoldable pub slot_window : Date → Option Date → Result Error PeriodWindow
slot_window start none = month_window start.year start.month
slot_window start (some end) =
    if date_lt start end then period_window start end else month_window start.year start.month

-- `_quarter_window`
unfoldable pub quarter_window : ℕ → ℕ → Result Error PeriodWindow
quarter_window y q =
    let start_month = 3 * q - 2 in
    let end_month = start_month + 3 in
    if ltb 12 end_month
    then (do a ← date y start_month 1; b ← date (y + 1) 1 1; period_window a b)
    else (do a ← date y start_month 1; b ← date y end_month 1; period_window a b)

-- `_year_window`
unfoldable pub year_window : ℕ → Result Error PeriodWindow
year_window y = do a ← date y 1 1; b ← date (y + 1) 1 1; period_window a b

-- `_ytd_window`: none on January 1.
unfoldable pub ytd_window : Date → Result Error (Option PeriodWindow)
ytd_window reference =
    if reference.month == 1 && reference.day == 1
    then ok none
    else (do a ← date reference.year 1 1; w ← period_window a reference; ok (some w))

-- `_same_day_prior_year`
unfoldable pub same_day_prior_year : Date → Result Error Date
same_day_prior_year d = let y = d.year - 1 in date y d.month (min d.day (days_in_month y d.month))

-- `max(a, b)` of two dates
unfoldable pub date_max : Date → Date → Date
date_max a b = if date_lt a b then b else a

-- `_Resolved`
pub record Resolved : Type 0 where
  pub window : PeriodWindow
  pub kind : WindowKind

-- `_shift_back_one_year`, by the kind of the window.
unfoldable pub shift_window : WindowKind → Date → Date → Result Error PeriodWindow
shift_window month a b = month_window (a.year - 1) a.month
shift_window quarter a b = quarter_window (a.year - 1) ((a.month - 1) / 3 + 1)
shift_window year a b = year_window (a.year - 1)
shift_window day_range a b = do
  shifted_start ← same_day_prior_year a
  prior_end ← same_day_prior_year b
  after ← next_day shifted_start
  period_window shifted_start (date_max prior_end after)
shift_window ytd a b = do
  shifted_end ← same_day_prior_year b
  first ← date (a.year - 1) 1 1
  period_window first shifted_end

unfoldable pub shift_back_one_year : Resolved → Result Error Resolved
unfolding shift_window
shift_back_one_year r = do
  w ← shift_window r.kind r.window.start r.window.end
  ok (record { window = w; kind = r.kind })

-- A window that `PeriodWindow` accepts.
pub record IsWindow (w : PeriodWindow) : Type 0 where
  pub start_date : IsDate w.start
  pub end_date : IsDate w.end
  pub ordered : date_lt w.start w.end ≡ true
