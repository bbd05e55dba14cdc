-- ===== src/Periods/Windows/Kinds.antt =====
-- The windows that the builders make, and the shape that `window_kind` reads off each of them.
use latest_poseidon.Prelude.{
  ℕ, ◌+◌, ◌-◌, ◌*◌, ◌/◌, ◌%◌, ◌≤◌, ◌<◌, ◌≡◌, refl, Result, ok, arith, true,
}
use latest_poseidon.Calendar.{Date, Error, date, date_lt, date_eq, max_year}
use latest_poseidon.Calendar.Order.{days_in_month_bounds}
use latest_poseidon.Periods.Windows.{
  PeriodWindow, IsWindow, WindowKind, month, quarter, year, period_window, add_months, month_window,
  quarter_window, year_window, window_kind,
}

-- The first day of a month.
abbrev pub first_of : ℕ → ℕ → Date
first_of y m = record { year = y; month = m; day = 1 }

pub first_of-date :
    (y m : ℕ) → 1 ≤ y → y ≤ max_year → 1 ≤ m → m ≤ 12 → date y m 1 ≡ ok (first_of y m)
unfolding date
first_of-date y m a b c d = ground (arith, days_in_month_bounds y m)

-- A valid index is the month with that index.
pub add_months-eq :
    (y m k y' m' : ℕ)
    → 1 ≤ m
    → y * 12 + m + k ≡ y' * 12 + m'
    → 1 ≤ y'
    → y' ≤ max_year
    → 1 ≤ m'
    → m' ≤ 12
    → add_months (first_of y m) k ≡ ok (first_of y' m')
unfolding add_months
add_months-eq y m k y' m' hm e a b c d =
    let q : (y * 12 + (m - 1) + k) / 12 ≡ y' = omega arith in
    let r : (y * 12 + (m - 1) + k) % 12 + 1 ≡ m' = omega arith in
    rw (q, r) (first_of-date y' m' a b c d)

first_of-date_lt :
    (y m y' m' : ℕ)
    → 1 ≤ m
    → m ≤ 12
    → 1 ≤ m'
    → m' ≤ 12
    → y * 12 + m < y' * 12 + m'
    → date_lt (first_of y m) (first_of y' m') ≡ true
unfolding date_lt
first_of-date_lt y m y' m' a b c d h = ground arith

-- A window from one first of a month to a later one.
abbrev pub months_window : ℕ → ℕ → ℕ → ℕ → PeriodWindow
months_window y m y' m' = record { start = first_of y m; end = first_of y' m' }

pub months_window-eq :
    (y m y' m' : ℕ)
    → 1 ≤ m
    → m ≤ 12
    → 1 ≤ m'
    → m' ≤ 12
    → y * 12 + m < y' * 12 + m'
    → period_window (first_of y m) (first_of y' m') ≡ ok (months_window y m y' m')
unfolding period_window
months_window-eq y m y' m' a b c d h = rw (first_of-date_lt y m y' m' a b c d h)

pub month_window-eq :
    (y m y' m' : ℕ)
    → 1 ≤ y
    → y ≤ max_year
    → 1 ≤ m
    → m ≤ 12
    → 1 ≤ y'
    → y' ≤ max_year
    → 1 ≤ m'
    → m' ≤ 12
    → y * 12 + m + 1 ≡ y' * 12 + m'
    → month_window y m ≡ ok (months_window y m y' m')
unfolding month_window
month_window-eq y m y' m' a b c d a' b' c' d' e = rw (
  first_of-date y m a b c d,
  add_months-eq y m 1 y' m' c e a' b' c' d',
  months_window-eq y m y' m' c d c' d' (omega arith),
)

pub quarter_window-eq :
    (y q y' m' : ℕ)
    → 1 ≤ y
    → y ≤ max_year
    → 1 ≤ q
    → q ≤ 4
    → y' ≤ max_year
    → 1 ≤ m'
    → m' ≤ 12
    → y * 12 + (3 * q - 2) + 3 ≡ y' * 12 + m'
    → quarter_window y q ≡ ok (months_window y (3 * q - 2) y' m')
unfolding quarter_window
quarter_window-eq y q y' m' a b c d b' c' d' e = ground (
  arith,
  first_of-date y (3 * q - 2),
  first_of-date (y + 1) 1,
  first_of-date y (3 * q - 2 + 3),
  months_window-eq y (3 * q - 2) (y + 1) 1,
  months_window-eq y (3 * q - 2) y (3 * q - 2 + 3),
)

pub year_window-eq :
    (y : ℕ) → 1 ≤ y → y < max_year → year_window y ≡ ok (months_window y 1 (y + 1) 1)
unfolding year_window
year_window-eq y a b = rw (
  first_of-date y 1 a (omega arith) (omega arith) (omega arith),
  first_of-date (y + 1) 1 (omega arith) (omega arith) (omega arith) (omega arith),
  months_window-eq y 1 (y + 1) 1 (omega arith) (omega arith) (omega arith) (omega arith)
      (omega arith),
)

-- What `window_kind` sees of a window between two firsts of months: how many months it spans.
window_kind-months :
    (y m y' m' : ℕ)
    → 1 ≤ y
    → y < max_year
    → 1 ≤ m
    → m ≤ 12
    → y' ≤ max_year
    → 1 ≤ m'
    → m' ≤ 12
    → y * 12 + m + 1 ≡ y' * 12 + m'
    → window_kind (months_window y m y' m') ≡ ok month
unfolding window_kind date_eq
window_kind-months y m y' m' a b c d b' c' d' e = ground (
  arith,
  first_of-date (y + 1) 1,
  add_months-eq y m 3 y (m + 3),
  add_months-eq y m 3 (y + 1) (m - 9),
  add_months-eq y m 1 y' m',
)

window_kind-quarters :
    (y q y' m' : ℕ)
    → 1 ≤ y
    → y < max_year
    → 1 ≤ q
    → q ≤ 4
    → y' ≤ max_year
    → 1 ≤ m'
    → m' ≤ 12
    → y * 12 + (3 * q - 2) + 3 ≡ y' * 12 + m'
    → window_kind (months_window y (3 * q - 2) y' m') ≡ ok quarter
unfolding window_kind date_eq
window_kind-quarters y q y' m' a b c d b' c' d' e =
    ground (arith, first_of-date (y + 1) 1, add_months-eq y (3 * q - 2) 3 y' m')

pub months_window-IsWindow :
    (y m y' m' : ℕ)
    → 1 ≤ y
    → y ≤ max_year
    → 1 ≤ m
    → m ≤ 12
    → 1 ≤ y'
    → y' ≤ max_year
    → 1 ≤ m'
    → m' ≤ 12
    → y * 12 + m < y' * 12 + m'
    → IsWindow (months_window y m y' m')
months_window-IsWindow y m y' m' a b c d a' b' c' d' h = record {
  start_date = ground (arith, days_in_month_bounds y m);
  end_date = ground (arith, days_in_month_bounds y' m');
  ordered = first_of-date_lt y m y' m' c d c' d' h;
}

-- A builder that returns: a window that `PeriodWindow` accepts, starting on the first of month `m`
-- of year `y`, with a shape that `window_kind` reads back.
pub record Builds (k : WindowKind) (y m : ℕ) (r : Result Error PeriodWindow) : Type 0 where
  pub found : PeriodWindow
  pub returns : r ≡ ok found
  pub valid : IsWindow found
  pub starts : found.start ≡ first_of y m
  pub shape : window_kind found ≡ ok k

-- A month of a year up to 9998 has a window, which is read as a month: never as a quarter, a year
-- or a year to date.
pub month_window-Builds :
    (y m : ℕ) → 1 ≤ y → y < max_year → 1 ≤ m → m ≤ 12 → Builds month y m (month_window y m)
month_window-Builds y m a b c d =
    let y' = y + m / 12 in
    let m' = m % 12 + 1 in
    let e : y * 12 + m + 1 ≡ (y + m / 12) * 12 + (m % 12 + 1) = omega arith in
    let low : y' ≤ max_year = omega arith in
    let high : m' ≤ 12 = omega arith in
    record {
      found = months_window y m y' m';
      returns =
          month_window-eq y m y' m' a (omega arith) c d (omega arith) low (omega arith) high e;
      valid =
          months_window-IsWindow y m y' m' a (omega arith) c d (omega arith) low (omega arith) high
            (omega arith);
      starts = refl;
      shape = window_kind-months y m y' m' a b c d low (omega arith) high e;
    }

-- A quarter of a year up to 9998 has a window, which is read as a quarter.
pub quarter_window-Builds :
    (y q : ℕ)
    → 1 ≤ y
    → y < max_year
    → 1 ≤ q
    → q ≤ 4
    → Builds quarter y (3 * q - 2) (quarter_window y q)
quarter_window-Builds y q a b c d =
    let y' = y + q / 4 in
    let m' = (3 * q) % 12 + 1 in
    let e : y * 12 + (3 * q - 2) + 3 ≡ (y + q / 4) * 12 + ((3 * q) % 12 + 1) = omega arith in
    let low : y' ≤ max_year = omega arith in
    let high : m' ≤ 12 = omega arith in
    record {
      found = months_window y (3 * q - 2) y' m';
      returns = quarter_window-eq y q y' m' a (omega arith) c d low (omega arith) high e;
      valid =
          months_window-IsWindow y (3 * q - 2) y' m' a (omega arith) (omega arith) (omega arith)
            (omega arith) low (omega arith) high (omega arith);
      starts = refl;
      shape = window_kind-quarters y q y' m' a b c d low (omega arith) high e;
    }

window_kind-year :
    (y : ℕ) → 1 ≤ y → y < max_year → window_kind (months_window y 1 (y + 1) 1) ≡ ok year
unfolding window_kind date_eq
window_kind-year y a b = ground (arith, first_of-date (y + 1) 1)

-- A year up to 9998 has a window, which is read as a year.
pub year_window-Builds : (y : ℕ) → 1 ≤ y → y < max_year → Builds year y 1 (year_window y)
year_window-Builds y a b = record {
  found = months_window y 1 (y + 1) 1;
  returns = year_window-eq y a b;
  valid =
      months_window-IsWindow y 1 (y + 1) 1 a (omega arith) (omega arith) (omega arith) (omega arith)
        (omega arith) (omega arith) (omega arith) (omega arith);
  starts = refl;
  shape = window_kind-year y a b;
}
