-- ===== src/Calendar.antt =====
-- The part of Python's `datetime` and `calendar` that the periods code uses: `date`, its order,
-- `calendar.monthrange(y, m)[1]` and the moves by one day that `timedelta(days=1)` makes.
pub mod Order
use latest_poseidon.Prelude.{
  ℕ, ◌+◌, ◌-◌, ◌%◌, ◌≤◌, ◌≡◌, Bool, true, false, not, ◌&&◌, ◌||◌, Result, ok, err, leb, ltb, ◌==◌,
  if◌then◌else◌,
}

pub record Date : Type 0 where
  pub year : ℕ
  pub month : ℕ
  pub day : ℕ

-- What the code may raise: a bad date or an empty window, a date out of range, a missing key, a field
-- of `None`.
pub data Error : Type 0 where
  value_error overflow_error key_error attribute_error : Error

abbrev pub min_year : ℕ
min_year = 1

abbrev pub max_year : ℕ
max_year = 9999

unfoldable pub is_leap : ℕ → Bool
is_leap y = y % 4 == 0 && (not (y % 100 == 0) || y % 400 == 0)

-- calendar.monthrange(year, month)[1]
unfoldable pub days_in_month : ℕ → ℕ → ℕ
days_in_month y m =
    if m == 2
    then (if is_leap y then 29 else 28)
    else if m == 4 || (m == 6 || (m == 9 || m == 11))
    then 30
    else 31

-- date(year, month, day)
unfoldable pub date : ℕ → ℕ → ℕ → Result Error Date
date y m d =
    if leb min_year y
      && (leb y max_year && (leb 1 m && (leb m 12 && (leb 1 d && leb d (days_in_month y m)))))
    then ok (record { year = y; month = m; day = d })
    else err value_error

-- a < b and a == b on dates
unfoldable pub date_lt : Date → Date → Bool
date_lt a b =
    ltb a.year b.year
    || (a.year == b.year && (ltb a.month b.month || (a.month == b.month && ltb a.day b.day)))

unfoldable pub date_eq : Date → Date → Bool
date_eq a b = a.year == b.year && (a.month == b.month && a.day == b.day)

-- d + timedelta(days=1)
unfoldable pub next_day : Date → Result Error Date
next_day d =
    if ltb d.day (days_in_month d.year d.month)
    then ok (record d { day = d.day + 1 })
    else if ltb d.month 12
    then ok (record { year = d.year; month = d.month + 1; day = 1 })
    else if ltb d.year max_year
    then ok (record { year = d.year + 1; month = 1; day = 1 })
    else err overflow_error

-- d - timedelta(days=1)
unfoldable pub previous_day : Date → Result Error Date
previous_day d =
    if ltb 1 d.day
    then ok (record d { day = d.day - 1 })
    else if ltb 1 d.month
    then ok
        (record { year = d.year; month = d.month - 1; day = days_in_month d.year (d.month - 1) })
    else if ltb min_year d.year
    then ok (record { year = d.year - 1; month = 12; day = 31 })
    else err overflow_error

-- A date that `date` accepts.
pub record IsDate (d : Date) : Type 0 where
  pub year_low : min_year ≤ d.year
  pub year_high : d.year ≤ max_year
  pub month_low : 1 ≤ d.month
  pub month_high : d.month ≤ 12
  pub day_low : 1 ≤ d.day
  pub day_high : d.day ≤ days_in_month d.year d.month
