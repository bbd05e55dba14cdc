-- ===== src/Periods/Examples.antt =====
-- Tests of the period parser, and its theorems at concrete inputs.
use latest_poseidon.Prelude.{
  ◌↔◌, false, ℕ, ◌≡◌, refl, true, false, none, some, List, [], ◌∷◌, ok, arith, lookup,
}
use latest_poseidon.Calendar.{Date, IsDate, date, days_in_month, is_leap, date_lt, next_day}
use latest_poseidon.Slots.{empty_slots}
use latest_poseidon.Periods.Windows.{
  PeriodWindow, IsWindow, day_range, Resolved, month_window, add_months, period_window, year_window,
  shift_back_one_year,
}
use latest_poseidon.Periods.Windows.Shifts.{ShiftsBack, shift_back_one_year-ShiftsBack}
use latest_poseidon.Periods.Parser.{
  month_year, prior_year, Match, resolve, PeriodRange, text, PeriodParse, parse_periods, parse_side,
  is_skipped, month_of, right_side, or_carry, comparison, find_issue, first_issue,
  availability_issue, window_issue,
}
use latest_poseidon.Periods.Parser.Resolves.{IsReference, IsMonthName}
use latest_poseidon.Periods.Parser.Total.{AreMatches, HasSlots, Parses, parse_periods-Parses}
use latest_poseidon.Periods.Parser.Available.{IsSharedDay, window_issue_iff}
use latest_poseidon.Periods.Parser.Sources.{Agrees, parse_periods-Agrees}

abbrev day : ℕ → ℕ → ℕ → Date
day y m d = record { year = y; month = m; day = d }

abbrev june_15 : Date
june_15 = day 2025 6 15

june_15-IsDate : IsDate june_15
unfolding days_in_month
june_15-IsDate = omega arith

abbrev january : Date
january = day 2024 1 1

january-IsDate : IsDate january
unfolding days_in_month
january-IsDate = omega arith

june_15-IsReference : IsReference june_15
june_15-IsReference = record { valid = june_15-IsDate; late = omega arith; early = omega arith }

-- "march 2025 vs last year"
abbrev march_2025 : List Match
march_2025 = record { phrase = month_year "march" 2025; opens_side = false; preceding = "in" } ∷ []

abbrev last_year : List Match
last_year = record { phrase = prior_year; opens_side = true; preceding = "" } ∷ []

abbrev all_data : PeriodRange
all_data = record { start = some january; end = some june_15 }

march_name : IsMonthName "march"
unfolding lookup
march_name = (3, refl)

march_2025-AreMatches : AreMatches march_2025
march_2025-AreMatches = ((march_name, (omega arith, omega arith)), tt)

empty-HasSlots : HasSlots empty_slots
empty-HasSlots = record { slot_a = tt; slot_b = tt }

abbrev march : PeriodWindow
march = record { start = day 2025 3 1; end = day 2025 4 1 }

abbrev prior_march : PeriodWindow
prior_march = record { start = day 2024 3 1; end = day 2024 4 1 }

abbrev march_parse : PeriodParse
march_parse = record {
  period_a = some march;
  period_b = some prior_march;
  a_source = text;
  b_source = text;
  issue = none;
}

march_parse-eq :
    parse_periods march_2025 (some last_year) empty_slots june_15 all_data ≡ ok march_parse
unfolding parse_periods parse_side is_skipped resolve month_of lookup month_window date
    days_in_month add_months period_window date_lt right_side year_window or_carry comparison
    shift_back_one_year find_issue first_issue availability_issue window_issue next_day
march_parse-eq = refl

parse_periods-Parses_example :
    Parses (parse_periods march_2025 (some last_year) empty_slots june_15 all_data)
parse_periods-Parses_example =
    parse_periods-Parses march_2025 (some last_year) empty_slots june_15 all_data
      march_2025-AreMatches (tt, tt) empty-HasSlots june_15-IsReference
      (june_15-IsDate, omega arith)

parse_periods-Agrees_example : Agrees march_parse.period_a text × Agrees march_parse.period_b text
parse_periods-Agrees_example =
    parse_periods-Agrees march_2025 (some last_year) empty_slots june_15 all_data march_parse-eq

-- Two days around February 29.
abbrev leap_days : PeriodWindow
leap_days = record { start = day 2024 2 28; end = day 2024 3 1 }

leap_days-IsWindow : IsWindow leap_days
unfolding days_in_month is_leap date_lt
leap_days-IsWindow = record { start_date = omega arith; end_date = omega arith; ordered = refl }

abbrev leap_range : Resolved
leap_range = record { window = leap_days; kind = day_range }

shift_back_one_year-ShiftsBack_example : ShiftsBack leap_range (shift_back_one_year leap_range)
shift_back_one_year-ShiftsBack_example =
    shift_back_one_year-ShiftsBack leap_range leap_days-IsWindow tt (omega arith)

-- A window that begins before the data and ends within it.
abbrev half_year : PeriodWindow
half_year = record { start = day 2023 10 1; end = day 2024 4 1 }

half_year-IsWindow : IsWindow half_year
unfolding days_in_month is_leap date_lt
half_year-IsWindow = record { start_date = omega arith; end_date = omega arith; ordered = refl }

january_before_june : date_lt june_15 january ≡ false
unfolding date_lt
january_before_june = refl

june_16 : next_day june_15 ≡ ok (day 2025 6 16)
unfolding next_day days_in_month is_leap
june_16 = refl

window_issue_iff_example :
    (window_issue half_year (some january) (some june_15) ≡ ok none)
    ↔ ((d : Date) × IsSharedDay half_year january june_15 d)
window_issue_iff_example =
    window_issue_iff half_year january june_15 (day 2025 6 16) half_year-IsWindow january-IsDate
      june_15-IsDate january_before_june june_16
