-- ===== src/Calendar/Order.antt =====
-- The order of dates, and the dates that the constructor accepts.
use latest_poseidon.Prelude.{ℕ, ◌+◌, ◌≤◌, ◌<◌, ◌≡◌, ◌⊎◌, true, false, ok, arith}
use latest_poseidon.Calendar.{Date, IsDate, date, date_lt, date_eq, days_in_month, next_day}

-- What `date_lt` says, by the fields.
abbrev pub Before : Date → Date → Type 0
Before a b =
    (a.year < b.year)
    ⊎ (((a.year ≡ b.year) × (a.month < b.month))
        ⊎ ((a.year ≡ b.year) × (a.month ≡ b.month) × (a.day < b.day)))

pub Before-date_lt : (a b : Date) → Before a b → date_lt a b ≡ true
unfolding date_lt
Before-date_lt a b h = ground arith

pub date_lt-Before : (a b : Date) → date_lt a b ≡ true → Before a b
unfolding date_lt
date_lt-Before a b h = ground arith

pub date_lt_trans : (a b c : Date) → date_lt a b ≡ true → date_lt b c ≡ true → date_lt a c ≡ true
unfolding date_lt
date_lt_trans a b c h k = ground arith

pub date_lt_irrefl : (a : Date) → date_lt a a ≡ false
unfolding date_lt
date_lt_irrefl a = ground arith

pub date_eq-eq : (a b : Date) → date_eq a b ≡ true → a ≡ b
unfolding date_eq
date_eq-eq a b h = ground arith

pub date_eq_refl : (a : Date) → date_eq a a ≡ true
unfolding date_eq
date_eq_refl a = ground arith

pub date_lt_total : (a b : Date) → date_lt a b ≡ false → date_eq a b ≡ false → date_lt b a ≡ true
unfolding date_lt date_eq
date_lt_total a b h k = ground arith

pub days_in_month_bounds : (y m : ℕ) → (28 ≤ days_in_month y m) × (days_in_month y m ≤ 31)
unfolding days_in_month
days_in_month_bounds y m = ground arith

pub date-IsDate : (y m d : ℕ) {r : Date} → date y m d ≡ ok r → IsDate r
unfolding date
date-IsDate y m d h = ground arith

-- On the fields of a valid date the constructor gives it back.
pub IsDate-date : (d : Date) → IsDate d → date d.year d.month d.day ≡ ok d
unfolding date
IsDate-date d v = ground arith

pub next_day-IsDate : (d : Date) {e : Date} → IsDate d → next_day d ≡ ok e → IsDate e
unfolding next_day
next_day-IsDate d {e} v h =
    ground (arith, days_in_month_bounds d.year (d.month + 1), days_in_month_bounds (d.year + 1) 1)

pub date_lt-next_day : (d : Date) {e : Date} → next_day d ≡ ok e → date_lt d e ≡ true
unfolding next_day date_lt
date_lt-next_day d h = ground arith
