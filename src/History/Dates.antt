-- ===== src/History/Dates.antt =====
-- Dates as ISO text: `date.isoformat` and `date.fromisoformat` of Python, of the form YYYY-MM-DD.
use Prim.Native.Char.{Char, code, nul}
use latest_poseidon.Prelude.{
  ℕ, zero, suc, ◌+◌, ◌-◌, ◌*◌, ◌/◌, ◌%◌, ◌<◌, ◌≤◌, ◌≡◌, refl, ap, ◌∙◌, String, ◌&&◌, Option, none,
  some, Result, ok, err, leb, ◌==◌, if◌then◌else◌, arith,
}
use latest_poseidon.Calendar.{Date, Error, value_error, date, days_in_month}
use latest_poseidon.Calendar.Order.{date-IsDate}

abbrev pub nth : String → ℕ → Char
nth String.[] i = nul
nth (String.◌∷◌ c s) zero = c
nth (String.◌∷◌ c s) (suc i) = nth s i

-- The digit of a number below 10.
unfoldable pub digit : ℕ → Char
digit i = nth "0123456789" i

abbrev pub dash : Char
dash = "-"

-- d.isoformat(): YYYY-MM-DD.
unfoldable pub isoformat : Date → String
isoformat d = String.◌∷◌ (digit (d.year / 1000)) (
    String.◌∷◌ (digit (d.year / 100 % 10)) (
      String.◌∷◌ (digit (d.year / 10 % 10)) (
        String.◌∷◌ (digit (d.year % 10)) (
          String.◌∷◌ dash (
            String.◌∷◌ (digit (d.month / 10)) (
              String.◌∷◌ (digit (d.month % 10)) (
                String.◌∷◌ dash (
                  String.◌∷◌ (digit (d.day / 10))
                    (String.◌∷◌ (digit (d.day % 10)) String.[])))))))))

abbrev pub digit_value : Char → Option ℕ
digit_value c = if leb 48 (code c) && leb (code c) 57 then some (code c - 48) else none

-- The value with one digit more, if it is one.
abbrev pub with_digit : Option ℕ → ℕ → (ℕ → Option (ℕ × String)) → Option (ℕ × String)
with_digit none n next = none
with_digit (some v) n next = next (n * 10 + v)

-- A number of digits, from the value that those before it have.
unfoldable pub read_number : ℕ → ℕ → String → Option (ℕ × String)
read_number zero n s = some (n, s)
read_number (suc k) n String.[] = none
read_number (suc k) n (String.◌∷◌ c s) = with_digit (digit_value c) n (λ m. read_number k m s)

abbrev pub read_dash : Option (ℕ × String) → Option (ℕ × String)
read_dash (some (n, String.◌∷◌ c s)) = if code c == 45 then some (n, s) else none
read_dash other = none

abbrev pub read_end : Option (ℕ × String) → Option ℕ
read_end (some (n, String.[])) = some n
read_end other = none

abbrev pub read_day : ℕ → ℕ → Option ℕ → Result Error Date
read_day y m none = err value_error
read_day y m (some d) = date y m d

abbrev pub read_month : ℕ → Option (ℕ × String) → Result Error Date
read_month y none = err value_error
read_month y (some (m, s)) = read_day y m (read_end (read_number 2 0 s))

abbrev pub read_year : Option (ℕ × String) → Result Error Date
read_year none = err value_error
read_year (some (y, s)) = read_month y (read_dash (read_number 2 0 s))

-- date.fromisoformat(s), of the form that `isoformat` writes.
unfoldable pub fromisoformat : String → Result Error Date
fromisoformat s = read_year (read_dash (read_number 4 0 s))

digit-value : (i : ℕ) → i < 10 → digit_value (digit i) ≡ some i
unfolding digit
digit-value zero h = refl
digit-value (suc zero) h = refl
digit-value (suc (suc zero)) h = refl
digit-value (suc (suc (suc zero))) h = refl
digit-value (suc (suc (suc (suc zero)))) h = refl
digit-value (suc (suc (suc (suc (suc zero))))) h = refl
digit-value (suc (suc (suc (suc (suc (suc zero)))))) h = refl
digit-value (suc (suc (suc (suc (suc (suc (suc zero))))))) h = refl
digit-value (suc (suc (suc (suc (suc (suc (suc (suc zero)))))))) h = refl
digit-value (suc (suc (suc (suc (suc (suc (suc (suc (suc zero))))))))) h = refl
digit-value (suc (suc (suc (suc (suc (suc (suc (suc (suc (suc n)))))))))) h =
    absurd (omega (arith, h))

read_number-digit :
    (k n i : ℕ) (s : String)
    → i < 10
    → read_number (suc k) n (String.◌∷◌ (digit i) s) ≡ read_number k (n * 10 + i) s
unfolding read_number
read_number-digit k n i s h = ap (λ o. with_digit o n (λ m. read_number k m s)) (digit-value i h)

read_number_done : (n m : ℕ) (s : String) → n ≡ m → read_number 0 n s ≡ some (m, s)
unfolding read_number
read_number_done n m s e = ap (λ k. some (k, s)) e

read_number_two :
    (n : ℕ) (s : String)
    → n < 100
    → read_number 2 0 (String.◌∷◌ (digit (n / 10)) (String.◌∷◌ (digit (n % 10)) s)) ≡ some (n, s)
read_number_two n s h =
    read_number-digit 1 0 (n / 10) _ (omega (arith, h))
    ∙ read_number-digit 0 _ (n % 10) s (omega arith)
    ∙ read_number_done _ n s (omega (arith, h))

read_number_four :
    (n : ℕ) (s : String)
    → n < 10000
    → read_number 4 0 (
        String.◌∷◌ (digit (n / 1000)) (
          String.◌∷◌
            (digit (n / 100 % 10))
            (String.◌∷◌ (digit (n / 10 % 10)) (String.◌∷◌ (digit (n % 10)) s))))
      ≡ some (n, s)
read_number_four n s h =
    read_number-digit 3 0 (n / 1000) _ (omega (arith, h))
    ∙ read_number-digit 2 _ (n / 100 % 10) _ (omega arith)
    ∙ read_number-digit 1 _ (n / 10 % 10) _ (omega arith)
    ∙ read_number-digit 0 _ (n % 10) s (omega arith)
    ∙ read_number_done _ n s (omega (arith, h))

days_bound : (y m : ℕ) → days_in_month y m ≤ 31
unfolding days_in_month
days_bound y m = ground arith

pub fromisoformat-isoformat :
    (d : Date) → date d.year d.month d.day ≡ ok d → fromisoformat (isoformat d) ≡ ok d
unfolding fromisoformat isoformat
fromisoformat-isoformat d h =
    let v = date-IsDate d.year d.month d.day h in
    ap (λ o. read_year (read_dash o)) (read_number_four d.year _ (omega (arith, v.year_high)))
    ∙ ap (λ o. read_month d.year (read_dash o))
        (read_number_two d.month _ (omega (arith, v.month_high)))
    ∙ ap (λ o. read_day d.year d.month (read_end o))
        (read_number_two d.day _ (omega (arith, v.day_high, days_bound d.year d.month)))
    ∙ h
