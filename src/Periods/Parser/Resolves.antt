-- ===== src/Periods/Parser/Resolves.antt =====
-- What each period phrase resolves to.
use latest_poseidon.Prelude.{
  ℕ, ◌+◌, ◌-◌, ◌*◌, ◌≤◌, ◌<◌, ◌≡◌, refl, Option, none, some, Result, ok, String, true, false,
  lookup, lookup-All, inl, inr, Bool-cases, ◌==◌, ◌&&◌, ◌>>=◌, arith,
}
use latest_poseidon.Calendar.{Date, Error, IsDate, date_lt, max_year}
use latest_poseidon.Calendar.Order.{days_in_month_bounds}
use latest_poseidon.Periods.Windows.{
  PeriodWindow, IsWindow, WindowKind, month, quarter, year, ytd, Resolved, period_window,
  ytd_window,
}
use latest_poseidon.Periods.Windows.Kinds.{
  Builds, first_of, first_of-date, month_window-Builds, quarter_window-Builds, year_window-Builds,
}
use latest_poseidon.Periods.Windows.Shifts.{HasKind, window_kind-HasKind}
use latest_poseidon.Periods.Parser.{
  Phrase, iso, month_year, quarter_year, year_to_date, prior_year, bare_month, bare_quarter,
  bare_year, months, month_of, SideParse, most_recent_year, resolve, phrase, ytd_phrase,
}

-- What `_PHRASE_RE` lets through: a month of the table, months 01 to 12, quarters 1 to 4 and years
-- 1900 to 2099.
abbrev pub IsYear : ℕ → Type 0
IsYear y = (1900 ≤ y) × (y ≤ 2099)

abbrev pub IsMonthName : String → Type 0
IsMonthName name = (m : ℕ) × (lookup name months ≡ some m)

abbrev pub IsPhrase : Phrase → Type 0
IsPhrase (iso y m) = IsYear y × (1 ≤ m) × (m ≤ 12)
IsPhrase (month_year name y) = IsMonthName name × IsYear y
IsPhrase (quarter_year q y) = (1 ≤ q) × (q ≤ 4) × IsYear y
IsPhrase year_to_date = Unit
IsPhrase prior_year = Unit
IsPhrase (bare_month name) = IsMonthName name
IsPhrase (bare_quarter q) = (1 ≤ q) × (q ≤ 4)
IsPhrase (bare_year y) = IsYear y

-- A period that can be shifted back and carried: an accepted window, anchored as its kind demands,
-- in the years from `first` to 9998.
pub record IsPeriod (first : ℕ) (r : Resolved) : Type 0 where
  pub valid : IsWindow r.window
  pub anchor : HasKind r.kind r.window
  pub late : first ≤ r.window.start.year
  pub early : r.window.start.year < max_year

abbrev pub IsPeriod? : ℕ → Option Resolved → Type 0
IsPeriod? first none = Unit
IsPeriod? first (some r) = IsPeriod first r

-- A reference date that leaves room for the year before it and the year after it.
pub record IsReference (d : Date) : Type 0 where
  pub valid : IsDate d
  pub late : 3 ≤ d.year
  pub early : d.year < max_year

pub record ResolvesTo (r : Result Error SideParse) : Type 0 where
  pub found : SideParse
  pub returns : r ≡ ok found
  pub is_period : IsPeriod? 2 found.resolved

pub months_bounds : (name : String) {m : ℕ} → lookup name months ≡ some m → (1 ≤ m) × (m ≤ 12)
months_bounds name h = lookup-All (λ m. (1 ≤ m) × (m ≤ 12)) name months (omega arith) h

-- The most recent occurrence: it has begun by the reference date, and the next one has not.
pub most_recent_year_lem :
    (m : ℕ) (d : Date)
    → IsDate d
    → 1 ≤ m
    → m ≤ 12
    → (most_recent_year m d * 12 + m ≤ d.year * 12 + d.month)
      × (d.year * 12 + d.month < (most_recent_year m d + 1) * 12 + m)
unfolding most_recent_year
most_recent_year_lem m d v a b = ground arith

Builds-IsPeriod :
    (k : WindowKind) (y m : ℕ) {r : Result Error PeriodWindow} (b : Builds k y m r)
    → 2 ≤ y
    → y < max_year
    → IsPeriod 2 (record { window = b.found; kind = k })
Builds-IsPeriod k y m b l e = record {
  valid = b.valid;
  anchor = window_kind-HasKind b.found k b.shape;
  late = ground (arith, b.starts);
  early = ground (arith, b.starts);
}

ytd_window-eq :
    (d : Date)
    → IsDate d
    → date_lt (first_of d.year 1) d ≡ true
    → ytd_window d ≡ ok (some (record { start = first_of d.year 1; end = d }))
unfolding ytd_window period_window date_lt
ytd_window-eq d v h = ground (arith, first_of-date d.year 1)

date_lt-first_of :
    (d : Date)
    → IsDate d
    → (d.month == 1 && d.day == 1) ≡ false
    → date_lt (first_of d.year 1) d ≡ true
unfolding date_lt
date_lt-first_of d v h = ground arith

-- From January 1 up to the reference date.
abbrev pub ytd_days : Date → PeriodWindow
ytd_days d = record { start = first_of d.year 1; end = d }

first_of-IsDate : (y m : ℕ) → 1 ≤ y → y ≤ max_year → 1 ≤ m → m ≤ 12 → IsDate (first_of y m)
first_of-IsDate y m a b c d = ground (arith, days_in_month_bounds y m)

ytd_days-IsPeriod :
    (d : Date)
    → IsReference d
    → date_lt (first_of d.year 1) d ≡ true
    → IsPeriod 2 (record { window = ytd_days d; kind = ytd })
ytd_days-IsPeriod d r lt =
    let v = r.valid in
    record {
      valid = record {
        start_date = first_of-IsDate d.year 1 v.year_low v.year_high (omega arith) (omega arith);
        end_date = v;
        ordered = lt;
      };
      anchor = (refl, refl, refl);
      late = omega (arith, r.late);
      early = r.early;
    }

-- Year to date: nothing on January 1, and otherwise the days from January 1 up to the reference.
ytd_window-resolves : (d : Date) → IsReference d → ResolvesTo (resolve year_to_date d)
unfolding resolve
ytd_window-resolves d r = elim (Bool-cases (d.month == 1 && d.day == 1)) [
  | inl t ↦ record { found = ytd_phrase none; returns = unfold ytd_window in rw t; is_period = tt }
  | inr f ↦
      let lt = date_lt-first_of d r.valid f in
      record {
        found = ytd_phrase (some (ytd_days d));
        returns = rw (ytd_window-eq d r.valid lt);
        is_period = ytd_days-IsPeriod d r lt;
      }
]

-- A builder of kind `k` followed by `_phrase`.
Builds-ResolvesTo :
    (k : WindowKind) (y m : ℕ) (r : Result Error PeriodWindow) (f : PeriodWindow → SideParse)
    → ((w : PeriodWindow) → (f w).resolved ≡ some (record { window = w; kind = k }))
    → 2 ≤ y
    → y < max_year
    → Builds k y m r
    → ResolvesTo (r >>= λ w. ok (f w))
Builds-ResolvesTo k y m r f h l e b = record {
  found = f b.found;
  returns = rw b.returns;
  is_period = rw (h b.found) (Builds-IsPeriod k y m b l e);
}

most_recent_year_bounds :
    (m : ℕ) (d : Date) → (d.year - 1 ≤ most_recent_year m d) × (most_recent_year m d ≤ d.year)
unfolding most_recent_year
most_recent_year_bounds m d = ground arith

month_of-eq : (name : String) {m : ℕ} → lookup name months ≡ some m → month_of name ≡ ok m
unfolding month_of
month_of-eq name h = rw (h, month_of)

-- A phrase that the pattern admits resolves, against a reference date with room on both sides, to a
-- period: no branch raises.
pub resolve-ResolvesTo :
    (p : Phrase) (d : Date) → IsPhrase p → IsReference d → ResolvesTo (resolve p d)
unfolding resolve
resolve-ResolvesTo (iso y m) d (h, a, b) r =
    Builds-ResolvesTo month y m _ (phrase month) (λ w. refl) (omega arith) (omega arith)
      (month_window-Builds y m (omega arith) (omega arith) a b)
resolve-ResolvesTo (month_year name y) d ((m, e), h) r =
    let bounds = months_bounds name e in
    rw (month_of-eq name e) (
      Builds-ResolvesTo month y m _ (phrase month) (λ w. refl) (omega arith) (omega arith)
        (month_window-Builds y m (omega arith) (omega arith) bounds.0 bounds.1))
resolve-ResolvesTo (quarter_year q y) d (a, b, h) r =
    Builds-ResolvesTo quarter y (3 * q - 2) _ (phrase quarter) (λ w. refl) (omega arith)
      (omega arith) (quarter_window-Builds y q (omega arith) (omega arith) a b)
resolve-ResolvesTo year_to_date d h r = ytd_window-resolves d r
resolve-ResolvesTo prior_year d h r =
    let late = r.late in
    let early = r.early in
    Builds-ResolvesTo year (d.year - 1) 1 _
      (λ w. record (phrase year w) { prior_year_relative = true }) (λ w. refl) (omega arith)
      (omega arith) (year_window-Builds (d.year - 1) (omega arith) (omega arith))
resolve-ResolvesTo (bare_month name) d (m, e) r =
    let bounds = months_bounds name e in
    let years = most_recent_year_bounds m d in
    let late = r.late in
    let early = r.early in
    rw (month_of-eq name e) (
      Builds-ResolvesTo month (most_recent_year m d) m _ (phrase month) (λ w. refl) (omega arith)
        (omega arith)
        (month_window-Builds (most_recent_year m d) m (omega arith) (omega arith) bounds.0
          bounds.1))
resolve-ResolvesTo (bare_quarter q) d (a, b) r =
    let years = most_recent_year_bounds (3 * q - 2) d in
    let late = r.late in
    let early = r.early in
    Builds-ResolvesTo quarter (most_recent_year (3 * q - 2) d) (3 * q - 2) _ (phrase quarter)
      (λ w. refl) (omega arith) (omega arith)
      (quarter_window-Builds (most_recent_year (3 * q - 2) d) q (omega arith) (omega arith) a b)
resolve-ResolvesTo (bare_year y) d h r =
    Builds-ResolvesTo year y 1 _ (phrase year) (λ w. refl) (omega arith) (omega arith)
      (year_window-Builds y (omega arith) (omega arith))
