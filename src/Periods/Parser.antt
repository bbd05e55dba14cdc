-- ===== src/Periods/Parser.antt =====
-- backend/poseidon/core/parsing/period_parser.py. The text is read through `re`: the matches of
-- `_PHRASE_RE` on a side of the comparison, in order, and what stands before each. Which phrase
-- counts, what it resolves to, the carry, the shift and the issue are the code's own, and are here.
pub mod Resolves
pub mod Total
pub mod Sources
pub mod Available
use latest_poseidon.Prelude.{
  ℕ, ◌+◌, ◌-◌, ◌*◌, ◌≡◌, String, str_eq, lookup, Bool, true, false, not, ◌&&◌, ◌||◌, Option, none,
  some, List, [], ◌∷◌, Result, ok, err, ◌>>=◌, leb, if◌then◌else◌,
}
use latest_poseidon.Calendar.{Date, Error, key_error, date_lt, next_day}
use latest_poseidon.Slots.{ConversationSlots}
use latest_poseidon.Periods.Windows.{
  PeriodWindow, WindowKind, month, quarter, year, ytd, Resolved, month_window, quarter_window,
  year_window, ytd_window, window_kind, slot_window, shift_back_one_year,
}

-- The alternatives of `_PHRASE_RE`, with the text of their groups read as numbers where the pattern
-- admits digits only.
pub data Phrase : Type 0 where
  iso : ℕ → ℕ → Phrase
  month_year : String → ℕ → Phrase
  quarter_year : ℕ → ℕ → Phrase
  year_to_date : Phrase
  prior_year : Phrase
  bare_month : String → Phrase
  bare_quarter : ℕ → Phrase
  bare_year : ℕ → Phrase

-- A match: its groups, whether only white space stands before it, and the word before it
-- (`_preceding_word`, the empty text if there is none).
pub record Match : Type 0 where
  pub phrase : Phrase
  pub opens_side : Bool
  pub preceding : String

-- `_MONTHS`
abbrev pub months : List (String × ℕ)
months =
    ("january", 1)
    ∷ ("jan", 1)
    ∷ ("february", 2)
    ∷ ("feb", 2)
    ∷ ("march", 3)
    ∷ ("mar", 3)
    ∷ ("april", 4)
    ∷ ("apr", 4)
    ∷ ("may", 5)
    ∷ ("june", 6)
    ∷ ("jun", 6)
    ∷ ("july", 7)
    ∷ ("jul", 7)
    ∷ ("august", 8)
    ∷ ("aug", 8)
    ∷ ("september", 9)
    ∷ ("sept", 9)
    ∷ ("sep", 9)
    ∷ ("october", 10)
    ∷ ("oct", 10)
    ∷ ("november", 11)
    ∷ ("nov", 11)
    ∷ ("december", 12)
    ∷ ("dec", 12)
    ∷ []

-- `_MONTHS[name]`
unfoldable pub month_of : String → Result Error ℕ
month_of name = elim (lookup name months) [ none ↦ err key_error | some m ↦ ok m ]

-- AMBIGUOUS_BARE_MONTHS
unfoldable pub is_ambiguous : String → Bool
is_ambiguous name = str_eq name "may"

-- _BARE_MONTH_PREPOSITIONS
unfoldable pub is_preposition : String → Bool
is_preposition word =
    str_eq word "in"
    || (str_eq word "for"
        || (str_eq word "during"
            || (str_eq word "of" || (str_eq word "since" || str_eq word "through"))))

-- `_bare_month_is_gated_out`
unfoldable pub bare_month_is_gated_out : Bool → String → Bool → String → Bool
bare_month_is_gated_out after_connective name opens_side preceding =
    if not (is_ambiguous name)
    then false
    else if after_connective && opens_side
    then false
    else not (is_preposition preceding)

-- `_SideParse`
pub record SideParse : Type 0 where
  pub resolved : Option Resolved
  pub matched : Bool
  pub prior_year_relative : Bool
  pub ytd_unavailable : Bool

abbrev pub no_phrase : SideParse
no_phrase = record {
  resolved = none;
  matched = false;
  prior_year_relative = false;
  ytd_unavailable = false;
}

-- `_phrase`
abbrev pub phrase : WindowKind → PeriodWindow → SideParse
phrase k w = record {
  resolved = some (record { window = w; kind = k });
  matched = true;
  prior_year_relative = false;
  ytd_unavailable = false;
}

-- `_most_recent_year`
unfoldable pub most_recent_year : ℕ → Date → ℕ
most_recent_year start_month reference =
    if leb start_month reference.month then reference.year else reference.year - 1

-- The year-to-date branch of `_resolve`.
abbrev pub ytd_phrase : Option PeriodWindow → SideParse
ytd_phrase none = record {
  resolved = none;
  matched = true;
  prior_year_relative = false;
  ytd_unavailable = true;
}
ytd_phrase (some w) = phrase ytd w

-- `_resolve`
unfoldable pub resolve : Phrase → Date → Result Error SideParse
resolve (iso y m) reference = do w ← month_window y m; ok (phrase month w)
resolve (month_year name y) reference = do
  m ← month_of name
  w ← month_window y m
  ok (phrase month w)
resolve (quarter_year q y) reference = do w ← quarter_window y q; ok (phrase quarter w)
resolve year_to_date reference = do w ← ytd_window reference; ok (ytd_phrase w)
resolve prior_year reference = do
  w ← year_window (reference.year - 1)
  ok (record (phrase year w) { prior_year_relative = true })
resolve (bare_month name) reference = do
  m ← month_of name
  w ← month_window (most_recent_year m reference) m
  ok (phrase month w)
resolve (bare_quarter q) reference = do
  w ← quarter_window (most_recent_year (3 * q - 2) reference) q
  ok (phrase quarter w)
resolve (bare_year y) reference = do w ← year_window y; ok (phrase year w)

-- The test of the loop of `_parse_side`.
unfoldable pub is_skipped : Bool → Match → Bool
is_skipped after_connective m = elim m.phrase [
  | bare_month name ↦ bare_month_is_gated_out after_connective name m.opens_side m.preceding
  | _ ↦ false
]

-- `_parse_side`: the first match that is not gated out.
unfoldable pub parse_side : List Match → Date → Bool → Result Error SideParse
parse_side [] reference after_connective = ok no_phrase
parse_side (m ∷ rest) reference after_connective =
    if is_skipped after_connective m
    then parse_side rest reference after_connective
    else resolve m.phrase reference

-- `PeriodRange`: the first and the last date present.
pub record PeriodRange : Type 0 where
  pub start : Option Date
  pub end : Option Date

-- The three `period_unavailable` issues, by what their messages say.
pub data ParseIssue : Type 0 where
  ytd_at_year_start : ParseIssue
  no_periods : PeriodWindow → ParseIssue
  outside : PeriodWindow → Date → Date → ParseIssue

-- `_availability_issue`
unfoldable pub window_issue :
    PeriodWindow → Option Date → Option Date → Result Error (Option ParseIssue)
window_issue w (some first) (some last) = do
  end_exclusive ← next_day last
  ok (
      if date_lt w.start end_exclusive && date_lt first w.end
      then none
      else some (outside w first last))
window_issue w _ _ = ok (some (no_periods w))

unfoldable pub availability_issue : Option Resolved → PeriodRange → Result Error (Option ParseIssue)
availability_issue none available = ok none
availability_issue (some r) available = window_issue r.window available.start available.end

-- "text", "carry" and "none"
pub data Source : Type 0 where
  text carry absent : Source

pub record PeriodParse : Type 0 where
  pub period_a : Option PeriodWindow
  pub period_b : Option PeriodWindow
  pub a_source : Source
  pub b_source : Source
  pub issue : Option ParseIssue

abbrev pub text_source : Option Resolved → Source
text_source none = absent
text_source (some r) = text

abbrev pub window_of : Option Resolved → Option PeriodWindow
window_of none = none
window_of (some r) = some r.window

-- The window of a slot with its kind.
unfoldable pub carried_window : Date → Option Date → Result Error Resolved
carried_window start end = do
  w ← slot_window start end
  k ← window_kind w
  ok (record { window = w; kind = k })

-- A side's period: its phrase, or the slot's window where the side may carry and the slot is filled.
unfoldable pub or_carry :
    Option Resolved → Bool → Option Date → Option Date → Result Error (Option Resolved × Source)
or_carry resolved true (some start) end = do r ← carried_window start end; ok (some r, carry)
or_carry resolved _ _ end = ok (resolved, text_source resolved)

-- "vs last year" is the left period one year back.
unfoldable pub comparison : SideParse → Option Resolved → Result Error (Option Resolved)
comparison right none = ok right.resolved
comparison right (some a) =
    if right.prior_year_relative
    then (do b ← shift_back_one_year a; ok (some b))
    else ok right.resolved

abbrev pub is_none {ℓ} : {A : Type ℓ} → Option A → Bool
is_none none = true
is_none (some a) = false

-- `x or y` on two calls that may raise: the second is made only if the first gives nothing.
unfoldable pub first_issue :
    Result Error (Option ParseIssue)
    → Result Error (Option ParseIssue)
    → Result Error (Option ParseIssue)
first_issue (err e) y = err e
first_issue (ok (some i)) y = ok (some i)
first_issue (ok none) y = y

unfoldable pub find_issue :
    Bool → Option Resolved → Option Resolved → PeriodRange → Result Error (Option ParseIssue)
unfolding first_issue
find_issue true a b available = ok (some ytd_at_year_start)
find_issue false a b available =
    first_issue (availability_issue a available) (availability_issue b available)

-- The right side, if there is a comparison.
unfoldable pub right_side : Option (List Match) → Date → Result Error SideParse
right_side none reference = ok no_phrase
right_side (some matches) reference = parse_side matches reference true

-- `parse_periods` after the text is split: the matches of the whole text, or of the two sides.
unfoldable pub parse_periods :
    List Match
    → Option (List Match)
    → ConversationSlots
    → Date
    → PeriodRange
    → Result Error PeriodParse
parse_periods left_matches right_matches slots reference available = do
  left ← parse_side left_matches reference false
  right ← right_side right_matches reference
  (resolved_a, a_source) ←
      or_carry left.resolved (not left.matched) slots.period_a slots.period_a_end
  named_b ← comparison right resolved_a
  (resolved_b, b_source) ←
      or_carry named_b (is_none named_b && not left.matched) slots.period_b slots.period_b_end
  issue ← find_issue (left.ytd_unavailable || right.ytd_unavailable) resolved_a resolved_b available
  ok (record {
    period_a = window_of resolved_a;
    period_b = window_of resolved_b;
    a_source = a_source;
    b_source = b_source;
    issue = issue;
  })
