-- ===== src/History/Slots.antt =====
-- The slots of a conversation as JSON: `slots_to_json` and `slots_from_json`.
use latest_poseidon.Prelude.{
  ◌≡◌, refl, ap, String, Option, none, some, List, [], ◌∷◌, Result, ok, err, ◌>>=◌, lookup,
}
use latest_poseidon.Calendar.{Date, Error, value_error, date}
use latest_poseidon.Slots.{ConversationSlots}
use latest_poseidon.History.Dates.{isoformat, fromisoformat, fromisoformat-isoformat}

-- The values that the slots are stored as.
pub data Json : Type 0 where
  null : Json
  string : String → Json
  pair_list : List (String × String) → Json

abbrev pub Object : Type 0
Object = List (String × Json)

abbrev pub text_or_null : Option String → Json
text_or_null none = null
text_or_null (some s) = string s

abbrev pub date_or_null : Option Date → Json
date_or_null none = null
date_or_null (some d) = string (isoformat d)

-- `slots_to_json`
unfoldable pub slots_to_json : ConversationSlots → Object
slots_to_json slots =
    ("customer", text_or_null slots.customer)
    ∷ ("port", text_or_null slots.port)
    ∷ ("period_a", date_or_null slots.period_a)
    ∷ ("period_b", date_or_null slots.period_b)
    ∷ ("mode", string slots.mode)
    ∷ ("region", text_or_null slots.region)
    ∷ ("topic", text_or_null slots.topic)
    ∷ ("pass_through", pair_list slots.pass_through)
    ∷ ("period_a_end", date_or_null slots.period_a_end)
    ∷ ("period_b_end", date_or_null slots.period_b_end)
    ∷ ("perspective", text_or_null slots.perspective)
    ∷ ("office_column", text_or_null slots.office_column)
    ∷ ("office_value", text_or_null slots.office_value)
    ∷ ("report_ref", text_or_null slots.report_ref)
    ∷ ("report_label", text_or_null slots.report_label)
    ∷ []

-- raw.get(key), where a text or null is stored; a value of another type, which the code would keep, is
-- an error here.
abbrev pub text_of : Option Json → Result Error (Option String)
text_of none = ok none
text_of (some null) = ok none
text_of (some (string s)) = ok (some s)
text_of (some (pair_list l)) = err value_error

abbrev pub some_date : Result Error Date → Result Error (Option Date)
some_date (ok d) = ok (some d)
some_date (err e) = err e

-- `_iso_date`
abbrev pub iso_date : Option String → Result Error (Option Date)
iso_date none = ok none
iso_date (some s) = some_date (fromisoformat s)

abbrev pub date_of : Option Json → Result Error (Option Date)
date_of json = text_of json >>= iso_date

-- raw.get("mode", "default")
abbrev pub mode_of : Option Json → Result Error String
mode_of none = ok "default"
mode_of (some (string s)) = ok s
mode_of (some other) = err value_error

-- raw.get("pass_through", ())
abbrev pub pairs_of : Option Json → Result Error (List (String × String))
pairs_of none = ok []
pairs_of (some (pair_list l)) = ok l
pairs_of (some other) = err value_error

-- `slots_from_json`
unfoldable pub slots_from_json : Object → Result Error ConversationSlots
slots_from_json raw = do
  pass_through ← pairs_of (lookup "pass_through" raw)
  customer ← text_of (lookup "customer" raw)
  port ← text_of (lookup "port" raw)
  period_a ← date_of (lookup "period_a" raw)
  period_b ← date_of (lookup "period_b" raw)
  mode ← mode_of (lookup "mode" raw)
  region ← text_of (lookup "region" raw)
  topic ← text_of (lookup "topic" raw)
  period_a_end ← date_of (lookup "period_a_end" raw)
  period_b_end ← date_of (lookup "period_b_end" raw)
  perspective ← text_of (lookup "perspective" raw)
  office_column ← text_of (lookup "office_column" raw)
  office_value ← text_of (lookup "office_value" raw)
  report_ref ← text_of (lookup "report_ref" raw)
  report_label ← text_of (lookup "report_label" raw)
  ok (record {
    customer = customer;
    port = port;
    period_a = period_a;
    period_b = period_b;
    mode = mode;
    region = region;
    topic = topic;
    pass_through = pass_through;
    period_a_end = period_a_end;
    period_b_end = period_b_end;
    perspective = perspective;
    office_column = office_column;
    office_value = office_value;
    report_ref = report_ref;
    report_label = report_label;
  })

-- A date that Python's `date` can be.
abbrev pub IsPossible : Option Date → Type 0
IsPossible none = Unit {0}
IsPossible (some d) = date d.year d.month d.day ≡ ok d

text_of-text_or_null : (o : Option String) → text_of (some (text_or_null o)) ≡ ok o
text_of-text_or_null none = refl
text_of-text_or_null (some s) = refl

date_of-date_or_null : (o : Option Date) → IsPossible o → date_of (some (date_or_null o)) ≡ ok o
date_of-date_or_null none h = refl
date_of-date_or_null (some d) h = ap some_date (fromisoformat-isoformat d h)

-- Slots whose dates are possible.
pub record CanStore (slots : ConversationSlots) : Type 0 where
  pub has_a : IsPossible slots.period_a
  pub has_b : IsPossible slots.period_b
  pub has_a_end : IsPossible slots.period_a_end
  pub has_b_end : IsPossible slots.period_b_end

-- Slots that are stored are read back as they were, every field of them, the ordered pairs included. The
-- dates are ones that Python's `date` can be.
pub slots_from_json-slots_to_json :
    (slots : ConversationSlots) → CanStore slots → slots_from_json (slots_to_json slots) ≡ ok slots
unfolding slots_from_json slots_to_json lookup
slots_from_json-slots_to_json slots h = rw (
  text_of-text_or_null slots.customer,
  text_of-text_or_null slots.port,
  date_of-date_or_null slots.period_a h.has_a,
  date_of-date_or_null slots.period_b h.has_b,
  text_of-text_or_null slots.region,
  text_of-text_or_null slots.topic,
  date_of-date_or_null slots.period_a_end h.has_a_end,
  date_of-date_or_null slots.period_b_end h.has_b_end,
  text_of-text_or_null slots.perspective,
  text_of-text_or_null slots.office_column,
  text_of-text_or_null slots.office_value,
  text_of-text_or_null slots.report_ref,
  text_of-text_or_null slots.report_label,
)
