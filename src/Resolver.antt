-- ===== src/Resolver.antt =====
-- backend/poseidon/core/parsing/customer_resolver.py: the three tiers of `resolve`. The casefolding,
-- the words that `\w+` finds and the score of `rapidfuzz` are parameters.
pub mod Order
pub mod Sound
pub mod Examples
use latest_poseidon.Prelude.{
  ℕ, ◌-◌, String, str_eq, Bool, true, false, not, ◌&&◌, ◌||◌, Option, none, some, List, [], ◌∷◌,
  map, length, take, leb, ltb, ◌==◌, if◌then◌else◌, codes, codes_le, sort_by, keep,
}

-- What the resolver calls. A score is a number on a scale that puts 0.80 at 800,000: the code
-- compares scores with one another and with its two thresholds, and does nothing else with them.
pub record TextTools : Type 0 where
  pub casefold : String → String
  pub words : String → List String
  pub score : String → String → ℕ

abbrev pub auto_apply_threshold : ℕ
auto_apply_threshold = 800000

abbrev pub candidate_threshold : ℕ
candidate_threshold = 600000

abbrev pub max_candidates : ℕ
max_candidates = 3

-- "exact", "token" and "fuzzy"
pub data Tier : Type 0 where
  exact token fuzzy : Tier

-- `ResolvedEntity`; the confidence is on the scale of the scores.
pub record ResolvedEntity : Type 0 where
  pub value : String
  pub source_text : String
  pub confidence : ℕ
  pub tier : Tier

-- The two issues, by what their messages say: of a tie also how many values the cap left out.
pub data Issue : Type 0 where
  customer_unknown : String → String → Issue
  customer_ambiguous : List String → ℕ → Issue

-- `Resolution`
pub record Resolution : Type 0 where
  pub entity : Option ResolvedEntity
  pub candidates : List String
  pub issue : Option Issue

-- `_resolved`
unfoldable pub resolved : String → String → ℕ → Tier → Resolution
resolved value phrase confidence tier = record {
  entity =
      some (record { value = value; source_text = phrase; confidence = confidence; tier = tier });
  candidates = [];
  issue = none;
}

-- `_unknown`
unfoldable pub unknown : String → String → Resolution
unknown phrase kind = record {
  entity = none;
  candidates = [];
  issue = some (customer_unknown kind phrase);
}

-- `_candidates`
unfoldable pub suggest : List (ℕ × String) → Resolution
suggest scored =
    let above_floor = map (λ p. p.1) (keep (λ p. leb candidate_threshold p.0) scored) in
    let top = take max_candidates above_floor in
    record { entity = none; candidates = top; issue = some (customer_ambiguous top 0) }

-- `a <= b` on texts.
abbrev pub text_le : String → String → Bool
text_le a b = codes_le (codes a) (codes b)

-- The order of the key `(-score, value)`.
unfoldable pub ranks_before : ℕ × String → ℕ × String → Bool
ranks_before (s, v) (t, w) = if ltb t s then true else if s == t then text_le v w else false

abbrev pub member : String → List String → Bool
member x [] = false
member x (y ∷ ys) = str_eq x y || member x ys

abbrev pub all_in : List String → List String → Bool
all_in [] ys = true
all_in (x ∷ xs) ys = member x ys && all_in xs ys

-- Equality of two `frozenset`s.
unfoldable pub same_set : List String → List String → Bool
same_set xs ys = all_in xs ys && all_in ys xs

-- More values share the best score than one: the tied ones, in their order, up to the cap.
unfoldable pub tie : List String → Resolution
tie tied =
    let top = take max_candidates tied in
    record {
      entity = none;
      candidates = top;
      issue = some (customer_ambiguous top (length tied - length top));
    }

-- The end of `resolve` where the best score is high enough to apply.
unfoldable pub apply_best :
    Bool → String → ℕ → String → List String → List (ℕ × String) → Resolution
apply_best auto_apply_fuzzy phrase best_score best_value tied scored =
    if length tied == 1
    then (if not auto_apply_fuzzy
        then suggest scored
        else resolved best_value phrase best_score fuzzy)
    else tie tied

-- The values that share a score.
unfoldable pub tied_at : ℕ → List (ℕ × String) → List String
tied_at best_score scored = map (λ p. p.1) (keep (λ p. p.0 == best_score) scored)

-- Tier 3, from the ranking.
unfoldable pub resolve_scored : Bool → String → String → List (ℕ × String) → Resolution
resolve_scored auto_apply_fuzzy phrase kind [] = unknown phrase kind
resolve_scored auto_apply_fuzzy phrase kind (best ∷ rest) =
    let scored = best ∷ rest in
    if leb auto_apply_threshold best.0
    then apply_best auto_apply_fuzzy phrase best.0 best.1 (tied_at best.0 scored) scored
    else if leb candidate_threshold best.0
    then suggest scored
    else unknown phrase kind

-- A tier that resolves to the first match, or leaves it to the next.
abbrev pub first_match : List String → String → Tier → Resolution → Resolution
first_match [] phrase tier otherwise = otherwise
first_match (v ∷ matches) phrase tier otherwise = resolved v phrase 1000000 tier

module _ (t : TextTools) where
  -- `_token_set`
  unfoldable pub token_set : String → List String
  token_set value = t.words (t.casefold value)

  unfoldable pub is_exact : String → String → Bool
  is_exact phrase value = str_eq (t.casefold value) (t.casefold phrase)

  unfoldable pub is_token : String → String → Bool
  is_token phrase value = same_set (token_set value) (t.words (t.casefold phrase))

  unfoldable pub exact_matches : String → List String → List String
  exact_matches phrase values = sort_by text_le (keep (is_exact phrase) values)

  unfoldable pub token_matches : String → List String → List String
  token_matches phrase values = sort_by text_le (keep (is_token phrase) values)

  unfoldable pub ranking : String → List String → List (ℕ × String)
  ranking phrase values =
      sort_by ranks_before
        (map (λ value. (t.score (t.casefold phrase) (t.casefold value), value)) values)

  -- `resolve`
  unfoldable pub resolve : String → List String → String → Bool → Resolution
  resolve phrase values kind auto_apply_fuzzy =
      first_match (exact_matches phrase values) phrase exact (
        first_match (token_matches phrase values) phrase token
          (resolve_scored auto_apply_fuzzy phrase kind (ranking phrase values)))
