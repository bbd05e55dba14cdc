-- ===== src/Resolver/Order.antt =====
-- The resolution of a phrase does not depend on the order of the certified values.
use latest_poseidon.Prelude.{
  ℕ, ◌≡◌, ap₂, String, Bool, true, false, List, arith, codes, codes_le_total, codes_le_trans,
  codes_le_antisym, Permᴰ, keep-Perm, sort_by-Perm,
}
use mathlib.Core.List.Permᴰ as Permᴰ
use latest_poseidon.Resolver.{
  TextTools, text_le, ranks_before, is_exact, is_token, exact_matches, token_matches, ranking,
  first_match, exact, token, resolve_scored, resolve,
}

text_le-total : (a b : String) → text_le a b ≡ false → text_le b a ≡ true
text_le-total a b = codes_le_total (codes a) (codes b)

text_le-transitive : (a b c : String) → text_le a b ≡ true → text_le b c ≡ true → text_le a c ≡ true
text_le-transitive a b c = codes_le_trans (codes a) (codes b) (codes c)

pub ranks_before-total : (p q : ℕ × String) → ranks_before p q ≡ false → ranks_before q p ≡ true
unfolding ranks_before
ranks_before-total p q h = ground (arith, text_le-total p.1 q.1)

pub ranks_before-transitive :
    (p q r : ℕ × String)
    → ranks_before p q ≡ true
    → ranks_before q r ≡ true
    → ranks_before p r ≡ true
unfolding ranks_before
ranks_before-transitive p q r h k = ground (arith, text_le-transitive p.1 q.1 r.1)

ranks_before-antisymmetric :
    (p q : ℕ × String) → ranks_before p q ≡ true → ranks_before q p ≡ true → p ≡ q
unfolding ranks_before
ranks_before-antisymmetric (s, v) (t, w) h k =
    let e : s ≡ t = ground arith in
    ap₂ (λ x y. (x, y)) e (codes_le_antisym v w (ground arith) (ground arith))

module _ (t : TextTools) (phrase : String) {xs ys : List String} (reordered : Permᴰ xs ys) where
  exact_same : exact_matches t phrase xs ≡ exact_matches t phrase ys
  unfolding exact_matches
  exact_same =
      sort_by-Perm text_le text_le-total text_le-transitive codes_le_antisym
        (keep-Perm (is_exact t phrase) reordered)

  token_same : token_matches t phrase xs ≡ token_matches t phrase ys
  unfolding token_matches
  token_same =
      sort_by-Perm text_le text_le-total text_le-transitive codes_le_antisym
        (keep-Perm (is_token t phrase) reordered)

  ranking_same : ranking t phrase xs ≡ ranking t phrase ys
  unfolding ranking
  ranking_same =
      sort_by-Perm ranks_before ranks_before-total ranks_before-transitive
        ranks_before-antisymmetric
        (Permᴰ.map (λ value. (t.score (t.casefold phrase) (t.casefold value), value)) reordered)

-- Two lists of the same values, in whatever order, resolve every phrase alike: the same entity, tier,
-- candidates and issue, ties between equally scored values included.
pub resolve-Perm :
    (t : TextTools) (phrase : String) {xs ys : List String}
    → Permᴰ xs ys
    → (kind : String) (auto_apply_fuzzy : Bool)
    → resolve t phrase xs kind auto_apply_fuzzy ≡ resolve t phrase ys kind auto_apply_fuzzy
unfolding resolve
resolve-Perm t phrase r kind auto_apply_fuzzy = λ i.
    first_match (exact_same t phrase r i) phrase exact (
      first_match (token_same t phrase r i) phrase token
        (resolve_scored auto_apply_fuzzy phrase kind (ranking_same t phrase r i)))
