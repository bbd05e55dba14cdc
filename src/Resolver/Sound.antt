-- ===== src/Resolver/Sound.antt =====
-- What a resolution may claim: an independent description of the three tiers, and that `resolve` keeps
-- to it.
use latest_poseidon.Prelude.{
  ℕ, ◌≤◌, ◌<◌, ◌≡◌, refl, sym, String, Bool, true, false, not, Option, none, some, List, [], ◌∷◌,
  map, All, length, length-take, take, leb, ◌==◌, arith, if◌then◌else◌, inl, inr, Memᴰ, List-cases,
  All-Mem, All-map₂, All-weaken, All-at, LeadsAll, take-All, map-All, All-map, Mem-singleton, keep,
  keep-All, keep-passes, keep-Mem, keep-none, sort_by, sort_by-All, All-sort_by, sort_by-LeadsAll,
  subst,
}
use mathlib.Core.List.Memᴰ as Memᴰ
use latest_poseidon.Resolver.{
  TextTools, auto_apply_threshold, candidate_threshold, max_candidates, Tier, exact, token, fuzzy,
  ResolvedEntity, Issue, customer_unknown, customer_ambiguous, Resolution, resolved, unknown,
  suggest, text_le, ranks_before, tie, apply_best, tied_at, resolve_scored, first_match, is_exact,
  is_token, exact_matches, token_matches, ranking, resolve,
}
use latest_poseidon.Resolver.Order.{ranks_before-total, ranks_before-transitive}

module _ (t : TextTools) (phrase : String) (values : List String) (kind : String)
    (auto? : Bool) where
  abbrev pub score_of : String → ℕ
  score_of value = t.score (t.casefold phrase) (t.casefold value)

  -- No certified value passes a test.
  abbrev pub NoneIs : (String → Bool) → Type 0
  NoneIs p = (w : String) → Memᴰ w values → p w ≡ false

  -- A value that scores as well as any, and is the only one to score so.
  abbrev pub IsBest : String → Type 0
  IsBest v =
      (w : String) → Memᴰ w values → (score_of w ≤ score_of v) × (score_of w ≡ score_of v → w ≡ v)

  -- What each tier may apply.
  abbrev pub IsTier : Tier → String → ℕ → Type 0
  IsTier exact v c = is_exact t phrase v ≡ true
  IsTier token v c = (is_token t phrase v ≡ true) × NoneIs (is_exact t phrase)
  IsTier fuzzy v c =
      (auto? ≡ true)
      × (c ≡ score_of v)
      × (auto_apply_threshold ≤ c)
      × IsBest v
      × NoneIs (is_exact t phrase)
      × NoneIs (is_token t phrase)

  -- A value worth a question.
  abbrev pub IsPlausible : String → Type 0
  IsPlausible v = Memᴰ v values × (candidate_threshold ≤ score_of v)

  -- An entity alone, of a tier that may apply it; or an issue alone: that nothing matches, or up to
  -- three plausible values to choose from.
  abbrev pub Answers : Option ResolvedEntity → List String → Option Issue → Type 0
  Answers (some e) cs none =
      (cs ≡ [])
      × Memᴰ e.value values
      × (e.source_text ≡ phrase)
      × IsTier e.tier e.value e.confidence
  Answers (some e) cs (some i) = ⊥
  Answers none cs none = ⊥
  Answers none cs (some (customer_unknown k p)) =
      (cs ≡ [])
      × (k ≡ kind)
      × (p ≡ phrase)
      × NoneIs (is_exact t phrase)
      × NoneIs (is_token t phrase)
      × ((w : String) → Memᴰ w values → score_of w < candidate_threshold)
  Answers none cs (some (customer_ambiguous top more)) =
      (cs ≡ top)
      × (1 ≤ length top)
      × (length top ≤ max_candidates)
      × All IsPlausible top
      × NoneIs (is_exact t phrase)
      × NoneIs (is_token t phrase)

  abbrev pub IsAnswer : Resolution → Type 0
  IsAnswer r = Answers r.entity r.candidates r.issue

  choose-IsAnswer :
      (b : Bool) (x y : Resolution)
      → (b ≡ true → IsAnswer x)
      → (b ≡ false → IsAnswer y)
      → IsAnswer (if b then x else y)
  choose-IsAnswer true x y h k = h refl
  choose-IsAnswer false x y h k = k refl

  found :
      (p : String → Bool) {v : String} {ms : List String}
      → sort_by text_le (keep p values) ≡ v ∷ ms
      → Memᴰ v values × (p v ≡ true)
  found p {v} {ms} e =
      let all : All (λ w. Memᴰ w values × (p w ≡ true)) (sort_by text_le (keep p values)) =
        sort_by-All text_le _ _ (
          All-map₂ _ _ _ (keep p values) (λ x m h. (m, h))
            (keep-All p (λ w. Memᴰ w values) values (All-Mem _ values (λ x m. m)))
            (keep-passes p values)) in
      (subst (All (λ w. Memᴰ w values × (p w ≡ true))) e all).0

  none_found : (p : String → Bool) → sort_by text_le (keep p values) ≡ [] → NoneIs p
  none_found p e w m =
      All-at (λ x. p x ≡ false) values
        (keep-none p values
          (All-sort_by text_le (λ _. ⊥) (keep p values) (subst (All (λ _. ⊥)) (sym e) tt)))
        m

  -- An entry of the ranking: a certified value with its score.
  Ranked : ℕ × String → Type 0
  Ranked q = Memᴰ q.1 values × (q.0 ≡ score_of q.1)

  ranking-Ranked : All Ranked (ranking t phrase values)
  unfolding ranking Ranked
  ranking-Ranked =
      sort_by-All ranks_before _ _ (map-All _ _ values (All-Mem _ values (λ v m. (m, refl))))

  ranking-complete : (w : String) → Memᴰ w values → Memᴰ (score_of w, w) (ranking t phrase values)
  unfolding ranking
  ranking-complete w m =
      All-at (λ v. Memᴰ (score_of v, v) (ranking t phrase values)) values
        (All-map (λ v. (score_of v, v)) (λ q. Memᴰ q (ranking t phrase values)) values
          (All-sort_by ranks_before (λ q. Memᴰ q (ranking t phrase values)) _
            (All-Mem _ (ranking t phrase values) (λ q n. n))))
        m

  ranks_before-le : (p q : ℕ × String) → ranks_before p q ≡ true → q.0 ≤ p.0
  unfolding ranks_before
  ranks_before-le p q h = ground arith

  module _ (best : ℕ × String) (rest : List (ℕ × String))
      (is_ranking : ranking t phrase values ≡ best ∷ rest) where
    scored-Ranked : All Ranked (best ∷ rest)
    scored-Ranked = subst (All Ranked) is_ranking ranking-Ranked

    best-score : best.0 ≡ score_of best.1
    unfolding Ranked
    best-score = scored-Ranked.0.1

    best-leads : All (λ q. q.0 ≤ best.0) (best ∷ rest)
    unfolding ranking
    best-leads =
        let h : All (λ q. ranks_before best q ≡ true) (best ∷ rest) =
          subst (LeadsAll ranks_before) is_ranking
            (sort_by-LeadsAll ranks_before ranks_before-total ranks_before-transitive _) in
        All-weaken _ _ (best ∷ rest) (ranks_before-le best) h

    in_scored : (w : String) → Memᴰ w values → Memᴰ (score_of w, w) (best ∷ rest)
    in_scored w m = subst (Memᴰ (score_of w, w)) is_ranking (ranking-complete w m)

    score-bound : (w : String) → Memᴰ w values → score_of w ≤ best.0
    score-bound w m = All-at _ (best ∷ rest) best-leads (in_scored w m)

    in_tied :
        (w : String) → Memᴰ w values → score_of w ≡ best.0 → Memᴰ w (tied_at best.0 (best ∷ rest))
    unfolding tied_at
    in_tied w m e =
        Memᴰ.map (λ p. p.1)
          (keep-Mem (λ p. p.0 == best.0) (best ∷ rest) (in_scored w m) (ground (arith, e)))

    only_tied-IsBest : length (tied_at best.0 (best ∷ rest)) ≡ 1 → IsBest best.1
    unfolding Ranked
    only_tied-IsBest one w m =
        let s = best-score in
        (
          omega (arith, s, score-bound w m),
          λ e.
              Mem-singleton _ one (in_tied w m (omega (arith, s, e)))
                (in_tied best.1 scored-Ranked.0.0 (sym s)),
        )

    keep-IsPlausible :
        (p : ℕ × String → Bool)
        → ((q : ℕ × String) → p q ≡ true → candidate_threshold ≤ q.0)
        → All IsPlausible (take max_candidates (map (λ q. q.1) (keep p (best ∷ rest))))
    unfolding Ranked
    keep-IsPlausible p h = take-All _ max_candidates _ (
        map-All _ _ (keep p (best ∷ rest)) (
          All-map₂ _ _ _ (keep p (best ∷ rest)) (λ q r e. (r.0, omega (arith, r.1, h q e)))
            (keep-All p Ranked (best ∷ rest) scored-Ranked) (keep-passes p (best ∷ rest))))

    keep-first_passes :
        (p : ℕ × String → Bool)
        → p best ≡ true
        → 1 ≤ length (take max_candidates (map (λ q. q.1) (keep p (best ∷ rest))))
    unfolding keep
    keep-first_passes p h = rw h (omega arith)

    -- The third tier, once the other two have found nothing.
    module _ (no_exact : NoneIs (is_exact t phrase)) (no_token : NoneIs (is_token t phrase)) where
      suggest-IsAnswer : candidate_threshold ≤ best.0 → IsAnswer (suggest (best ∷ rest))
      unfolding suggest
      suggest-IsAnswer h =
          let p : ℕ × String → Bool = λ q. leb candidate_threshold q.0 in
          (
            refl,
            keep-first_passes p (ground arith),
            omega (arith, length-take max_candidates (map (λ q. q.1) (keep p (best ∷ rest)))),
            keep-IsPlausible p (λ q e. ground (arith, e)),
            no_exact,
            no_token,
          )

      tie-IsAnswer : auto_apply_threshold ≤ best.0 → IsAnswer (tie (tied_at best.0 (best ∷ rest)))
      unfolding tie tied_at
      tie-IsAnswer h =
          let p : ℕ × String → Bool = λ q. q.0 == best.0 in
          (
            refl,
            keep-first_passes p (ground arith),
            omega (arith, length-take max_candidates (map (λ q. q.1) (keep p (best ∷ rest)))),
            keep-IsPlausible p (λ q e. ground (arith, e)),
            no_exact,
            no_token,
          )

      resolved-IsAnswer :
          auto? ≡ true
          → auto_apply_threshold ≤ best.0
          → length (tied_at best.0 (best ∷ rest)) ≡ 1
          → IsAnswer (resolved best.1 phrase best.0 fuzzy)
      unfolding resolved Ranked
      resolved-IsAnswer a h one = (
        refl,
        scored-Ranked.0.0,
        refl,
        (a, best-score, h, only_tied-IsBest one, no_exact, no_token),
      )

      apply_best-IsAnswer :
          auto_apply_threshold ≤ best.0
          → IsAnswer
              (apply_best auto? phrase best.0 best.1 (tied_at best.0 (best ∷ rest)) (best ∷ rest))
      unfolding apply_best
      apply_best-IsAnswer h =
          let asked = suggest (best ∷ rest) in
          let applied = resolved best.1 phrase best.0 fuzzy in
          let tied = tied_at best.0 (best ∷ rest) in
          choose-IsAnswer (length tied == 1) (if not auto? then asked else applied) (tie tied)
            (λ one.
              choose-IsAnswer (not auto?) asked applied (λ a. suggest-IsAnswer (omega (arith, h)))
                (λ a. resolved-IsAnswer (ground (arith, a)) h (ground (arith, one))))
            (λ many. tie-IsAnswer h)

      resolve_scored-IsAnswer : IsAnswer (resolve_scored auto? phrase kind (best ∷ rest))
      unfolding resolve_scored unknown
      resolve_scored-IsAnswer =
          let asked = suggest (best ∷ rest) in
          choose-IsAnswer (leb auto_apply_threshold best.0)
            (apply_best auto? phrase best.0 best.1 (tied_at best.0 (best ∷ rest)) (best ∷ rest))
            (if leb candidate_threshold best.0 then asked else unknown phrase kind)
            (λ high. apply_best-IsAnswer (ground (arith, high)))
            (λ low.
              choose-IsAnswer (leb candidate_threshold best.0) asked (unknown phrase kind)
                (λ band. suggest-IsAnswer (ground (arith, band)))
                (λ weak. (
                  refl,
                  refl,
                  refl,
                  no_exact,
                  no_token,
                  λ w m. ground (arith, weak, score-bound w m),
                )))

  -- An empty ranking is that of an empty list of values.
  third_tier-IsAnswer :
      NoneIs (is_exact t phrase)
      → NoneIs (is_token t phrase)
      → IsAnswer (resolve_scored auto? phrase kind (ranking t phrase values))
  unfolding resolve_scored unknown
  third_tier-IsAnswer no_exact no_token = elim (List-cases (ranking t phrase values)) [
    | inl e ↦ rw e (
      refl,
      refl,
      refl,
      no_exact,
      no_token,
      λ w m. elim (subst (Memᴰ (score_of w, w)) e (ranking-complete w m)) [ ],
    )
    | inr (best, rest, e) ↦ rw e (resolve_scored-IsAnswer best rest e no_exact no_token)
  ]

  second_tier-IsAnswer :
      NoneIs (is_exact t phrase)
      → IsAnswer (
          first_match
            (token_matches t phrase values)
            phrase
            token
            (resolve_scored auto? phrase kind (ranking t phrase values)))
  unfolding token_matches resolved
  second_tier-IsAnswer no_exact =
      elim (List-cases (sort_by text_le (keep (is_token t phrase) values))) [
        | inl e ↦ rw e (third_tier-IsAnswer no_exact (none_found (is_token t phrase) e))
        | inr (v, ms, e) ↦
            (let (m, h) = found (is_token t phrase) e in rw e (refl, m, refl, (h, no_exact)))
      ]

  -- A resolution has an entity or an issue, never both and never neither. An entity is a certified
  -- value; it is applied by the first tier that has a match; a fuzzy one only where the caller allows
  -- it, at a score of 0.80 or more that no other value reaches. An issue means that the first two
  -- tiers match no value: it says that no value scores 0.60, or lists one to three certified values
  -- that do, the same ones as the candidates.
  pub resolve-IsAnswer : IsAnswer (resolve t phrase values kind auto?)
  unfolding resolve exact_matches resolved
  resolve-IsAnswer = elim (List-cases (sort_by text_le (keep (is_exact t phrase) values))) [
    | inl e ↦ rw e (second_tier-IsAnswer (none_found (is_exact t phrase) e))
    | inr (v, ms, e) ↦ (let (m, h) = found (is_exact t phrase) e in rw e (refl, m, refl, h))
  ]
