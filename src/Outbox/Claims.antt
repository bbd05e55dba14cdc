-- ===== src/Outbox/Claims.antt =====
-- What a worker claims.
use latest_poseidon.Prelude.{
  ℕ, zero, suc, ◌≤◌, ◌≡◌, ◌≢◌, refl, sym, subst, true, false, List, [], ◌∷◌, ◌++◌, All, Permᴰ, keep,
  sort_by, length, length-take, take, drop, take-append-drop, IsBefore, sort_by-reorders,
  take-IsBefore-drop, sort_by-IsSorted, arith,
}
use latest_poseidon.Outbox.{Row, is_idle, older, claim_idle_conversations}

older-total : (a b : Row) → older a b ≡ false → older b a ≡ true
unfolding older
older-total a b h = ground arith

older-transitive : (a b c : Row) → older a b ≡ true → older b c ≡ true → older a c ≡ true
unfolding older
older-transitive a b c h k = ground arith

-- Rows divided into those claimed and those that wait.
pub record Claims (limit : ℕ) (idle claimed : List Row) : Type 0 where
  pub waiting : List Row
  pub divided : Permᴰ (claimed ++ waiting) idle
  pub oldest_first : All (λ r. IsBefore older r waiting) claimed
  pub within_limit : length claimed ≤ limit
  pub no_slack : waiting ≢ [] → length claimed ≡ limit

take-full : {A : Type 0} (n : ℕ) (xs : List A) → drop n xs ≢ [] → length (take n xs) ≡ n
take-full zero xs h = refl
take-full (suc n) [] h = absurd (h refl)
take-full (suc n) (x ∷ xs) h = omega (arith, take-full n xs h)

-- A claim takes each pending row that has been idle long enough at most as often as the table holds
-- it, and no other; at most `limit` of them, and exactly that many if any is left waiting; and no row
-- that it takes has a later last turn than one that is left waiting.
pub claim_idle_conversations-Claims :
    (now idle_minutes limit : ℕ) (table : List Row)
    → Claims limit
        (keep (is_idle now idle_minutes) table)
        (claim_idle_conversations now idle_minutes limit table)
unfolding claim_idle_conversations
claim_idle_conversations-Claims now idle_minutes limit table =
    let idle = keep (is_idle now idle_minutes) table in
    let sorted = sort_by older idle in
    record {
      waiting = drop limit sorted;
      divided =
          subst (λ l. Permᴰ l idle) (sym (take-append-drop limit sorted))
            (sort_by-reorders older idle);
      oldest_first =
          take-IsBefore-drop older limit sorted
            (sort_by-IsSorted older older-total older-transitive idle);
      within_limit = omega (arith, length-take limit sorted);
      no_slack = take-full limit sorted;
    }
