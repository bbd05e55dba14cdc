-- ===== src/AgentLoop/Content/Caps.antt =====
-- The character cap: how long a capped content is, and that it never ends inside a line.
use latest_poseidon.Prelude.{
  codes, ℕ, zero, suc, ◌+◌, ◌≤◌, ◌<◌, ◌≡◌, ◌⊎◌, refl, sym, ap, ap₂, ◌∙◌, dec_le, inl, inr, true,
  String, Option, none, some, List, [], ◌∷◌, ◌++◌, append_assoc, length, length-append, take, drop,
  take-append-drop, length-take, Bool-cases, arith, leb,
}
use latest_poseidon.AgentLoop.Types.{Text, SkillResult}
use latest_poseidon.AgentLoop.Content.{
  newline, max_chars, truncated, is_space, rstrip, before_last_newline, cut_at_line, get_or,
  extend_line, strip_before, capped, join, value_lines, tool_result_digest, result_content_text,
}

extend_line-some :
    (c : ℕ) (o : Option Text) (t : Text) {r : Text}
    → ((q : Text) → o ≡ some q → (s : Text) × (t ≡ q ++ newline ∷ s))
    → extend_line c o ≡ some r
    → (s : Text) × (c ∷ t ≡ r ++ newline ∷ s)
extend_line-some c none t h e = (t, ground (arith, e))
extend_line-some c (some q) t {r} h e =
    let (s, p) = h q refl in
    let same : c ∷ q ≡ r = cc e in (s, rw p (ap (λ x. x ++ newline ∷ s) same))

before_last_newline-some :
    (t : Text) {r : Text} → before_last_newline t ≡ some r → (s : Text) × (t ≡ r ++ newline ∷ s)
unfolding before_last_newline
before_last_newline-some [] h = absurd (cc)
before_last_newline-some (c ∷ t) h =
    extend_line-some c (before_last_newline t) t (λ q e. before_last_newline-some t e) h

length-get_or :
    (o : Option Text) (t : Text) → o ≡ before_last_newline t → length (get_or o t) ≤ length t
length-get_or none t h = omega arith
length-get_or (some r) t h =
    let (s, q) = before_last_newline-some t (sym h) in
    omega (arith, ap length q, length-append r (newline ∷ s))

-- Whatever the content, the capped one has at most the cap and the marker line.
pub length-capped : (t : Text) → length (capped t) ≤ max_chars + 1 + length truncated
unfolding capped
length-capped t = elim (Bool-cases (leb (length t) max_chars)) [
  | inl h ↦ rw h (ground arith)
  | inr h ↦ rw h (
      omega (
        arith,
        length-append (cut_at_line (take max_chars t)) (newline ∷ truncated),
        length-get_or (before_last_newline (take max_chars t)) (take max_chars t) refl,
        length-take max_chars t,
      ))
]

-- A text cut at a line end, with the marker behind it; or the whole text.
abbrev pub WholeLines : Text → Text → Type 0
WholeLines t c =
    (c ≡ t)
    ⊎ ((head : Text) × (rest : Text) × (t ≡ head ++ newline ∷ rest)
        × (c ≡ head ++ newline ∷ truncated))

extend_line-newline : (o : Option Text) → (r : Text) × (extend_line newline o ≡ some r)
extend_line-newline none = ([], refl)
extend_line-newline (some q) = (newline ∷ q, refl)

extend_line-keeps :
    (c : ℕ) (o : Option Text)
    → ((q : Text) × (o ≡ some q))
    → (r : Text) × (extend_line c o ≡ some r)
extend_line-keeps c none (q, e) = absurd (cc)
extend_line-keeps c (some q) h = (c ∷ q, refl)

-- A line end within the first `n` characters is found.
before_last_newline-take :
    (n : ℕ) (a b : Text)
    → length a < n
    → (r : Text) × (before_last_newline (take n (a ++ newline ∷ b)) ≡ some r)
unfolding before_last_newline
before_last_newline-take zero a b h = absurd (omega arith)
before_last_newline-take (suc n) [] b h = extend_line-newline (before_last_newline (take n b))
before_last_newline-take (suc n) (c ∷ a) b h =
    extend_line-keeps c _ (before_last_newline-take n a b (omega arith))

rejoin : (n : ℕ) (t r s : Text) → take n t ≡ r ++ newline ∷ s → t ≡ r ++ newline ∷ (s ++ drop n t)
rejoin n t r s e =
    sym (take-append-drop n t) ∙ ap (λ x. x ++ drop n t) e ∙ append_assoc r (newline ∷ s) (drop n t)

-- A content with a line end within the cap is never cut inside a line: if it is longer than the cap,
-- what is kept ends where a line ends, and the marker follows on a line of its own.
pub capped-WholeLines :
    (a b : Text) → length a < max_chars → WholeLines (a ++ newline ∷ b) (capped (a ++ newline ∷ b))
unfolding capped
capped-WholeLines a b h =
    let t = a ++ newline ∷ b in
    let (r, found) = before_last_newline-take max_chars a b h in
    let (s, e) = before_last_newline-some (take max_chars t) found in
    elim (Bool-cases (leb (length t) max_chars)) [
      | inl fits ↦ rw fits (inl refl)
      | inr cut ↦ rw (cut, found) (inr (r, s ++ drop max_chars t, rejoin max_chars t r s e, refl))
    ]

strip_before-prefix :
    (c : ℕ) (r t : Text)
    → ((s : Text) × (t ≡ r ++ s))
    → (s : Text) × (c ∷ t ≡ strip_before c r ++ s)
strip_before-prefix c [] t (s, e) = elim (Bool-cases (is_space c)) [
  | inl h ↦ rw h (c ∷ t, refl)
  | inr h ↦ rw h (s, ap (λ x. c ∷ x) e)
]
strip_before-prefix c (d ∷ r) t (s, e) = (s, ap (λ x. c ∷ x) e)

rstrip-prefix : (t : Text) → (s : Text) × (t ≡ rstrip t ++ s)
unfolding rstrip
rstrip-prefix [] = ([], refl)
rstrip-prefix (c ∷ t) = strip_before-prefix c (rstrip t) t (rstrip-prefix t)

-- A prefix that reaches past a line end holds that line end.
prefix_past :
    (a b p s : Text)
    → a ++ newline ∷ b ≡ p ++ s
    → length a < length p
    → (b' : Text) × (p ≡ a ++ newline ∷ b')
prefix_past a b [] s e h = absurd (omega arith)
prefix_past [] b (c ∷ p) s e h = (p, cc)
prefix_past (d ∷ a) b (c ∷ p) s e h =
    let tails : a ++ newline ∷ b ≡ p ++ s = cc in
    let heads : d ≡ c = cc in
    let (b', q) = prefix_past a b p s tails (omega arith) in (b', ap₂ (λ x y. x ∷ y) (sym heads) q)

capped_short : (t : Text) → length t ≤ max_chars → capped t ≡ t
unfolding capped
capped_short t h = ground arith

rstrip-WholeLines :
    (t a b : Text)
    → t ≡ a ++ newline ∷ b
    → length a < max_chars
    → WholeLines (rstrip t) (capped (rstrip t))
rstrip-WholeLines t a b e h = elim (dec_le (length (rstrip t)) max_chars) [
  | yes fits ↦ inl (capped_short (rstrip t) fits)
  | no past ↦
      let (s, p) = rstrip-prefix t in
      let (b', q) = prefix_past a b (rstrip t) s (sym e ∙ p) (omega arith) in
      rw q (capped-WholeLines a b' h)
]

digest_line :
    (skill_id : String) (result : SkillResult)
    → result.succeeded ≡ true
    → (b : Text) × (tool_result_digest skill_id result
        ≡ (codes skill_id ++ codes " ok") ++ newline ∷ b)
unfolding tool_result_digest join
digest_line skill_id result h = rw h (_, refl)

content_line :
    (d : Text) (lines : List Text) (a b : Text)
    → d ≡ a ++ newline ∷ b
    → (b' : Text) × (join (newline ∷ []) (d ∷ lines) ≡ a ++ newline ∷ b')
unfolding join
content_line d [] a b e = (b, e)
content_line d (x ∷ lines) a b e = (
  _,
  ap (λ y. y ++ (newline ∷ [] ++ join (newline ∷ []) (x ∷ lines))) e
      ∙ append_assoc a (newline ∷ b) _,
)

-- What the model is told of a successful result is never cut inside a line: it is the whole stripped
-- text of the digest and the values, or that text up to the end of one of its lines with the truncation
-- marker on the next. The skill's id has at most 3,900 characters.
pub result_content_text-WholeLines :
    (skill_id : String) (result : SkillResult)
    → result.succeeded ≡ true
    → length (codes skill_id) ≤ 3900
    → WholeLines
        (rstrip
          (join (newline ∷ []) (tool_result_digest skill_id result ∷ value_lines result.parts)))
        (result_content_text (tool_result_digest skill_id result) result)
unfolding result_content_text
result_content_text-WholeLines skill_id result h bound =
    let d = tool_result_digest skill_id result in
    let (b, e) = digest_line skill_id result h in
    let a = codes skill_id ++ codes " ok" in
    let (b', e') = content_line d (value_lines result.parts) a b e in
    rstrip-WholeLines (join (newline ∷ []) (d ∷ value_lines result.parts)) a b' e'
      (omega (arith, length-append (codes skill_id) (codes " ok")))
