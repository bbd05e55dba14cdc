-- ===== src/Query/Filled.antt =====
-- Statements with their parameters in place: what a template and its parameters say together.
use latest_poseidon.Prelude.{
  ◌≡◌, refl, sym, ap, ap₂, ◌∙◌, String, List, [], ◌∷◌, ◌++◌, append_assoc, append-nil, map, arith,
}
use latest_poseidon.Query.Sql.{sql, placeholder, Clause, Param, joined}
use latest_poseidon.Query.Placeholders.{placeholders, placeholders_all}

-- A piece of a statement: text, or a value.
pub data Piece : Type 0 where
  text : String → Piece
  bound : Param → Piece

abbrev pub Pieces : Type 0
Pieces = List Piece

-- The statement that a driver is given: a placeholder for each value, and the values in their order.
abbrev pub clause_of : Pieces → Clause
clause_of [] = []
clause_of (text s ∷ ps) = sql s ∷ clause_of ps
clause_of (bound p ∷ ps) = placeholder ∷ clause_of ps

abbrev pub params_of : Pieces → List Param
params_of [] = []
params_of (text s ∷ ps) = params_of ps
params_of (bound p ∷ ps) = p ∷ params_of ps

-- Pieces with a text between any two.
abbrev pub between : String → List Pieces → Pieces
between s [] = []
between s (p ∷ []) = p
between s (p ∷ q ∷ rest) = p ++ (text s ∷ between s (q ∷ rest))

-- Text as pieces; certified text has no placeholder.
abbrev pub plain : Clause → Pieces
plain [] = []
plain (sql s ∷ c) = text s ∷ plain c
plain (placeholder ∷ c) = plain c

abbrev pub clauses_of : List Pieces → List Clause
clauses_of ps = map clause_of ps

abbrev pub params_all : List Pieces → List Param
params_all [] = []
params_all (p ∷ ps) = params_of p ++ params_all ps

pub clause_of-append : (p q : Pieces) → clause_of (p ++ q) ≡ clause_of p ++ clause_of q
clause_of-append [] q = refl
clause_of-append (text s ∷ p) q = ap (λ c. sql s ∷ c) (clause_of-append p q)
clause_of-append (bound v ∷ p) q = ap (λ c. placeholder ∷ c) (clause_of-append p q)

pub params_of-append : (p q : Pieces) → params_of (p ++ q) ≡ params_of p ++ params_of q
params_of-append [] q = refl
params_of-append (text s ∷ p) q = params_of-append p q
params_of-append (bound v ∷ p) q = ap (λ c. v ∷ c) (params_of-append p q)

pub clauses_of-append : (p q : List Pieces) → clauses_of (p ++ q) ≡ clauses_of p ++ clauses_of q
clauses_of-append [] q = refl
clauses_of-append (c ∷ p) q = ap (λ l. clause_of c ∷ l) (clauses_of-append p q)

pub params_all-append : (p q : List Pieces) → params_all (p ++ q) ≡ params_all p ++ params_all q
params_all-append [] q = refl
params_all-append (c ∷ p) q =
    ap (λ l. params_of c ++ l) (params_all-append p q)
    ∙ sym (append_assoc (params_of c) (params_all p) (params_all q))

pub clause_of-between :
    (s : String) (ps : List Pieces) → clause_of (between s ps) ≡ joined (sql s ∷ []) (clauses_of ps)
clause_of-between s [] = refl
clause_of-between s (p ∷ []) = refl
clause_of-between s (p ∷ q ∷ ps) =
    clause_of-append p (text s ∷ between s (q ∷ ps))
    ∙ ap (λ c. clause_of p ++ (sql s ∷ c)) (clause_of-between s (q ∷ ps))

pub params_of-between : (s : String) (ps : List Pieces) → params_of (between s ps) ≡ params_all ps
params_of-between s [] = refl
params_of-between s (p ∷ []) = sym (append-nil (params_of p))
params_of-between s (p ∷ q ∷ ps) =
    params_of-append p (text s ∷ between s (q ∷ ps))
    ∙ ap (λ c. params_of p ++ c) (params_of-between s (q ∷ ps))

pub clause_of-plain : (c : Clause) → placeholders c ≡ 0 → clause_of (plain c) ≡ c
clause_of-plain [] h = refl
clause_of-plain (sql s ∷ c) h = ap (λ d. sql s ∷ d) (clause_of-plain c h)
clause_of-plain (placeholder ∷ c) h = absurd (omega (arith, h))

pub params_of-plain : (c : Clause) → params_of (plain c) ≡ []
params_of-plain [] = refl
params_of-plain (sql s ∷ c) = params_of-plain c
params_of-plain (placeholder ∷ c) = params_of-plain c

pub clauses_of-plain : (cs : List Clause) → placeholders_all cs ≡ 0 → clauses_of (map plain cs) ≡ cs
clauses_of-plain [] h = refl
clauses_of-plain (c ∷ cs) h =
    ap₂ (λ x l. x ∷ l) (clause_of-plain c (omega (arith, h)))
      (clauses_of-plain cs (omega (arith, h)))

pub params_all-plain : (cs : List Clause) → params_all (map plain cs) ≡ []
params_all-plain [] = refl
params_all-plain (c ∷ cs) = ap₂ (λ x l. x ++ l) (params_of-plain c) (params_all-plain cs)
