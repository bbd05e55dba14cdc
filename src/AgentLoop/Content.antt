-- ===== src/AgentLoop/Content.antt =====
-- What a tool result says to the model: the digest, then the values, capped.
pub mod Caps
use latest_poseidon.Prelude.{
  ℕ, zero, suc, ◌+◌, ◌/◌, ◌%◌, String, Bool, true, false, Option, none, some, List, [], ◌∷◌, ◌++◌,
  map, length, take, codes, leb, ltb, ◌==◌, if◌then◌else◌,
}
use latest_poseidon.AgentLoop.Types.{
  Text, Problem, Cell, Part, table, metric_grid, text, phase_section, report, other, SkillResult,
}

abbrev pub newline : ℕ
newline = 10

abbrev pub max_rows : ℕ
max_rows = 50

abbrev pub max_chars : ℕ
max_chars = 4000

-- `str(n)`: the decimal digits. There are fewer digits than `n + 1`.
abbrev pub show_digits : ℕ → ℕ → Text
show_digits zero n = []
show_digits (suc fuel) n =
    let rest = show_digits fuel (n / 10) in
    if ltb n 10 then (48 + n) ∷ [] else rest ++ (48 + n % 10) ∷ []

unfoldable pub show : ℕ → Text
show n = show_digits (suc n) n

-- separator.join(texts)
unfoldable pub join : Text → List Text → Text
join separator [] = []
join separator (x ∷ []) = x
join separator (x ∷ y ∷ rest) = x ++ (separator ++ join separator (y ∷ rest))

-- `_part_summary`
unfoldable pub part_summary : Part → Text
part_summary (table columns rows) = codes "table(rows=" ++ (show (length rows) ++ codes ")")
part_summary (metric_grid periods metrics) =
    codes "metric_grid(metrics=" ++ (show (length metrics) ++ codes ")")
part_summary (text markdown) = codes "text(chars=" ++ (show (length markdown) ++ codes ")")
part_summary (phase_section title markdown) = codes "phase_section"
part_summary (report run scope current prior) = codes "report"
part_summary (other kind payload) = kind

-- `", ".join(...) or _EMPTY_PARTS`
unfoldable pub or_empty : Text → Text
or_empty [] = codes "(none)"
or_empty (c ∷ t) = c ∷ t

-- The problem line of a failed digest; `None` is what a missing field of an absent problem prints as.
unfoldable pub problem_line : Option Problem → Text
problem_line none = codes "problem: None None: None"
problem_line (some p) =
    codes "problem: "
    ++ (show p.status ++ (codes " " ++ (codes p.title ++ (codes ": " ++ p.detail))))

unfoldable pub proof_lines : List Text → List Text
proof_lines [] = []
proof_lines (p ∷ rest) = (codes "proof: " ++ join (codes " | ") (p ∷ rest)) ∷ []

-- `tool_result_digest`
unfoldable pub tool_result_digest : String → SkillResult → Text
tool_result_digest skill_id result =
    if result.succeeded
    then join (newline ∷ []) (
        (codes skill_id ++ codes " ok")
        ∷ (codes "parts: " ++ or_empty (join (codes ", ") (map part_summary result.parts)))
        ∷ proof_lines result.proof)
    else codes skill_id ++ (codes " error" ++ (newline ∷ problem_line result.error))

-- `_cell`
unfoldable pub show_cell : Cell → Text
show_cell none = codes "(null)"
show_cell (some value) = value

-- `_column_name`, for the cell at `position` of the columns that are left there.
unfoldable pub column_name : List Text → ℕ → Text
column_name [] position = codes "column" ++ show (position + 1)
column_name (c ∷ columns) position = c

abbrev pub tail_columns : List Text → List Text
tail_columns [] = []
tail_columns (c ∷ columns) = columns

-- The cells of a row, each with its own header or a positional stand-in.
unfoldable pub row_cells : List Text → ℕ → List Cell → List Text
row_cells columns position [] = []
row_cells columns position (value ∷ row) =
    (column_name columns position ++ (codes "=" ++ show_cell value))
    ∷ row_cells (tail_columns columns) (position + 1) row

-- `_row_cap_marker`
unfoldable pub row_cap_marker : Text → ℕ → Text → List Text
row_cap_marker tag total noun =
    if leb total max_rows
    then []
    else (tag
        ++ (codes " ... "
            ++ (show max_rows
                ++ (codes " of "
                    ++ (show total ++ (codes " " ++ (noun ++ codes " shown (truncated)")))))))
      ∷ []

-- The numbered lines of a table or a grid.
unfoldable pub numbered : Text → Text → ℕ → List Text → List Text
numbered tag noun number [] = []
numbered tag noun number (line ∷ rest) =
    (tag ++ (codes " " ++ (noun ++ (codes " " ++ (show number ++ (codes ": " ++ line))))))
    ∷ numbered tag noun (number + 1) rest

-- `_table_content`
unfoldable pub table_content : Text → List Text → List (List Cell) → List Text
table_content tag columns rows =
    (tag ++ (codes " table (" ++ (show (length rows) ++ codes " rows)")))
    ∷ (numbered tag (codes "row") 1
          (map (λ row. join (codes ", ") (row_cells columns 0 row)) (take max_rows rows))
        ++ row_cap_marker tag (length rows) (codes "rows"))

abbrev pub show_pair : Text × Cell → Text
show_pair (key, value) = key ++ (codes "=" ++ show_cell value)

abbrev pub show_period : Text × (Text × Text) → Text
show_period (label, (start, end)) = label ++ (codes "=" ++ (start ++ (codes ".." ++ end)))

unfoldable pub period_lines : Text → List (Text × (Text × Text)) → List Text
period_lines tag [] = []
period_lines tag (p ∷ rest) =
    (tag ++ (codes " periods: " ++ join (codes ", ") (map show_period (p ∷ rest)))) ∷ []

-- `_metric_grid_content`
unfoldable pub metric_grid_content :
    Text → List (Text × (Text × Text)) → List (List (Text × Cell)) → List Text
metric_grid_content tag periods metrics =
    (tag ++ (codes " metric_grid (" ++ (show (length metrics) ++ codes " metrics)")))
    ∷ (period_lines tag periods
        ++ (numbered tag (codes "metric") 1
              (map (λ metric. join (codes ", ") (map show_pair metric)) (take max_rows metrics))
            ++ row_cap_marker tag (length metrics) (codes "metrics")))

-- `_part_content`
unfoldable pub part_content : ℕ → Part → List Text
part_content index part =
    let tag = codes "[" ++ (show index ++ codes "]") in
    elim part [
      | table columns rows ↦ table_content tag columns rows
      | metric_grid periods metrics ↦ metric_grid_content tag periods metrics
      | text markdown ↦ (tag ++ codes " text:") ∷ markdown ∷ []
      | phase_section title markdown ↦ (tag ++ (codes " phase_section: " ++ title)) ∷ markdown ∷ []
      | report run scope current prior ↦
          (tag
            ++ (codes " report: run "
                ++ (run
                    ++ (codes "; "
                        ++ (scope
                            ++ (codes "; "
                                ++ (current
                                    ++ (codes " vs "
                                        ++ (prior
                                            ++ codes
                                                "; read sections through reporting.report_lookup")))))))))
          ∷ []
      | other kind payload ↦ (tag ++ (codes " " ++ (kind ++ (codes ": " ++ payload)))) ∷ []
    ]

unfoldable pub parts_content : ℕ → List Part → List Text
parts_content index [] = []
parts_content index (part ∷ rest) = part_content index part ++ parts_content (index + 1) rest

-- The white space that `rstrip` removes, of ASCII.
unfoldable pub is_space : ℕ → Bool
is_space c =
    if c == 32 then true else if leb 9 c then leb c 13 else if leb 28 c then leb c 31 else false

abbrev pub strip_before : ℕ → Text → Text
strip_before c [] = if is_space c then [] else c ∷ []
strip_before c (d ∷ t) = c ∷ d ∷ t

-- text.rstrip()
unfoldable pub rstrip : Text → Text
rstrip [] = []
rstrip (c ∷ t) = strip_before c (rstrip t)

abbrev pub extend_line : ℕ → Option Text → Option Text
extend_line c none = if c == newline then some [] else none
extend_line c (some t) = some (c ∷ t)

-- head[:head.rfind("\n")], or nothing if there is no line end.
unfoldable pub before_last_newline : Text → Option Text
before_last_newline [] = none
before_last_newline (c ∷ t) = extend_line c (before_last_newline t)

abbrev pub truncated : Text
truncated = codes "... result content truncated at 4000 characters"

abbrev pub get_or : Option Text → Text → Text
get_or none t = t
get_or (some r) t = r

abbrev pub cut_at_line : Text → Text
cut_at_line head = get_or (before_last_newline head) head

-- `_capped`
unfoldable pub capped : Text → Text
capped content =
    if leb (length content) max_chars
    then content
    else cut_at_line (take max_chars content) ++ (newline ∷ truncated)

unfoldable pub value_lines : List Part → List Text
value_lines [] = codes "data: (no parts returned)" ∷ []
value_lines (part ∷ rest) =
    codes "data (already shown to the user as rendered parts; use ONLY these values):"
    ∷ parts_content 1 (part ∷ rest)

-- `_result_content_text`
unfoldable pub result_content_text : Text → SkillResult → Text
result_content_text digest result =
    capped (rstrip (join (newline ∷ []) (digest ∷ value_lines result.parts)))
