-- ===== src/Query/Frames/Correct.antt =====
-- What the builder of a frame returns, when it returns.
use latest_poseidon.Prelude.{map, List, [], ◌∷◌, ◌++◌}
use latest_poseidon.Query.Sql.{Clause, Entity}
use latest_poseidon.Query.Builders.{Query}
use latest_poseidon.Query.Filled.{Pieces, text, between, plain}
use latest_poseidon.Query.Conditions.{all_of}
use latest_poseidon.Query.Statements.{select_from}
use latest_poseidon.Query.Frames.{FrameQuerySpec, projections, positions}

-- The statement of a frame.
abbrev pub frame_pieces : Entity → FrameQuerySpec → Clause → List Clause → Clause → Pieces
frame_pieces entity spec date select table =
    select_from (map plain (projections entity date spec.group_by ++ select)) table
      (all_of entity date spec.metrics spec.period spec.filters spec.scope_value)
      ((text "GROUP BY " ∷ between ", " (map plain (positions 1 spec.group_by))) ∷ [])
