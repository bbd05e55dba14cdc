-- ===== src/Query.antt =====
-- backend/poseidon/core/data/query_builder.py: the SQL of a query over a certified entity, and the
-- parameters that are bound to its placeholders.
pub mod Sql
pub mod Rules
pub mod Builders
pub mod Placeholders
pub mod Filled
pub mod Conditions
pub mod Statements
pub mod Lookups
pub mod Correct
pub mod Frames
pub mod Callers
pub mod Examples
