-- ===== src/Periods.antt =====
-- backend/poseidon/core/parsing: period windows and the period parser.
pub mod Windows
pub mod Parser
pub mod Examples
