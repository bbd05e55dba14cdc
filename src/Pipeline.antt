-- ===== src/Pipeline.antt =====
-- backend/poseidon/core/parsing/pipeline.py: one message against the slots of its conversation.
pub mod Plans
pub mod Turns
pub mod Names
pub mod Memory
pub mod Examples
