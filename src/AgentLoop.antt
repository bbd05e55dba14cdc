-- ===== src/AgentLoop.antt =====
-- backend/poseidon/core/llm/loop.py: one user turn, from the message window to a `TurnResult`.
pub mod Types
pub mod Content
pub mod Turn
pub mod Examples
