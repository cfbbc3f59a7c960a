-- ===== src/Execution.antt =====
-- packages/tui/src/runtime/execution: the projection of a session's events to execution nodes.
pub mod Types
pub mod Reducer
