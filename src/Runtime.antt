-- ===== src/Runtime.antt =====
-- packages/tui/src/runtime: the session lifecycle, prompt submissions, action dispatch and resources.
pub mod SessionMachine
pub mod Submission
pub mod Dispatcher
pub mod LifecycleScope
