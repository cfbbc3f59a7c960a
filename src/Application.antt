-- ===== src/Application.antt =====
-- packages/tui/src/application: the program's start.
pub mod Cli
