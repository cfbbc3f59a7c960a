-- ===== src/Rewind/Budget.antt =====
-- packages/tui/src/modules/rewind/domain/journal.ts: the bytes of a timeline, and what each operation
-- does to them.
pub mod Sums
pub mod Operations
