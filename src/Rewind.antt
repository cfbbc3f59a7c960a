-- ===== src/Rewind.antt =====
-- packages/tui/src/modules/rewind: the journal of reversible effects, its planner and the
-- transaction that applies a plan.
pub mod Contracts
pub mod Points
pub mod Timeline
pub mod Journal
pub mod Effects
pub mod Invariant
pub mod Calls
pub mod Shape
pub mod Budget
pub mod Bytes
pub mod Selection
pub mod Recording
pub mod Planner
pub mod Transaction
pub mod Workspace
pub mod Manifest
pub mod Repository
mod Tests
