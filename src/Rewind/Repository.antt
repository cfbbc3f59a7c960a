-- ===== src/Rewind/Repository.antt =====
-- packages/tui/src/modules/rewind/adapters/file-repository.ts: `FileRewindRepository`, the durable
-- storage of timelines. Platform has what it takes from Node, Storage its state, Store, Materialize
-- and Encode the ways between a timeline and its files, Compaction the collection of contents, and
-- Operations the methods.
pub mod Platform
pub mod Storage
pub mod Store
pub mod Materialize
pub mod Encode
pub mod Compaction
pub mod Operations
pub mod Lock
mod Sample
mod Tests
