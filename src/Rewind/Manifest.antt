-- ===== src/Rewind/Manifest.antt =====
-- packages/tui/src/modules/rewind/adapters/file-repository.ts: the manifest of a stored timeline. Json
-- has the values and their checks, Decode the parser, and Integrity the check of the whole.
pub mod Json
pub mod Decode
pub mod Integrity
pub mod Parse
pub mod Distinct
pub mod Sound
pub mod Accepted
mod Tests
