-- ===== src/Transcript.antt =====
-- packages/tui/src/modules/transcript: the rows of the conversation.
pub mod Diff
