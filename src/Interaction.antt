-- ===== src/Interaction.antt =====
-- packages/tui/src/modules/interaction: the approvals and questions that a session asks the user.
pub mod Process
