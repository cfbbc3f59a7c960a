-- ===== src/Composer.antt =====
-- packages/tui/src/modules/composer: the draft of the next prompt.
pub mod Input
pub mod Images
pub mod Attachments
