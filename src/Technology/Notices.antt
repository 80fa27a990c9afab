-- ===== src/Technology/Notices.antt =====
-- The book that lib/technology.c keeps of its timeouts: `to_update` against the main loop.
pub mod Slots
pub mod Soundness
pub mod Keeps
pub mod Handlers
pub mod Run
