-- ===== src/Dialogs.antt =====
-- src/agent_dialogs.c, the dialogs for the requests of ConnMan's agent and for tethering.
pub mod State
pub mod Show
pub mod Reply
pub mod Tethering
pub mod Answering
