-- ===== src/Manager.antt =====
-- lib/manager.c, what ConnMan as a whole offers, and the calls and watches of the other components.
pub mod State
pub mod Property
pub mod Requests
pub mod Life
pub mod Run
pub mod Timeouts
pub mod Tracking
pub mod Endings
