-- ===== src/Technology.antt =====
-- lib/technology.c, the technologies (wired, wifi, cellular, ...) that ConnMan offers.
pub mod State
pub mod Property
pub mod Update
pub mod Life
pub mod Setting
pub mod Access
pub mod Notices
pub mod Calls
pub mod Pending
