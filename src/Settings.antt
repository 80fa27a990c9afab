-- ===== src/Settings.antt =====
-- src/settings.c, the dialog with the settings of a service.
pub mod State
pub mod Method
pub mod Show
pub mod Parts
pub mod Edit
pub mod Texts
pub mod RoundTrip
pub mod Confirm
pub mod Popup
