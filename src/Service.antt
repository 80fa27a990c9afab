-- ===== src/Service.antt =====
-- lib/service.c, the services (networks) that ConnMan lists.
pub mod State
pub mod Parse
pub mod Update
pub mod Property
pub mod Life
pub mod Listing
pub mod Access
pub mod Config
pub mod Setting
pub mod Paths
pub mod Lists
pub mod Listed
pub mod Order
pub mod Index
pub mod Selected
pub mod Messages
