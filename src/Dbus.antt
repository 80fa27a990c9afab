-- ===== src/Dbus.antt =====
-- lib/dbus.c and lib/cui-dbus.h, the readers and writers of D-Bus messages.
pub mod Libdbus
pub mod Signature
pub mod Walk
pub mod Read
pub mod Append
pub mod Entries
