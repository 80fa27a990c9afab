-- ===== src/Ui.antt =====
-- What the files under src/ use of GTK, of GLib's signals and of the C library, and src/utils.c,
-- src/theme.c and src/tray.c.
pub mod Gtk
pub mod Decimal
pub mod Utils
pub mod Theme
pub mod Tray
