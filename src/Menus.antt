-- ===== src/Menus.antt =====
-- src/left-menu.c and src/right-menu.c, the menus of the tray.
pub mod Shell
pub mod Rows
pub mod Right
pub mod Places
pub mod Steps
pub mod Left
pub mod Split
pub mod Adding
pub mod Filling
