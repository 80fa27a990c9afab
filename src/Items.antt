-- ===== src/Items.antt =====
-- src/gtktechnology.c and src/gtkservice.c, the items of the menus.
pub mod Technology
pub mod Service
