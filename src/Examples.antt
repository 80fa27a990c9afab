-- ===== src/Examples.antt =====
-- Concrete messages and timeouts, and the theorems at inputs that meet their hypotheses.
mod Menus
mod LeftMenu
mod Messages
mod Timeouts
mod Dbus
mod Agent
mod Technology
mod Manager
mod Service
mod Connection
mod Widgets
mod Ui
