-- ===== src/Ui/Tray.antt =====
-- src/tray.c: the handlers of the status icon, which open the two menus.
pub mod Handlers
use connman_ui.Common.{
  ℕ, zero, suc, ◌<◌, ◌≡◌, ◌==◌, ◌&&◌, is_set, String, Bool, Option, none, some, List, [], ◌∷◌,
  if◌then◌else◌,
}

-- GLib's signal handlers of the status icon, each with its signal: g_signal_connect gives an identifier
-- above 0 that no connected handler has, and g_signal_handler_disconnect takes one away.
pub record Signals : Type 1 where
  pub Icon : Type 0
  pub handler : Icon → ℕ → Option String
  pub connect : Icon → String → ℕ × Icon
  pub disconnect : Icon → ℕ → Icon
  pub handler_zero : (c : Icon) → handler c 0 ≡ none
  pub connect_pos : (c : Icon) (s : String) → 0 < (connect c s).0
  pub connect_fresh : (c : Icon) (s : String) → handler c (connect c s).0 ≡ none
  pub handler-connect :
      (c : Icon) (s : String) (i : ℕ)
      → handler (connect c s).1 i ≡ (if (connect c s).0 == i then some s else handler c i)
  pub handler-disconnect :
      (c : Icon) (i j : ℕ) → handler (disconnect c i) j ≡ (if i == j then none else handler c j)

module _ (signals : Signals) where
  open signals use {Icon, connect, disconnect}

  -- The variables of the file. A handler is a text, none before its hook is set.
  pub record Tray : Type 0 where
    pub icon : Icon
    pub popup_left_menu_f : Option String
    pub popup_rigt_menu_f : Option String
    pub left_menu_handler_id : ℕ
    pub right_menu_handler_id : ℕ

  unfoldable pub cui_tray_hook_left_menu : String → Tray → Tray
  cui_tray_hook_left_menu callback t = record t { popup_left_menu_f = some callback }

  unfoldable pub cui_tray_hook_right_menu : String → Tray → Tray
  cui_tray_hook_right_menu callback t = record t { popup_rigt_menu_f = some callback }

  unfoldable pub cui_tray_left_menu_disable : Tray → Tray
  cui_tray_left_menu_disable t =
      if t.left_menu_handler_id == 0
      then t
      else record t { icon = disconnect t.icon t.left_menu_handler_id; left_menu_handler_id = 0 }

  -- The two statements of cui_tray_enable. g_signal_connect without a handler gives 0.
  enable_left : Tray → Tray
  enable_left t =
      if t.left_menu_handler_id == 0 && is_set t.popup_left_menu_f
      then record t {
        icon = (connect t.icon "activate").1;
        left_menu_handler_id = (connect t.icon "activate").0;
      }
      else t

  enable_right : Tray → Tray
  enable_right t =
      if t.right_menu_handler_id == 0 && is_set t.popup_rigt_menu_f
      then record t {
        icon = (connect t.icon "popup-menu").1;
        right_menu_handler_id = (connect t.icon "popup-menu").0;
      }
      else t

  unfoldable pub cui_tray_enable : Tray → Tray
  unfolding enable_left enable_right
  cui_tray_enable t = enable_right (enable_left t)

  -- The two tests of cui_tray_disable.
  drop_handler : ℕ → Icon → Icon
  drop_handler id icon = if id == 0 then icon else disconnect icon id

  unfoldable pub cui_tray_disable : Tray → Tray
  unfolding drop_handler
  cui_tray_disable t = record t {
    icon = drop_handler t.right_menu_handler_id (drop_handler t.left_menu_handler_id t.icon);
    left_menu_handler_id = 0;
    right_menu_handler_id = 0;
  }

  -- The calls of the file by the dialogs and by src/main.c.
  pub data Event : Type 0 where
    enable disable left_menu_disable : Event
    hook_left_menu hook_right_menu : String → Event

  unfoldable pub step : Event → Tray → Tray
  unfolding cui_tray_enable cui_tray_disable cui_tray_left_menu_disable
  step enable t = cui_tray_enable t
  step disable t = cui_tray_disable t
  step left_menu_disable t = cui_tray_left_menu_disable t
  step (hook_left_menu callback) t = cui_tray_hook_left_menu callback t
  step (hook_right_menu callback) t = cui_tray_hook_right_menu callback t

  unfoldable pub run : List Event → Tray → Tray
  run [] t = t
  run (e ∷ es) t = run es (step e t)
