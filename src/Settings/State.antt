-- ===== src/Settings/State.antt =====
-- The state of src/settings.c: its static variables, the widgets of its builder, the services of
-- lib/service.c, and the tray.
use connman_ui.Common.{ℕ, String, Bool, Option, none, some}
use connman_ui.MainLoop.{MainLoop}
use connman_ui.Service.State
use connman_ui.Service.State.{Answers}
use connman_ui.Ui.Gtk.{Gtk}
use connman_ui.Ui.Tray.{Signals, Tray}

-- The callbacks of the file that lib/service.c may hold: service_property_changed_cb,
-- service_property_set_cb and service_property_error_cb.
abbrev pub changed_cb : ℕ
changed_cb = 1

abbrev pub set_cb : ℕ
set_cb = 2

abbrev pub error_cb : ℕ
error_cb = 3

module _ (gtk : Gtk) (glib : MainLoop) (signals : Signals) where
  -- `opened` is `service_settings_dbox != NULL`. `favorite_handlers` and `autoconnect_handlers` count how
  -- often update_header has connected the two buttons of the header.
  pub record Dialog : Type 0 where
    pub ui : gtk.Ui
    pub opened : Bool
    pub path : Option String
    pub ipv4_changed : Bool
    pub ipv4_method : Option String
    pub ipv6_changed : Bool
    pub ipv6_method : Option String
    pub ipv6_privacy : Option String
    pub proxy_changed : Bool
    pub proxy_method : Option String
    pub nameservers_changed : Bool
    pub domains_changed : Bool
    pub timeservers_changed : Bool
    pub favorite_handlers : ℕ
    pub autoconnect_handlers : ℕ
    pub service : State.World glib
    pub tray : Tray signals

  abbrev pub on_ui : (gtk.Ui → gtk.Ui) → Dialog → Dialog
  on_ui f d = record d { ui = f d.ui }

  abbrev pub on_service : (State.World glib → State.World glib) → Dialog → Dialog
  on_service f d = record d { service = f d.service }

  -- What the functions of lib/service.c answer for `path`, which is NULL while no service is shown.
  abbrev pub ask : {A : Type 0} → A → (String → State.World glib → A) → Dialog → A
  ask missing get d = elim d.path [ none ↦ missing | some path ↦ get path d.service ]

  -- A request to lib/service.c for `path`, whose result is dropped.
  abbrev pub tell : (String → State.World glib → State.World glib) → Dialog → Dialog
  tell request d = elim d.path [ none ↦ d | some path ↦ on_service (request path) d ]
