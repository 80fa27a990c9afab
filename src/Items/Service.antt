-- ===== src/Items/Service.antt =====
-- src/gtkservice.c: the item of a service in the left menu.
use connman_ui.Common.{ℕ, String, Bool, true, false, ◌==◌, Option, none, some, if◌then◌else◌}
use connman_ui.MainLoop.{MainLoop}
use connman_ui.Technology.State
use connman_ui.Technology.Access.{connman_technology_set_property_error_callback}
use connman_ui.Service.State.{World, Answers, Ipv4, Ipv6}
use connman_ui.Service.Access.{
  connman_service_set_property_changed_callback, connman_service_is_connected,
  connman_service_get_ipv4, connman_service_get_ipv6, connman_service_get_state,
  connman_service_get_type, connman_service_get_strength, connman_service_get_name,
  connman_service_is_favorite, connman_service_get_security,
}
use connman_ui.Service.Setting.{connman_service_connect, connman_service_disconnect}
use connman_ui.Ui.Gtk.{Gtk}
use connman_ui.Ui.Theme.{
  is_text, cui_theme_get_state_icone_and_info, cui_theme_get_signal_icone_and_info,
  cui_theme_get_type_icone_and_info,
}
use connman_ui.Ui.Utils.{or_default}
use connman_ui.Ui.Tray.{Signals}
use connman_ui.Dialogs.State.{Dialogs}
use connman_ui.Dialogs.Show.{cui_agent_set_selected_service}
use connman_ui.Settings.State.{Dialog, on_service}
use connman_ui.Settings.Popup.{cui_settings_popup}

-- service_property_changed_cb, which lib/service.c may hold; it does nothing.
abbrev pub changed_cb : ℕ
changed_cb = 31

-- The markup of the name: bold for a favorite, with the security in brackets for a wifi service.
pub record Markup : Type 0 where
  pub bold : Bool
  pub name : String
  pub security : Option (Option String)

module _ (gtk : Gtk) (glib : MainLoop) where
  open gtk use {Pixbuf}

  -- An image that is shown, with its tooltip.
  pub record Shown : Type 0 where
    pub image : Pixbuf
    pub info : Option String

  -- struct _GtkService and its private part: the properties of its widgets that the file sets. `state` and
  -- `signal` are none while they are not visible, `address` is the tooltip of the name.
  pub record GtkService : Type 0 where
    pub path : String
    pub selected : Bool
    pub name : Option Markup
    pub address : Option String
    pub state : Option Shown
    pub signal : Option Shown

  -- gtk_service_init, after which the path is written.
  unfoldable pub gtk_service_init : String → GtkService
  gtk_service_init path = record {
    path = path;
    selected = false;
    name = none;
    address = none;
    state = none;
    signal = none;
  }

  abbrev look_at : Option Pixbuf × Option String → Option Shown → Option Shown
  look_at (none, info) old = old
  look_at (some image, info) old = some (record { image = image; info = info })

  -- The members `address` of the two configurations, the first that the service has.
  unfoldable pub address_of : Option Ipv4 → Option Ipv6 → String
  address_of (some ipv4) ipv6 = or_default ipv4.address ""
  address_of none (some ipv6) = or_default ipv6.address ""
  address_of none none = ""

  unfoldable pub service_set_state : World glib → GtkService → GtkService
  unfolding address_of connman_service_is_connected connman_service_get_ipv4
      connman_service_get_ipv6 connman_service_get_state cui_theme_get_state_icone_and_info
  service_set_state w s =
      if connman_service_is_connected glib s.path w
      then record s {
        address = some (
            address_of (connman_service_get_ipv4 glib s.path w)
              (connman_service_get_ipv6 glib s.path w));
        state =
            look_at
              (cui_theme_get_state_icone_and_info gtk (connman_service_get_state glib s.path w))
              s.state;
      }
      else record s { address = some "" }

  unfoldable pub service_set_signal : World glib → GtkService → GtkService
  unfolding connman_service_get_type connman_service_get_strength
      cui_theme_get_signal_icone_and_info cui_theme_get_type_icone_and_info
  service_set_signal w s =
      let type = connman_service_get_type glib s.path w in
      record s {
        signal =
            look_at
              (if is_text type "wifi"
                then cui_theme_get_signal_icone_and_info gtk
                    (connman_service_get_strength glib s.path w)
                else cui_theme_get_type_icone_and_info gtk type)
              s.signal;
      }

  unfoldable pub service_set_name : World glib → GtkService → GtkService
  unfolding connman_service_get_name connman_service_is_favorite connman_service_get_type
      connman_service_get_security
  service_set_name w s = record s {
    name = some (record {
      bold = connman_service_is_favorite glib s.path w;
      name = or_default (connman_service_get_name glib s.path w) "- Hidden -";
      security =
          if is_text (connman_service_get_type glib s.path w) "wifi"
          then some (connman_service_get_security glib s.path w)
          else none;
    });
  }

  -- `widget` is the new item, `made` whether there is memory for it.
  unfoldable pub gtk_service_new : Bool → String → ℕ → World glib → Option GtkService × World glib
  unfolding gtk_service_init service_set_name service_set_state service_set_signal
      connman_service_set_property_changed_callback
  gtk_service_new false path widget w = (none, w)
  gtk_service_new true path widget w =
      let w' = connman_service_set_property_changed_callback glib path (some changed_cb) widget w in
      let s = service_set_name w' (gtk_service_init path) in
      (some (service_set_signal w' (service_set_state w' s)), w')

  -- The second callback that it clears is one of lib/technology.c.
  unfoldable pub gtk_service_destroy :
      ℕ → GtkService → World glib → State.World glib → World glib × State.World glib
  unfolding connman_service_set_property_changed_callback
      connman_technology_set_property_error_callback
  gtk_service_destroy widget s w t = if s.selected then (w, t) else (
    connman_service_set_property_changed_callback glib s.path none widget w,
    connman_technology_set_property_error_callback glib s.path none widget t,
  )

  -- The click also activates the item in its menu, which is left to GTK. `memory` and `loaded` are those of
  -- the settings dialog.
  unfoldable pub gtk_service_button_release_event :
      (signals : Signals)
      → Answers
      → Bool
      → Option gtk.Ui
      → ℕ
      → GtkService
      → Dialogs gtk glib signals
      → Dialog gtk glib signals
      → GtkService × Dialogs gtk glib signals × Dialog gtk glib signals
  unfolding connman_service_is_connected connman_service_get_name connman_service_connect
      connman_service_disconnect cui_agent_set_selected_service cui_settings_popup
  gtk_service_button_release_event signals answers memory loaded button s d e =
      if button == 1
      then (if connman_service_is_connected glib s.path e.service
          then (
            s,
            d,
            on_service gtk glib signals (λ w. (connman_service_disconnect glib answers s.path w).1)
                e,
          )
          else (
            s,
            cui_agent_set_selected_service gtk glib signals (some s.path)
                (connman_service_get_name glib s.path e.service) d,
            on_service gtk glib signals (λ w. (connman_service_connect glib answers s.path w).1) e,
          ))
      else if button == 3
      then (
        record s { selected = true },
        d,
        (cui_settings_popup gtk glib signals answers memory loaded s.path e).1,
      )
      else (s, d, e)
