-- ===== src/Settings/Popup.antt =====
-- src/settings.c: how the dialog opens and closes, and the callbacks that it hands to lib/service.c.
use connman_ui.Common.{
  ℕ, String, Bool, true, false, Option, none, some, List, [], ◌∷◌, Ret, ok, einval, enomem,
  if◌then◌else◌,
}
use connman_ui.MainLoop.{MainLoop}
use connman_ui.Service.State.{Answers}
use connman_ui.Service.Life.{connman_service_select, connman_service_deselect}
use connman_ui.Service.Access.{
  connman_service_set_property_changed_callback, connman_service_set_property_error_callback,
}
use connman_ui.Ui.Gtk.{Gtk, destroy, show}
use connman_ui.Ui.Tray.{Signals, cui_tray_enable, cui_tray_disable}
use connman_ui.Ui.Utils.{set_signal_callback}
use connman_ui.Settings.State.{Dialog, changed_cb, error_cb, on_ui, on_service, tell}
use connman_ui.Settings.Show.{update_header, update_ipv4, update_ipv6}
use connman_ui.Settings.Parts.{
  update_dns, update_timeservers, update_proxy, update_provider, update_ethernet,
}

-- The signals of settings_connect_signals: widget, signal, handler, user data.
abbrev connections : List (String × String × String × String)
connections =
    ("ipv4_dhcp", "toggled", "toggled_ipv4_method_cb", "ipv4_dhcp")
    ∷ ("ipv4_manual", "toggled", "toggled_ipv4_method_cb", "ipv4_manual")
    ∷ ("ipv4_off", "toggled", "toggled_ipv4_method_cb", "ipv4_off")
    ∷ ("ipv6_auto", "toggled", "toggled_ipv6_method_cb", "ipv6_auto")
    ∷ ("ipv6_manual", "toggled", "toggled_ipv6_method_cb", "ipv6_manual")
    ∷ ("ipv6_off", "toggled", "toggled_ipv6_method_cb", "ipv6_off")
    ∷ ("ipv4_conf_address", "key-release-event", "key_released_entry_cb", "ipv4_changed")
    ∷ ("ipv4_conf_netmask", "key-release-event", "key_released_entry_cb", "ipv4_changed")
    ∷ ("ipv4_conf_gateway", "key-release-event", "key_released_entry_cb", "ipv4_changed")
    ∷ ("ipv6_conf_address", "key-release-event", "key_released_entry_cb", "ipv6_changed")
    ∷ ("ipv6_conf_prefix_length", "key-release-event", "key_released_entry_cb", "ipv6_changed")
    ∷ ("ipv6_conf_gateway", "key-release-event", "key_released_entry_cb", "ipv6_changed")
    ∷ ("ipv6_priv_prefered", "toggled", "toggled_ipv6_privacy_cb", "ipv6_priv_prefered")
    ∷ ("ipv6_priv_enabled", "toggled", "toggled_ipv6_privacy_cb", "ipv6_priv_enabled")
    ∷ ("ipv6_priv_disabled", "toggled", "toggled_ipv6_privacy_cb", "ipv6_priv_disabled")
    ∷ ("nameservers_conf", "key-release-event", "key_released_entry_cb", "nameservers_changed")
    ∷ ("domains_conf", "key-release-event", "key_released_entry_cb", "domains_changed")
    ∷ ("timerservers_conf", "key-release-event", "key_released_entry_cb", "timeservers_changed")
    ∷ ("proxy_auto", "toggled", "toggled_proxy_method_cb", "proxy_auto")
    ∷ ("proxy_direct", "toggled", "toggled_proxy_method_cb", "proxy_direct")
    ∷ ("proxy_manual", "toggled", "toggled_proxy_method_cb", "proxy_manual")
    ∷ ("proxy_conf_url", "key-release-event", "key_released_entry_cb", "proxy_changed")
    ∷ ("proxy_conf_servers", "key-release-event", "key_released_entry_cb", "proxy_changed")
    ∷ ("proxy_conf_excludes", "key-release-event", "key_released_entry_cb", "proxy_changed")
    ∷ ("settings_ok", "clicked", "settings_ok_callback", "")
    ∷ ("settings_close", "clicked", "settings_cancel_callback", "")
    ∷ ("service_settings_dbox", "response", "settings_close_callback", "")
    ∷ []

module _ (gtk : Gtk) (glib : MainLoop) (signals : Signals) (answers : Answers) where
  abbrev D : Type 0
  D = Dialog gtk glib signals

  connect_all : List (String × String × String × String) → gtk.Ui → gtk.Ui
  unfolding set_signal_callback
  connect_all [] u = u
  connect_all ((name, signal, handler, user_data) ∷ rest) u =
      connect_all rest (set_signal_callback gtk name signal handler user_data u)

  unfoldable pub settings_connect_signals : gtk.Ui → gtk.Ui
  unfolding connect_all
  settings_connect_signals = connect_all connections

  -- A callback of lib/service.c, whose argument `path` may be NULL.
  abbrev changed_callback : Option String → Option ℕ → D → D
  changed_callback none cb d = d
  changed_callback (some path) cb d =
      on_service gtk glib signals (connman_service_set_property_changed_callback glib path cb 0) d

  unfoldable pub service_property_changed_cb : D → D
  unfolding update_header
  service_property_changed_cb = update_header gtk glib signals answers

  -- Everything is shown anew.
  unfoldable pub update_all : D → D
  unfolding update_header update_ipv4 update_ipv6 update_dns update_timeservers update_proxy
      update_provider update_ethernet
  update_all d = update_ethernet gtk glib signals answers (
      update_provider gtk glib signals answers (
        update_proxy gtk glib signals answers (
          update_timeservers gtk glib signals answers (
            update_dns gtk glib signals answers (
              update_ipv6 gtk glib signals answers (
                update_ipv4 gtk glib signals answers
                  (update_header gtk glib signals answers d)))))))

  unfoldable pub no_changes : D → D
  no_changes d = record d {
    ipv4_changed = false;
    ipv6_changed = false;
    proxy_changed = false;
    nameservers_changed = false;
    domains_changed = false;
    timeservers_changed = false;
  }

  -- The argument hides the variable of the file.
  unfoldable pub service_property_set_cb : Option String → D → D
  unfolding update_all no_changes connman_service_set_property_changed_callback
  service_property_set_cb path d =
      changed_callback path (some changed_cb) (no_changes (update_all d))

  unfoldable pub service_property_error_cb : D → D
  unfolding service_property_set_cb
  service_property_error_cb = service_property_set_cb none

  unfoldable pub settings_cancel_callback : D → D
  unfolding connman_service_set_property_changed_callback
      connman_service_set_property_error_callback connman_service_deselect cui_tray_enable
  settings_cancel_callback d =
      let closed : D = record d {
        ui = gtk.act "service_settings_dbox" destroy d.ui;
        opened = false;
      } in
      let silent =
        tell gtk glib signals (λ path. connman_service_set_property_error_callback glib path none 0)
          (tell gtk glib signals
            (λ path. connman_service_set_property_changed_callback glib path none 0) closed) in
      record silent {
        service = connman_service_deselect glib silent.service;
        path = none;
        tray = cui_tray_enable signals silent.tray;
      }

  -- GTK_RESPONSE_DELETE_EVENT or GTK_RESPONSE_CLOSE
  unfoldable pub settings_close_callback : Bool → D → D
  unfolding settings_cancel_callback
  settings_close_callback closes d = if closes then settings_cancel_callback d else d

  -- `made` tells whether the builder is there, `loaded` is its new widgets, none if they cannot be read.
  unfoldable pub cui_settings_popup : Bool → Option gtk.Ui → String → D → Ret × D
  unfolding settings_connect_signals service_property_set_cb connman_service_select
      connman_service_set_property_changed_callback connman_service_set_property_error_callback
      cui_tray_disable
  cui_settings_popup false loaded selected_path d = (enomem, d)
  cui_settings_popup true none selected_path d = (einval, d)
  cui_settings_popup true (some u) selected_path d =
      let selected : D = record d {
        service = (connman_service_select glib selected_path d.service).1;
        path = some selected_path;
        opened = true;
        favorite_handlers = 0;
        autoconnect_handlers = 0;
        ui = gtk.act "service_settings_dbox" show u;
      } in
      let heard : D =
        on_service gtk glib signals
          (λ w. connman_service_set_property_error_callback glib selected_path (some error_cb) 0 (
            connman_service_set_property_changed_callback glib selected_path (some changed_cb) 0 w))
          selected in
      let shown =
        service_property_set_cb none (on_ui gtk glib signals settings_connect_signals heard) in
      (ok, record shown { tray = cui_tray_disable signals shown.tray })
