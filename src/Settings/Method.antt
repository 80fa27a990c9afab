-- ===== src/Settings/Method.antt =====
-- src/settings.c: the toggle buttons of the methods, and what their handlers do.
use connman_ui.Common.{
  ℕ, zero, suc, String, Bool, true, false, Option, some, List, [], ◌∷◌, ◌||◌, str_eq, if◌then◌else◌,
}
use connman_ui.MainLoop.{MainLoop}
use connman_ui.Service.State.{Answers}
use connman_ui.Service.Setting.{connman_service_remove, connman_service_set_autoconnectable}
use connman_ui.Ui.Gtk.{Gtk}
use connman_ui.Ui.Tray.{Signals}
use connman_ui.Ui.Theme.{is_text}
use connman_ui.Ui.Utils.{set_widget_sensitive, set_button_toggle}
use connman_ui.Settings.State.{Dialog, on_ui, tell}

module _ (gtk : Gtk) (glib : MainLoop) (signals : Signals) (answers : Answers) where
  abbrev D : Type 0
  D = Dialog gtk glib signals

  -- The three entries of a configuration.
  abbrev three : String → String → String → Bool → gtk.Ui → gtk.Ui
  three a b c enable u =
      set_widget_sensitive gtk c enable
        (set_widget_sensitive gtk b enable (set_widget_sensitive gtk a enable u))

  unfoldable pub enable_ipv4_config : Bool → gtk.Ui → gtk.Ui
  unfolding set_widget_sensitive
  enable_ipv4_config = three "ipv4_conf_address" "ipv4_conf_netmask" "ipv4_conf_gateway"

  unfoldable pub enable_ipv6_config : Bool → gtk.Ui → gtk.Ui
  unfolding set_widget_sensitive
  enable_ipv6_config = three "ipv6_conf_address" "ipv6_conf_prefix_length" "ipv6_conf_gateway"

  unfoldable pub enable_proxy_config : Bool → gtk.Ui → gtk.Ui
  unfolding set_widget_sensitive
  enable_proxy_config = three "proxy_conf_url" "proxy_conf_servers" "proxy_conf_excludes"

  -- The handlers: `name` is their user data, `active` the state of the button.
  unfoldable pub toggled_ipv4_method_cb : String → Bool → D → D
  unfolding enable_ipv4_config
  toggled_ipv4_method_cb name false d = d
  toggled_ipv4_method_cb name true d =
      let manual = str_eq name "ipv4_manual" in
      let method = if manual then "manual" else if str_eq name "ipv4_dhcp" then "dhcp" else "off" in
      record (on_ui gtk glib signals (enable_ipv4_config manual) d) {
        ipv4_method = some method;
        ipv4_changed = true;
      }

  unfoldable pub toggled_ipv6_method_cb : String → Bool → D → D
  unfolding enable_ipv6_config
  toggled_ipv6_method_cb name false d = d
  toggled_ipv6_method_cb name true d =
      let manual = str_eq name "ipv6_manual" in
      let auto = if manual then false else str_eq name "ipv6_auto" in
      let method = if manual then "manual" else if auto then "auto" else "off" in
      let shown = λ (u : gtk.Ui).
        set_widget_sensitive gtk "ipv6_priv_box" auto (enable_ipv6_config manual u) in
      record (on_ui gtk glib signals shown d) { ipv6_method = some method; ipv6_changed = true }

  unfoldable pub toggled_ipv6_privacy_cb : String → D → D
  toggled_ipv6_privacy_cb name d =
      let privacy =
        if str_eq name "ipv6_priv_enabled"
        then "enabled"
        else if str_eq name "ipv6_priv_disabled"
        then "disabled"
        else "prefered" in
      record d { ipv6_privacy = some privacy; ipv6_changed = true }

  unfoldable pub toggled_proxy_method_cb : String → Bool → D → D
  unfolding enable_proxy_config
  toggled_proxy_method_cb name false d = d
  toggled_proxy_method_cb name true d =
      let manual = str_eq name "proxy_manual" in
      let method =
        if manual then "manual" else if str_eq name "proxy_direct" then "direct" else "auto" in
      record (on_ui gtk glib signals (enable_proxy_config manual) d) {
        proxy_method = some method;
        proxy_changed = true;
      }

  unfoldable pub favorite_button_toggled : Bool → D → D
  favorite_button_toggled true d = d
  favorite_button_toggled false d =
      tell gtk glib signals (λ path w. (connman_service_remove glib answers path w).1) d

  unfoldable pub autoconnect_button_toggled : Bool → D → D
  autoconnect_button_toggled active d =
      tell gtk glib signals
        (λ path w. (connman_service_set_autoconnectable glib answers path active w).1) d

  -- A handler that is connected n times runs n times.
  unfoldable pub times : ℕ → (D → D) → D → D
  times zero f d = d
  times (suc n) f d = times n f (f d)

  -- The handlers of a `toggled` signal, as settings_connect_signals and update_header connect them.
  unfoldable pub toggled : String → Bool → D → D
  unfolding toggled_ipv4_method_cb toggled_ipv6_method_cb toggled_ipv6_privacy_cb
      toggled_proxy_method_cb times favorite_button_toggled autoconnect_button_toggled
  toggled name active d =
      if str_eq name "ipv4_dhcp" || (str_eq name "ipv4_manual" || str_eq name "ipv4_off")
      then toggled_ipv4_method_cb name active d
      else if str_eq name "ipv6_auto" || (str_eq name "ipv6_manual" || str_eq name "ipv6_off")
      then toggled_ipv6_method_cb name active d
      else if str_eq name "ipv6_priv_prefered"
          || (str_eq name "ipv6_priv_enabled" || str_eq name "ipv6_priv_disabled")
      then toggled_ipv6_privacy_cb name d
      else if str_eq name "proxy_auto" || (str_eq name "proxy_direct" || str_eq name "proxy_manual")
      then toggled_proxy_method_cb name active d
      else if str_eq name "service_favorite"
      then times d.favorite_handlers (favorite_button_toggled active) d
      else if str_eq name "service_autoconnect"
      then times d.autoconnect_handlers (autoconnect_button_toggled active) d
      else d

  unfoldable pub all_toggled : List (String × Bool) → D → D
  unfolding toggled
  all_toggled [] d = d
  all_toggled ((name, active) ∷ rest) d = all_toggled rest (toggled name active d)

  -- set_button_toggle, and toggle_button, with the handlers of the signals that they emit.
  unfoldable pub toggle : String → Bool → D → D
  unfolding all_toggled set_button_toggle
  toggle name active d =
      let (emitted, u) = set_button_toggle gtk name active d.ui in
      all_toggled emitted (record d { ui = u })

  unfoldable pub toggle_button : String → D → D
  unfolding toggle
  toggle_button name d = toggle name true d

  unfoldable pub set_ipv4_method : Option String → D → D
  unfolding toggle_button enable_ipv4_config
  set_ipv4_method method d =
      if is_text method "dhcp"
      then on_ui gtk glib signals (enable_ipv4_config false) (toggle_button "ipv4_dhcp" d)
      else if is_text method "manual"
      then on_ui gtk glib signals (enable_ipv4_config true) (toggle_button "ipv4_manual" d)
      else on_ui gtk glib signals (enable_ipv4_config false) (toggle_button "ipv4_off" d)

  unfoldable pub set_ipv6_method : Option String → D → D
  unfolding toggle_button enable_ipv6_config
  set_ipv6_method method d =
      let auto = is_text method "auto" in
      let d' =
        if auto
        then on_ui gtk glib signals (enable_ipv6_config false) (toggle_button "ipv6_auto" d)
        else if is_text method "manual"
        then on_ui gtk glib signals (enable_ipv6_config true) (toggle_button "ipv6_manual" d)
        else on_ui gtk glib signals (enable_ipv6_config false) (toggle_button "ipv6_off" d) in
      on_ui gtk glib signals (set_widget_sensitive gtk "ipv6_priv_box" auto) d'

  unfoldable pub set_ipv6_privacy : Option String → D → D
  unfolding toggle_button
  set_ipv6_privacy privacy d =
      if is_text privacy "enabled"
      then toggle_button "ipv6_priv_enabled" d
      else if is_text privacy "prefered"
      then toggle_button "ipv6_priv_prefered" d
      else toggle_button "ipv6_priv_disabled" d

  unfoldable pub set_proxy_method : Option String → D → D
  unfolding toggle_button enable_proxy_config
  set_proxy_method method d =
      if is_text method "auto"
      then on_ui gtk glib signals (enable_proxy_config false) (toggle_button "proxy_auto" d)
      else if is_text method "direct"
      then on_ui gtk glib signals (enable_proxy_config false) (toggle_button "proxy_direct" d)
      else on_ui gtk glib signals (enable_proxy_config true) (toggle_button "proxy_manual" d)
