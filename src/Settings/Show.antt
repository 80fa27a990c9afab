-- ===== src/Settings/Show.antt =====
-- src/settings.c: what the dialog shows of the service.
use connman_ui.Common.{suc, String, Bool, true, false, Option, none, some, if◌then◌else◌}
use connman_ui.MainLoop.{MainLoop}
use connman_ui.Manager.State.{offline}
use connman_ui.Service.State
use connman_ui.Service.State.{Answers, Ipv4, Ipv6}
use connman_ui.Service.Access.{
  connman_service_get_name, connman_service_get_type, connman_service_get_error,
  connman_service_get_state, connman_service_get_strength, connman_service_is_connected,
  connman_service_is_favorite, connman_service_is_autoconnect, connman_service_get_ipv4,
  connman_service_get_ipv4_config, connman_service_get_ipv6, connman_service_get_ipv6_config,
}
use connman_ui.Ui.Gtk.{Gtk, connect}
use connman_ui.Ui.Tray.{Signals}
use connman_ui.Ui.Decimal.{snprintf_6}
use connman_ui.Ui.Theme.{
  Look, is_text, cui_theme_get_type_icone_and_info, cui_theme_get_signal_icone_and_info,
  cui_theme_get_state_icone_and_info,
}
use connman_ui.Ui.Utils.{set_entry, set_label, set_image, set_widget_sensitive}
use connman_ui.Settings.State.{Dialog, on_ui, ask}
use connman_ui.Settings.Method.{toggle, set_ipv4_method, set_ipv6_method, set_ipv6_privacy}

module _ (gtk : Gtk) (glib : MainLoop) (signals : Signals) (answers : Answers) where
  abbrev D : Type 0
  D = Dialog gtk glib signals

  abbrev on : (gtk.Ui → gtk.Ui) → D → D
  on = on_ui gtk glib signals

  abbrev entry : String → Option String → gtk.Ui → gtk.Ui
  entry name value = set_entry gtk name value ""

  abbrev label : String → Option String → gtk.Ui → gtk.Ui
  label name value = set_label gtk name value ""

  abbrev with_path : {A : Type 0} → A → (String → State.World glib → A) → D → A
  with_path = ask gtk glib signals

  -- The icon and the text of the type or, for wifi, of the strength.
  type_look : D → Look gtk
  unfolding connman_service_get_type connman_service_get_strength cui_theme_get_type_icone_and_info
      cui_theme_get_signal_icone_and_info
  type_look d =
      let type = with_path none (connman_service_get_type glib) d in
      if is_text type "wifi"
      then cui_theme_get_signal_icone_and_info gtk
          (with_path 0 (connman_service_get_strength glib) d)
      else cui_theme_get_type_icone_and_info gtk type

  -- The look of the state; the text of the type stays where there is none.
  state_look : Option String → D → Look gtk
  unfolding connman_service_is_connected connman_service_get_state
      cui_theme_get_state_icone_and_info
  state_look info d =
      if with_path false (connman_service_is_connected glib) d
      then cui_theme_get_state_icone_and_info gtk
          (with_path offline (connman_service_get_state glib) d)
      else (none, info)

  -- A button of the header: toggled first, with the handlers of earlier calls, and connected once more
  -- for a favorite.
  header_toggle : String → String → Bool → Bool → D → D
  unfolding toggle set_widget_sensitive
  header_toggle name handler active favorite d =
      let d' =
        on (set_widget_sensitive gtk name favorite)
          (toggle gtk glib signals answers name active d) in
      if favorite then on (gtk.act name (connect "toggled" handler "")) d' else d'

  unfoldable pub update_header : D → D
  unfolding type_look state_look header_toggle set_image set_label connman_service_get_name
      connman_service_get_error connman_service_is_favorite connman_service_is_autoconnect
  update_header d =
      let (image, info) = type_look d in
      let (image', info') = state_look info d in
      let favorite = with_path false (connman_service_is_favorite glib) d in
      let shown = λ (u : gtk.Ui).
        label "service_error" (with_path none (connman_service_get_error glib) d) (
          set_image gtk "service_state" image' info' (
            set_label gtk "service_name" (with_path none (connman_service_get_name glib) d)
              "- Hidden -" (set_image gtk "service_type" image info u))) in
      let d1 =
        header_toggle "service_autoconnect" "autoconnect_button_toggled"
          (with_path false (connman_service_is_autoconnect glib) d) favorite (on shown d) in
      let d2 : D =
        if favorite then record d1 { autoconnect_handlers = suc d1.autoconnect_handlers } else d1 in
      let d3 = header_toggle "service_favorite" "favorite_button_toggled" favorite favorite d2 in
      if favorite then record d3 { favorite_handlers = suc d3.favorite_handlers } else d3

  -- The three entries of a part, from a configuration or empty.
  abbrev entries : String → String → String → Option String → Option String → Option String → D → D
  entries a b c x y z = on (λ u. entry c z (entry b y (entry a x u)))

  abbrev blank : String → String → String → D → D
  blank a b c = entries a b c (some "") (some "") (some "")

  config_ipv4 : Bool → Option Ipv4 → D → D
  unfolding set_ipv4_method set_entry set_widget_sensitive
  config_ipv4 method_set none d =
      let d' = blank "ipv4_conf_address" "ipv4_conf_netmask" "ipv4_conf_gateway" d in
      if method_set then d' else on (set_widget_sensitive gtk "ipv4_settings" false) d'
  config_ipv4 method_set (some c) d =
      let d' = if method_set then d else set_ipv4_method gtk glib signals answers c.method d in
      on (set_widget_sensitive gtk "ipv4_settings" true) (
        entries "ipv4_conf_address" "ipv4_conf_netmask" "ipv4_conf_gateway" c.address c.netmask
          c.gateway d')

  -- `method_set` of config_ipv4 is `ipv4 != NULL`.
  unfoldable pub update_ipv4 : D → D
  unfolding config_ipv4 set_ipv4_method set_entry connman_service_get_ipv4
      connman_service_get_ipv4_config
  update_ipv4 d =
      let conf = with_path none (connman_service_get_ipv4_config glib) d in
      elim (with_path none (connman_service_get_ipv4 glib) d) [
        | none ↦ config_ipv4 false conf (blank "ipv4_address" "ipv4_netmask" "ipv4_gateway" d)
        | some c ↦ config_ipv4 true conf (
            entries "ipv4_address" "ipv4_netmask" "ipv4_gateway" c.address c.netmask c.gateway
              (set_ipv4_method gtk glib signals answers c.method d))
      ]

  unfoldable pub config_ipv6 : Bool → Option Ipv6 → D → D
  unfolding set_ipv6_method set_ipv6_privacy set_entry set_widget_sensitive snprintf_6
  config_ipv6 method_set none d =
      let d' = blank "ipv6_conf_address" "ipv6_conf_prefix_length" "ipv6_conf_gateway" d in
      if method_set then d' else on (set_widget_sensitive gtk "ipv6_settings" false) d'
  config_ipv6 method_set (some c) d =
      let d1 = if method_set then d else set_ipv6_method gtk glib signals answers c.method d in
      let d2 =
        entries "ipv6_conf_address" "ipv6_conf_prefix_length" "ipv6_conf_gateway" c.address
          (some (snprintf_6 c.prefix)) c.gateway d1 in
      if method_set then d2 else set_ipv6_privacy gtk glib signals answers c.privacy d2

  -- The configuration in use, whose texts go to labels, then the other one.
  unfoldable pub show_ipv6 : Option Ipv6 → Option Ipv6 → D → D
  unfolding config_ipv6 set_ipv6_method set_ipv6_privacy set_entry set_label snprintf_6
  show_ipv6 none conf d =
      config_ipv6 false conf (blank "ipv6_address" "ipv6_prefix_length" "ipv6_gateway" d)
  show_ipv6 (some c) conf d =
      let shown = λ (u : gtk.Ui). label "ipv6_gateway" c.gateway (
        label "ipv6_prefix_length" (some (snprintf_6 c.prefix))
          (label "ipv6_address" c.address u)) in
      config_ipv6 true conf (
        set_ipv6_privacy gtk glib signals answers c.privacy
          (on shown (set_ipv6_method gtk glib signals answers c.method d)))

  unfoldable pub update_ipv6 : D → D
  unfolding show_ipv6 connman_service_get_ipv6 connman_service_get_ipv6_config
  update_ipv6 d =
      show_ipv6 (with_path none (connman_service_get_ipv6 glib) d)
        (with_path none (connman_service_get_ipv6_config glib) d) d
