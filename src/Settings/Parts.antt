-- ===== src/Settings/Parts.antt =====
-- src/settings.c: what the dialog shows of the other parts of the service.
use connman_ui.Common.{String, Bool, true, false, Option, none, some, if◌then◌else◌}
use connman_ui.MainLoop.{MainLoop}
use connman_ui.Service.State
use connman_ui.Service.State.{Answers, Proxy, Provider, Ethernet}
use connman_ui.Service.Access.{
  connman_service_get_proxy, connman_service_get_proxy_config, connman_service_get_provider,
  connman_service_get_ethernet, connman_service_get_nameservers,
  connman_service_get_nameservers_config, connman_service_get_domains,
  connman_service_get_domains_config, connman_service_get_timeservers,
  connman_service_get_timeservers_config,
}
use connman_ui.Ui.Gtk.{Gtk}
use connman_ui.Ui.Tray.{Signals}
use connman_ui.Ui.Decimal.{snprintf_6}
use connman_ui.Ui.Utils.{set_entry, set_label, set_widget_sensitive}
use connman_ui.Settings.State.{Dialog, on_ui, ask}
use connman_ui.Settings.Method.{set_proxy_method}

module _ (gtk : Gtk) (glib : MainLoop) (signals : Signals) (answers : Answers) where
  abbrev D : Type 0
  D = Dialog gtk glib signals

  abbrev on : (gtk.Ui → gtk.Ui) → D → D
  on = on_ui gtk glib signals

  abbrev entry : String → Option String → gtk.Ui → gtk.Ui
  entry name value = set_entry gtk name value ""

  abbrev label : String → Option String → gtk.Ui → gtk.Ui
  label name value = set_label gtk name value ""

  abbrev with_path : {A : Type 0} → A → (String → State.World glib → A) → D → A
  with_path = ask gtk glib signals

  unfoldable pub update_dns : D → D
  unfolding set_entry connman_service_get_nameservers connman_service_get_nameservers_config
      connman_service_get_domains connman_service_get_domains_config
  update_dns d =
      on
        (λ u. entry "domains_conf" (with_path none (connman_service_get_domains_config glib) d) (
          entry "domains" (with_path none (connman_service_get_domains glib) d) (
            entry "nameservers_conf"
              (with_path none (connman_service_get_nameservers_config glib) d)
              (entry "nameservers" (with_path none (connman_service_get_nameservers glib) d) u))))
        d

  unfoldable pub update_timeservers : D → D
  unfolding set_entry connman_service_get_timeservers connman_service_get_timeservers_config
  update_timeservers d =
      on
        (λ u.
          entry "timerservers_conf" (with_path none (connman_service_get_timeservers_config glib) d)
            (entry "timerservers" (with_path none (connman_service_get_timeservers glib) d) u))
        d

  -- The three entries of a part.
  abbrev entries : String → String → String → Option String → Option String → Option String → D → D
  entries a b c x y z = on (λ u. entry c z (entry b y (entry a x u)))

  abbrev blank : String → String → String → D → D
  blank a b c = entries a b c (some "") (some "") (some "")

  config_proxy : Bool → Option Proxy → D → D
  unfolding set_proxy_method set_entry set_widget_sensitive
  config_proxy method_set none d =
      let d' = blank "proxy_conf_url" "proxy_conf_servers" "proxy_conf_excludes" d in
      if method_set then d' else on (set_widget_sensitive gtk "proxy_settings" false) d'
  config_proxy method_set (some c) d =
      let d' = if method_set then d else set_proxy_method gtk glib signals answers c.method d in
      on (set_widget_sensitive gtk "proxy_settings" true) (
        entries "proxy_conf_url" "proxy_conf_servers" "proxy_conf_excludes" c.url c.servers
          c.excludes d')

  unfoldable pub update_proxy : D → D
  unfolding config_proxy set_proxy_method set_entry set_label connman_service_get_proxy
      connman_service_get_proxy_config
  update_proxy d =
      let conf = with_path none (connman_service_get_proxy_config glib) d in
      elim (with_path none (connman_service_get_proxy glib) d) [
        | none ↦ config_proxy false conf (
            blank "proxy_url" "proxy_servers" "proxy_excludes"
              (on (label "proxy_method" (some "")) d))
        | some c ↦ config_proxy true conf (
            entries "proxy_url" "proxy_servers" "proxy_excludes" c.url c.servers c.excludes
              (set_proxy_method gtk glib signals answers c.method d))
      ]

  show_provider : Option Provider → gtk.Ui → gtk.Ui
  unfolding set_label set_widget_sensitive
  show_provider none u = set_widget_sensitive gtk "provider_settings" false (
      label "provider_type" (some "") (
        label "provider_name" (some "")
          (label "provider_domain" (some "") (label "provider_host" (some "") u))))
  show_provider (some p) u = set_widget_sensitive gtk "provider_settings" true (
      label "provider_type" p.type (
        label "provider_name" p.name
          (label "provider_domain" p.domain (label "provider_host" p.host u))))

  unfoldable pub update_provider : D → D
  unfolding show_provider connman_service_get_provider
  update_provider d = on (show_provider (with_path none (connman_service_get_provider glib) d)) d

  ethernet_labels :
      Option String
      → Option String
      → Option String
      → String
      → String
      → Option String
      → Bool
      → gtk.Ui
      → gtk.Ui
  unfolding set_label set_widget_sensitive
  ethernet_labels method interface address mtu speed duplex known u =
      set_widget_sensitive gtk "ethernet_settings" known (
        label "ethernet_duplex" duplex (
          label "ethernet_speed" (some speed) (
            label "ethernet_mtu" (some mtu) (
              label "ethernet_address" address
                (label "ethernet_interface" interface (label "ethernet_method" method u))))))

  show_ethernet : Option Ethernet → gtk.Ui → gtk.Ui
  unfolding ethernet_labels snprintf_6
  show_ethernet none = ethernet_labels (some "") (some "") (some "") "0" "0" (some "") false
  show_ethernet (some e) =
      ethernet_labels e.method e.interface e.address (snprintf_6 e.mtu) (snprintf_6 e.speed)
        e.duplex true

  unfoldable pub update_ethernet : D → D
  unfolding show_ethernet connman_service_get_ethernet
  update_ethernet d = on (show_ethernet (with_path none (connman_service_get_ethernet glib) d)) d
