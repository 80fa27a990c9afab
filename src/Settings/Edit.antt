-- ===== src/Settings/Edit.antt =====
-- src/settings.c: what the user edits, and what the button OK sends of it.
use connman_ui.Common.{String, true, Option, some, if◌then◌else◌}
use connman_ui.MainLoop.{MainLoop}
use connman_ui.Service.State
use connman_ui.Service.State.{Answers, Ipv4, Ipv6, Proxy}
use connman_ui.Service.Access.{connman_service_set_property_changed_callback}
use connman_ui.Service.Setting.{
  connman_service_set_ipv4_config, connman_service_set_ipv6_config,
  connman_service_set_proxy_config, connman_service_set_nameservers_config,
  connman_service_set_domains_config, connman_service_set_timeservers_config,
}
use connman_ui.Ui.Gtk.{Gtk}
use connman_ui.Ui.Tray.{Signals}
use connman_ui.Ui.Decimal.{atoi_u8}
use connman_ui.Ui.Utils.{get_entry_text, or_default}
use connman_ui.Settings.State.{Dialog, set_cb, tell}

-- The variable that a key in an entry sets: the user data of key_released_entry_cb.
pub data Flag : Type 0 where
  ipv4 ipv6 proxy nameservers domains timeservers : Flag

module _ (gtk : Gtk) (glib : MainLoop) (signals : Signals) where
  abbrev D : Type 0
  D = Dialog gtk glib signals

  unfoldable pub key_released_entry_cb : Flag → D → D
  key_released_entry_cb ipv4 d = record d { ipv4_changed = true }
  key_released_entry_cb ipv6 d = record d { ipv6_changed = true }
  key_released_entry_cb proxy d = record d { proxy_changed = true }
  key_released_entry_cb nameservers d = record d { nameservers_changed = true }
  key_released_entry_cb domains d = record d { domains_changed = true }
  key_released_entry_cb timeservers d = record d { timeservers_changed = true }

  abbrev entry : String → D → Option String
  entry name d = get_entry_text gtk name d.ui

  unfoldable pub get_ipv4_configuration : D → Ipv4
  unfolding get_entry_text
  get_ipv4_configuration d = record {
    method = d.ipv4_method;
    address = entry "ipv4_conf_address" d;
    netmask = entry "ipv4_conf_netmask" d;
    gateway = entry "ipv4_conf_gateway" d;
  }

  -- atoi reads the entry of the prefix, which the builder has.
  unfoldable pub get_ipv6_configuration : D → Ipv6
  unfolding get_entry_text atoi_u8
  get_ipv6_configuration d = record {
    method = d.ipv6_method;
    address = entry "ipv6_conf_address" d;
    prefix = atoi_u8 (or_default (entry "ipv6_conf_prefix_length" d) "");
    gateway = entry "ipv6_conf_gateway" d;
    privacy = d.ipv6_privacy;
  }

  unfoldable pub get_proxy_configuration : D → Proxy
  unfolding get_entry_text
  get_proxy_configuration d = record {
    method = d.proxy_method;
    url = entry "proxy_conf_url" d;
    servers = entry "proxy_conf_servers" d;
    excludes = entry "proxy_conf_excludes" d;
  }

  -- The requests of settings_ok_callback, at most one of them.
  unfoldable pub send_change : Answers → D → String → State.World glib → State.World glib
  unfolding get_ipv4_configuration get_ipv6_configuration get_proxy_configuration
  send_change answers d path w =
      if d.ipv4_changed
      then (connman_service_set_ipv4_config glib answers path (some (get_ipv4_configuration d)) w).1
      else if d.ipv6_changed
      then (connman_service_set_ipv6_config glib answers path (some (get_ipv6_configuration d)) w).1
      else if d.proxy_changed
      then (connman_service_set_proxy_config glib answers path (some (get_proxy_configuration d))
          w).1
      else if d.nameservers_changed
      then (connman_service_set_nameservers_config glib answers path (entry "nameservers_conf" d)
          w).1
      else if d.domains_changed
      then (connman_service_set_domains_config glib answers path (entry "domains_conf" d) w).1
      else if d.timeservers_changed
      then (connman_service_set_timeservers_config glib answers path (entry "timerservers_conf" d)
          w).1
      else w

  unfoldable pub settings_ok_callback : Answers → D → D
  unfolding send_change connman_service_set_property_changed_callback
  settings_ok_callback answers d =
      let d' =
        tell gtk glib signals
          (λ path. connman_service_set_property_changed_callback glib path (some set_cb) 0) d in
      tell gtk glib signals (send_change answers d') d'
