-- ===== src/Service/Access.antt =====
-- lib/service.c: the callbacks that the user interface sets, and what it reads.
use connman_ui.Common.{ℕ, String, Bool, false, true, Option, none, some}
use connman_ui.MainLoop.{MainLoop}
use connman_ui.Manager.State.{Callback, UserPointer, ConnmanState, offline, ready, online}
use connman_ui.Service.State.{Service, World, get_service, Ipv4, Ipv6, Proxy, Provider, Ethernet}
use connman_ui.Service.Property.{modify}
use connman_ui.Service.Life.{with_interface}

module _ (glib : MainLoop) where
  -- get_service, and a member of what it finds, or the answer without a service.
  unfoldable pub member_of : {A : Type 0} → A → (Service → A) → String → World glib → A
  unfolding get_service
  member_of missing get path w = elim (get_service glib path w) [
    | none ↦ missing
    | some p ↦ elim (w.heap p) [ none ↦ missing | some s ↦ get s ]
  ]

  -- A write to members of the service at a path, if there is one.
  unfoldable pub modify_at : (Service → Service) → String → World glib → World glib
  unfolding get_service
  modify_at f path w = elim (get_service glib path w) [ none ↦ w | some p ↦ modify glib p f w ]

  unfoldable pub connman_service_set_property_changed_callback :
      String → Option Callback → UserPointer → World glib → World glib
  unfolding modify_at
  connman_service_set_property_changed_callback path cb user_data =
      modify_at (λ s. record s { property_changed_cb = cb; property_changed_user_data = user_data })
        path

  unfoldable pub connman_service_set_property_error_callback :
      String → Option Callback → UserPointer → World glib → World glib
  unfolding modify_at
  connman_service_set_property_error_callback path cb user_data =
      modify_at
        (λ s. record s { property_set_error_cb = cb; property_set_error_user_data = user_data })
        path

  unfoldable pub connman_service_set_removed_callback : Option Callback → World glib → World glib
  connman_service_set_removed_callback cb = with_interface glib (λ i. record i { removed_cb = cb })

  unfoldable pub connman_service_get_name : String → World glib → Option String
  unfolding member_of
  connman_service_get_name = member_of none (λ s. s.name)

  unfoldable pub connman_service_get_type : String → World glib → Option String
  unfolding member_of
  connman_service_get_type = member_of none (λ s. s.type)

  unfoldable pub connman_service_get_error : String → World glib → Option String
  unfolding member_of
  connman_service_get_error = member_of none (λ s. s.error)

  unfoldable pub connman_service_get_security : String → World glib → Option String
  unfolding member_of
  connman_service_get_security = member_of none (λ s. s.security)

  unfoldable pub connman_service_get_nameservers : String → World glib → Option String
  unfolding member_of
  connman_service_get_nameservers = member_of none (λ s. s.nameservers)

  unfoldable pub connman_service_get_nameservers_config : String → World glib → Option String
  unfolding member_of
  connman_service_get_nameservers_config = member_of none (λ s. s.nameservers_conf)

  unfoldable pub connman_service_get_domains : String → World glib → Option String
  unfolding member_of
  connman_service_get_domains = member_of none (λ s. s.domains)

  unfoldable pub connman_service_get_domains_config : String → World glib → Option String
  unfolding member_of
  connman_service_get_domains_config = member_of none (λ s. s.domains_conf)

  unfoldable pub connman_service_get_timeservers : String → World glib → Option String
  unfolding member_of
  connman_service_get_timeservers = member_of none (λ s. s.timeservers)

  unfoldable pub connman_service_get_timeservers_config : String → World glib → Option String
  unfolding member_of
  connman_service_get_timeservers_config = member_of none (λ s. s.timeservers_conf)

  unfoldable pub connman_service_get_ipv4 : String → World glib → Option Ipv4
  unfolding member_of
  connman_service_get_ipv4 = member_of none (λ s. s.ipv4)

  unfoldable pub connman_service_get_ipv4_config : String → World glib → Option Ipv4
  unfolding member_of
  connman_service_get_ipv4_config = member_of none (λ s. s.ipv4_conf)

  unfoldable pub connman_service_get_ipv6 : String → World glib → Option Ipv6
  unfolding member_of
  connman_service_get_ipv6 = member_of none (λ s. s.ipv6)

  unfoldable pub connman_service_get_ipv6_config : String → World glib → Option Ipv6
  unfolding member_of
  connman_service_get_ipv6_config = member_of none (λ s. s.ipv6_conf)

  unfoldable pub connman_service_get_proxy : String → World glib → Option Proxy
  unfolding member_of
  connman_service_get_proxy = member_of none (λ s. s.proxy)

  unfoldable pub connman_service_get_proxy_config : String → World glib → Option Proxy
  unfolding member_of
  connman_service_get_proxy_config = member_of none (λ s. s.proxy_conf)

  unfoldable pub connman_service_get_provider : String → World glib → Option Provider
  unfolding member_of
  connman_service_get_provider = member_of none (λ s. s.provider)

  unfoldable pub connman_service_get_ethernet : String → World glib → Option Ethernet
  unfolding member_of
  connman_service_get_ethernet = member_of none (λ s. s.ethernet)

  unfoldable pub connman_service_get_state : String → World glib → ConnmanState
  unfolding member_of
  connman_service_get_state = member_of offline (λ s. s.state)

  unfoldable pub connman_service_get_strength : String → World glib → ℕ
  unfolding member_of
  connman_service_get_strength = member_of 0 (λ s. s.strength)

  unfoldable pub connman_service_is_favorite : String → World glib → Bool
  unfolding member_of
  connman_service_is_favorite = member_of false (λ s. s.favorite)

  unfoldable pub connman_service_is_immutable : String → World glib → Bool
  unfolding member_of
  connman_service_is_immutable = member_of false (λ s. s.immutable)

  unfoldable pub connman_service_is_autoconnect : String → World glib → Bool
  unfolding member_of
  connman_service_is_autoconnect = member_of false (λ s. s.autoconnect)

  unfoldable pub connman_service_is_roaming : String → World glib → Bool
  unfolding member_of
  connman_service_is_roaming = member_of false (λ s. s.roaming)

  -- ready or online
  abbrev is_up : ConnmanState → Bool
  is_up ready = true
  is_up online = true
  is_up _ = false

  unfoldable pub connman_service_is_connected : String → World glib → Bool
  unfolding member_of
  connman_service_is_connected = member_of false (λ s. is_up s.state)
