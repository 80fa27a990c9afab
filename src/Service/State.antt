-- ===== src/Service/State.antt =====
-- The state of lib/service.c: a heap of services, the table and the list that point into it, the main
-- loop, and the calls that leave the file.
use connman_ui.Common.{
  ℕ, String, Bool, false, Option, none, some, List, [], ◌∷◌, replicate, get_or, ◌==◌, str_eq,
  if◌then◌else◌,
}
use connman_ui.Common.Table.{Table, lookup}
use connman_ui.MainLoop.{MainLoop}
use connman_ui.Dbus.Append.{Call}
use connman_ui.Manager.State.{Callback, UserPointer, PendingCall, ConnmanState, unknown}

-- struct connman_ipv4, connman_ipv6, connman_proxy, connman_provider and connman_ethernet of
-- lib/connman-interface.h. A text that may be NULL is an Option.
pub record Ipv4 : Type 0 where
  pub method : Option String
  pub address : Option String
  pub netmask : Option String
  pub gateway : Option String

pub record Ipv6 : Type 0 where
  pub method : Option String
  pub address : Option String
  pub prefix : ℕ
  pub gateway : Option String
  pub privacy : Option String

pub record Proxy : Type 0 where
  pub method : Option String
  pub url : Option String
  pub servers : Option String
  pub excludes : Option String

pub record Provider : Type 0 where
  pub host : Option String
  pub domain : Option String
  pub name : Option String
  pub type : Option String

pub record Ethernet : Type 0 where
  pub method : Option String
  pub interface : Option String
  pub address : Option String
  pub mtu : ℕ
  pub speed : ℕ
  pub duplex : Option String

-- enum connman_service_property
abbrev pub service_state : ℕ
service_state = 0

abbrev pub service_error : ℕ
service_error = 1

abbrev pub service_strength : ℕ
service_strength = 2

abbrev pub service_favorite : ℕ
service_favorite = 3

abbrev pub service_autoconnect : ℕ
service_autoconnect = 4

abbrev pub service_roaming : ℕ
service_roaming = 5

abbrev pub service_nameservers : ℕ
service_nameservers = 6

abbrev pub service_nameservers_configuration : ℕ
service_nameservers_configuration = 7

abbrev pub service_timeservers : ℕ
service_timeservers = 8

abbrev pub service_timeservers_configuration : ℕ
service_timeservers_configuration = 9

abbrev pub service_domains : ℕ
service_domains = 10

abbrev pub service_domains_configuration : ℕ
service_domains_configuration = 11

abbrev pub service_ipv4 : ℕ
service_ipv4 = 12

abbrev pub service_ipv4_configuration : ℕ
service_ipv4_configuration = 13

abbrev pub service_ipv6 : ℕ
service_ipv6 = 14

abbrev pub service_ipv6_configuration : ℕ
service_ipv6_configuration = 15

abbrev pub service_proxy : ℕ
service_proxy = 16

abbrev pub service_proxy_configuration : ℕ
service_proxy_configuration = 17

abbrev pub service_provider : ℕ
service_provider = 18

abbrev pub service_ethernet : ℕ
service_ethernet = 19

abbrev pub service_max : ℕ
service_max = 20

-- Service_updatable_properties
abbrev pub service_properties : List String
service_properties =
    "State" ∷ "Error" ∷ "Strength" ∷ "Favorite" ∷ "AutoConnect" ∷ "Roaming" ∷ "Nameservers"
    ∷ "Nameservers.Configuration" ∷ "Timeservers" ∷ "Timeservers.Configuration" ∷ "Domains"
    ∷ "Domains.Configuration" ∷ "IPv4" ∷ "IPv4.Configuration" ∷ "IPv6" ∷ "IPv6.Configuration"
    ∷ "Proxy" ∷ "Proxy.Configuration" ∷ "Provider" ∷ "Ethernet" ∷ []

-- PROPERTY(n)
unfoldable pub property : ℕ → String
property index = get_or service_properties index ""

-- struct connman_service
pub record Service : Type 0 where
  pub path : String
  pub state : ConnmanState
  pub error : Option String
  pub name : Option String
  pub type : Option String
  pub security : Option String
  pub strength : ℕ
  pub favorite : Bool
  pub immutable : Bool
  pub autoconnect : Bool
  pub roaming : Bool
  pub nameservers : Option String
  pub nameservers_conf : Option String
  pub timeservers : Option String
  pub timeservers_conf : Option String
  pub domains : Option String
  pub domains_conf : Option String
  pub ipv4 : Option Ipv4
  pub ipv4_conf : Option Ipv4
  pub ipv6 : Option Ipv6
  pub ipv6_conf : Option Ipv6
  pub proxy : Option Proxy
  pub proxy_conf : Option Proxy
  pub provider : Option Provider
  pub ethernet : Option Ethernet
  pub update_index : ℕ
  pub property_changed_wid : ℕ
  pub to_update : List ℕ
  pub property_changed_cb : Option Callback
  pub property_changed_user_data : UserPointer
  pub call_modify : List (Option PendingCall)
  pub to_error : List ℕ
  pub property_set_error_cb : Option Callback
  pub property_set_error_user_data : UserPointer

-- g_try_malloc0 of a service, with its path and its watch
abbrev pub new_service : String → ℕ → Service
new_service path wid = record {
  path = path;
  state = unknown;
  error = none;
  name = none;
  type = none;
  security = none;
  strength = 0;
  favorite = false;
  immutable = false;
  autoconnect = false;
  roaming = false;
  nameservers = none;
  nameservers_conf = none;
  timeservers = none;
  timeservers_conf = none;
  domains = none;
  domains_conf = none;
  ipv4 = none;
  ipv4_conf = none;
  ipv6 = none;
  ipv6_conf = none;
  proxy = none;
  proxy_conf = none;
  provider = none;
  ethernet = none;
  update_index = 0;
  property_changed_wid = wid;
  to_update = replicate service_max 0;
  property_changed_cb = none;
  property_changed_user_data = 0;
  call_modify = replicate service_max none;
  to_error = replicate service_max 0;
  property_set_error_cb = none;
  property_set_error_user_data = 0;
}

-- A `struct connman_service *` that is not NULL.
abbrev pub Pointer : Type 0
Pointer = ℕ

-- struct connman_service_interface. `ordered_services` holds the members `path` of services, which
-- are read through the pointers to them.
pub record Interface : Type 0 where
  pub refreshed : Bool
  pub services : Table Pointer
  pub ordered_services : List Pointer
  pub removed_cb : Option Callback
  pub refresh_services_cb : Option Callback
  pub scan_services_cb : Option Callback
  pub to_refresh : ℕ
  pub refresh_user_data : UserPointer
  pub selected_service : Option Pointer

-- The calls that leave the file; those of lib/manager.c and lib/technology.c are among them.
pub data Effect : Type 0 where
  add_watch : String → Effect
  remove_watch no_source : ℕ → Effect
  cancel_call unref_call : PendingCall → Effect
  ref_connection unref_connection : Effect
  dangling null_dereference : Effect  -- a use after free, and a read through NULL
  call_changed call_set_error : Callback → String → String → UserPointer → Effect
  call_removed : Callback → String → Effect
  call_refreshed call_scanned : Callback → UserPointer → Effect
  add_refresh remove_refresh : ℕ → Effect  -- the timeout of refresh_cb
  get_services : Effect
  register_signal : Bool → Effect
  scan : String → Effect  -- connman_technology_scan
  send_call : String → String → List Call → Effect  -- object path, method, arguments

-- What memory, libdbus, GLib and GDBus answer to one function, and what its variables hold before they
-- are written. `join` is g_strjoinv(";", ...), `split` g_strsplit(..., ";", 0), which is NULL for NULL.
pub record Answers : Type 0 where
  pub memory : Bool
  pub realloc : ℕ → Bool
  pub watch : ℕ
  pub message : Bool
  pub sent : Bool
  pub call : Option PendingCall
  pub notified : Bool
  pub timeout : ℕ
  pub join : List String → String
  pub split : String → List String
  pub stray : Option String
  pub stray_flag : Bool
  pub stray_number : ℕ

module _ (glib : MainLoop) where
  -- `connman` tells whether the pointer is not NULL; `heap` has the services that are not freed,
  -- all below `top`; the latest effect stands first.
  pub record World : Type 0 where
    pub connman : Bool
    pub service_if : Option Interface
    pub heap : Pointer → Option Service
    pub top : Pointer
    pub loop : glib.Loop
    pub effects : List Effect

  abbrev pub emit : Effect → World → World
  emit e w = record w { effects = e ∷ w.effects }

  -- A write through a pointer; none frees the service.
  abbrev pub write : Pointer → Option Service → World → World
  write p s w = record w { heap = λ q. if p == q then s else w.heap q }

  -- get_service, for a path that is not NULL
  unfoldable pub get_service : String → World → Option Pointer
  get_service path w = elim w.service_if [
    | none ↦ none
    | some i ↦ elim (lookup path i.services) [
      | some p ↦ some p
      | none ↦ elim i.selected_service [
        | none ↦ none
        | some p ↦ elim (w.heap p) [
          | none ↦ none
          | some s ↦ if str_eq path s.path then some p else none
        ]
      ]
    ]
  ]
