-- ===== src/Service/Update.antt =====
-- lib/service.c: what one entry of a dictionary of ConnMan changes in a service.
use connman_ui.Common.{
  ℕ, ◌%◌, ◌^◌, ◌≡◌, String, Bool, Option, none, some, str_eq, if◌then◌else◌, is_ok, arith,
}
use connman_ui.Dbus.Libdbus.{Libdbus, null, flag, number, type_byte, type_boolean, type_string}
use connman_ui.Dbus.Read.{
  array_cell, basic_cell, basic_of, text_of_basic, get_basic, get_basic_variant, get_array,
}
use connman_ui.Dbus.Entries.{basic_of_text, text_of, flag_of}
use connman_ui.Manager.Property.{string2enum_state}
use connman_ui.Service.State.{
  Service, Answers, property, service_state, service_error, service_strength, service_favorite,
  service_autoconnect, service_roaming, service_nameservers, service_nameservers_configuration,
  service_timeservers, service_timeservers_configuration, service_domains,
  service_domains_configuration, service_ipv4, service_ipv4_configuration, service_ipv6,
  service_ipv6_configuration, service_proxy, service_proxy_configuration, service_provider,
  service_ethernet,
}
use connman_ui.Service.Parse.{
  number_of, array_of, joined, parse_ipv4, parse_ipv6, parse_proxy, parse_provider, parse_ethernet,
}

module _ (lib : Libdbus) (answers : Answers) where
  open lib use {Iter, next}

  -- The variables `value`, `boolean_value` and `uint8_value` after a read of a variant into them, and
  -- the text that is made of `array`.
  unfoldable pub text_variant : Iter → Option String
  unfolding get_basic_variant
  text_variant arg = text_of (
      basic_of
        (get_basic_variant lib arg type_string (some (basic_cell (basic_of_text answers.stray)))).1)

  unfoldable pub flag_variant : Iter → Bool
  unfolding get_basic_variant
  flag_variant arg = flag_of (
      basic_of
        (get_basic_variant lib arg type_boolean (some (basic_cell (flag answers.stray_flag)))).1)

  unfoldable pub byte_variant : Iter → ℕ
  unfolding get_basic_variant
  byte_variant arg =
      number_of (
        basic_of
          (get_basic_variant lib arg type_byte (some (basic_cell (number answers.stray_number)))).1)
      % 2 ^ 8

  unfoldable pub list_variant : Iter → Option String
  unfolding get_array
  list_variant arg =
      let (ret, out) =
        get_array lib answers.realloc arg type_string (some 0) (some (array_cell none)) in
      joined answers (array_of out.1)

  -- The chain of g_strcmp0 in update_service_property, from its end.
  unfoldable pub update_struct : String → Iter → Service → Service
  unfolding property
  update_struct name arg s =
      if str_eq name (property service_ipv4)
      then record s { ipv4 = parse_ipv4 lib answers arg s.ipv4; update_index = service_ipv4 }
      else if str_eq name (property service_ipv4_configuration)
      then record s {
        ipv4_conf = parse_ipv4 lib answers arg s.ipv4_conf;
        update_index = service_ipv4_configuration;
      }
      else if str_eq name (property service_ipv6)
      then record s { ipv6 = parse_ipv6 lib answers arg s.ipv6; update_index = service_ipv6 }
      else if str_eq name (property service_ipv6_configuration)
      then record s {
        ipv6_conf = parse_ipv6 lib answers arg s.ipv6_conf;
        update_index = service_ipv6_configuration;
      }
      else if str_eq name (property service_proxy)
      then record s { proxy = parse_proxy lib answers arg s.proxy; update_index = service_proxy }
      else if str_eq name (property service_proxy_configuration)
      then record s {
        proxy_conf = parse_proxy lib answers arg s.proxy_conf;
        update_index = service_proxy_configuration;
      }
      else if str_eq name (property service_provider)
      then record s {
        provider = parse_provider lib answers arg s.provider;
        update_index = service_provider;
      }
      else if str_eq name (property service_ethernet)
      then record s {
        ethernet = parse_ethernet lib answers arg s.ethernet;
        update_index = service_ethernet;
      }
      else s

  unfoldable pub update_list : String → Iter → Service → Service
  unfolding property
  update_list name arg s =
      if str_eq name (property service_nameservers)
      then record s { nameservers = list_variant arg; update_index = service_nameservers }
      else if str_eq name (property service_nameservers_configuration)
      then record s {
        nameservers_conf = list_variant arg;
        update_index = service_nameservers_configuration;
      }
      else if str_eq name (property service_domains)
      then record s { domains = list_variant arg; update_index = service_domains }
      else if str_eq name (property service_domains_configuration)
      then record s {
        domains_conf = list_variant arg;
        update_index = service_domains_configuration;
      }
      else if str_eq name (property service_timeservers)
      then record s { timeservers = list_variant arg; update_index = service_timeservers }
      else if str_eq name (property service_timeservers_configuration)
      then record s {
        timeservers_conf = list_variant arg;
        update_index = service_timeservers_configuration;
      }
      else update_struct name arg s

  unfoldable pub update_scalar : String → Iter → Service → Service
  unfolding property
  update_scalar name arg s =
      if str_eq name (property service_error)
      then record s { error = text_variant arg; update_index = service_error }
      else if str_eq name (property service_strength)
      then record s { strength = byte_variant arg; update_index = service_strength }
      else if str_eq name (property service_favorite)
      then record s { favorite = flag_variant arg; update_index = service_favorite }
      else if str_eq name (property service_autoconnect)
      then record s { autoconnect = flag_variant arg; update_index = service_autoconnect }
      else if str_eq name (property service_roaming)
      then record s { roaming = flag_variant arg; update_index = service_roaming }
      else update_list name arg s

  unfoldable pub update_field : String → Iter → Service → Service
  unfolding property
  update_field name arg s =
      if str_eq name "Name"
      then record s { name = text_variant arg }
      else if str_eq name "Type"
      then record s { type = text_variant arg }
      else if str_eq name "Security"
      then record s { security = list_variant arg }
      else if str_eq name "Immutable"
      then record s { immutable = flag_variant arg }
      else if str_eq name (property service_state)
      then record s { state = string2enum_state (text_variant arg); update_index = service_state }
      else update_scalar name arg s

  update_struct-path :
      (name : String) (arg : Iter) (s : Service) → (update_struct name arg s).path ≡ s.path
  unfolding update_struct
  update_struct-path name arg s = ground arith

  update_list-path :
      (name : String) (arg : Iter) (s : Service) → (update_list name arg s).path ≡ s.path
  unfolding update_list
  update_list-path name arg s = ground (arith, update_struct-path name arg s)

  update_scalar-path :
      (name : String) (arg : Iter) (s : Service) → (update_scalar name arg s).path ≡ s.path
  unfolding update_scalar
  update_scalar-path name arg s = ground (arith, update_list-path name arg s)

  pub update_field-path :
      (name : String) (arg : Iter) (s : Service) → (update_field name arg s).path ≡ s.path
  unfolding update_field
  update_field-path name arg s = ground (arith, update_scalar-path name arg s)

  -- update_service_property, on the service that its `user_data` points to.
  unfoldable pub updated : Iter → Service → Service
  unfolding get_basic update_field
  updated arg s =
      let (ret, cell) = get_basic lib arg type_string (some (basic_cell null)) in
      if is_ok ret then update_field (text_of_basic (basic_of cell)) (next arg) s else s
