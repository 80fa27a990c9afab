-- ===== src/Service/Config.antt =====
-- lib/service.c: what it writes into the message that changes a property of a service.
use connman_ui.Common.{
  ℕ, String, Bool, false, not, ◌||◌, is_set, Option, none, some, List, [], ◌∷◌, ◌++◌,
}
use connman_ui.Dbus.Libdbus.{Basic, text, number, type_byte, type_string}
use connman_ui.Dbus.Entries.{basic_of_text}
use connman_ui.Dbus.Append.{
  Call, read_null, append_dict, append_array, append_value, append_dict_entry_basic,
  append_dict_entry_array,
}
use connman_ui.Service.State.{Ipv4, Ipv6, Proxy, Answers, property}

unfoldable pub append_ipv4_config : Ipv4 → ℕ → List Call
unfolding append_dict_entry_basic
append_ipv4_config ipv4 dict =
    append_dict_entry_basic dict "Method" type_string (basic_of_text ipv4.method)
    ++ (append_dict_entry_basic dict "Address" type_string (basic_of_text ipv4.address)
        ++ (append_dict_entry_basic dict "Netmask" type_string (basic_of_text ipv4.netmask)
            ++ append_dict_entry_basic dict "Gateway" type_string (basic_of_text ipv4.gateway)))

unfoldable pub append_ipv6_config : Ipv6 → ℕ → List Call
unfolding append_dict_entry_basic
append_ipv6_config ipv6 dict =
    append_dict_entry_basic dict "Method" type_string (basic_of_text ipv6.method)
    ++ (append_dict_entry_basic dict "Address" type_string (basic_of_text ipv6.address)
        ++ (append_dict_entry_basic dict "PrefixLength" type_byte (number ipv6.prefix)
            ++ (append_dict_entry_basic dict "Gateway" type_string (basic_of_text ipv6.gateway)
                ++ append_dict_entry_basic dict "Privacy" type_string
                    (basic_of_text ipv6.privacy))))

unfoldable pub append_texts : List String → ℕ → List Call
unfolding append_value
append_texts [] it = []
append_texts (s ∷ ss) it = append_value it none type_string (text s) ++ append_texts ss it

-- The array ends at its first NULL; its first element is read through `data`, also where that is NULL.
unfoldable pub append_string_list : Option (List String) → ℕ → List Call
unfolding append_texts
append_string_list none it = read_null ∷ []
append_string_list (some ss) it = append_texts ss it

-- g_strsplit of a text that may be NULL
abbrev pub parts : Answers → Option String → Option (List String)
parts answers none = none
parts answers (some s) = some (answers.split s)

unfoldable pub append_proxy_config : Answers → Proxy → ℕ → List Call
unfolding append_dict_entry_basic append_dict_entry_array append_string_list
append_proxy_config answers proxy dict =
    append_dict_entry_basic dict "Method" type_string (basic_of_text proxy.method)
    ++ (append_dict_entry_basic dict "URL" type_string (basic_of_text proxy.url)
        ++ (append_dict_entry_array dict "Servers" type_string
              (some (append_string_list (parts answers proxy.servers)))
            ++ append_dict_entry_array dict "Excludes" type_string
                (some (append_string_list (parts answers proxy.excludes)))))

-- What the `void *data` of set_service_property points to, by the property.
pub data Setting : Type 0 where
  ipv4_setting : Ipv4 → Setting
  ipv6_setting : Ipv6 → Setting
  proxy_setting : Proxy → Setting
  list_setting : List String → Setting
  basic_setting : Basic → Setting

-- The `switch` of set_service_property: which shape `data` has goes with the property.
unfoldable pub append_setting : Answers → ℕ → ℕ → Setting → List Call
unfolding append_ipv4_config append_ipv6_config append_proxy_config append_string_list append_dict
    append_array append_value property
append_setting answers index dbus_type (ipv4_setting c) =
    append_dict 0 (some (property index)) (some (append_ipv4_config c))
append_setting answers index dbus_type (ipv6_setting c) =
    append_dict 0 (some (property index)) (some (append_ipv6_config c))
append_setting answers index dbus_type (proxy_setting c) =
    append_dict 0 (some (property index)) (some (append_proxy_config answers c))
append_setting answers index dbus_type (list_setting ss) =
    append_array 0 (some (property index)) type_string (some (append_string_list (some ss)))
append_setting answers index dbus_type (basic_setting b) =
    append_value 0 (some (property index)) dbus_type b

-- Whether append_string_list is given NULL, which g_strsplit gives for NULL, and reads through it.
unfoldable pub reads_null : Setting → Bool
reads_null (proxy_setting c) = not (is_set c.servers) || not (is_set c.excludes)
reads_null _ = false
