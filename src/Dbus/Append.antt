-- ===== src/Dbus/Append.antt =====
-- The writers of lib/dbus.c, as the calls that they make of libdbus. An iterator is a number, and a
-- local one is numbered one above the iterator that it is opened from.
pub mod Nesting
use connman_ui.Common.{ℕ, ◌+◌, String, Option, none, some, List, [], ◌∷◌, ◌++◌}
use connman_ui.Dbus.Libdbus.{
  Basic, text, number, type_byte, type_string, type_array, type_variant, type_dict_entry,
}
use connman_ui.Dbus.Signature.{map_basic_to_signature, map_array_to_signature}
use connman_ui.Dbus.Read.{Entry, entry_basic, entry_array, entry_fixed_array, entry_dict}

-- dbus_message_iter_append_basic, dbus_message_iter_append_fixed_array (with the length and the
-- memory), dbus_message_iter_open_container and dbus_message_iter_close_container.
pub data Call : Type 0 where
  append_basic : ℕ → ℕ → Basic → Call
  append_fixed : ℕ → ℕ → ℕ → List ℕ → Call
  open_container : ℕ → ℕ → Option String → ℕ → Call
  close_container : ℕ → ℕ → Call
  read_null : Call  -- no call: a property function reads through NULL, and nothing after it is reached

-- A cui_dbus_property_f with its user data: what it writes through an iterator.
abbrev pub Writer : Type 0
Writer = Option (ℕ → List Call)

-- The user data of cui_dbus_append_dict_entry, as the entry type reads it.
pub data UserData : Type 0 where
  value_data : Basic → UserData
  fixed_data : List ℕ → UserData
  other_data : UserData

abbrev value_of : UserData → Basic
value_of (value_data b) = b
value_of _ = number 0

abbrev fixed_of : UserData → List ℕ
fixed_of (fixed_data ns) = ns
fixed_of _ = []

-- `if (property_function != NULL) property_function(&iter, user_data)`
abbrev pub written : Writer → ℕ → List Call
written none it = []
written (some f) it = f it

abbrev dict_signature : String
dict_signature = "a{sv}"

abbrev entry_signature : String
entry_signature = "{sv}"

-- The container that every writer with a property function opens last.
abbrev filled : ℕ → ℕ → String → Writer → List Call
filled it container signature f =
    open_container it container (some signature) (it + 1)
    ∷ (written f (it + 1) ++ close_container it (it + 1) ∷ [])

unfoldable pub append_dict : ℕ → Option String → Writer → List Call
append_dict it none f = filled it type_array entry_signature f
append_dict it (some key) f =
    append_basic it type_string (text key)
    ∷ open_container it type_variant (some dict_signature) (it + 1)
    ∷ (filled (it + 1) type_array entry_signature f ++ close_container it (it + 1) ∷ [])

unfoldable pub append_value : ℕ → Option String → ℕ → Basic → List Call
append_value it none dbus_type value = append_basic it dbus_type value ∷ []
append_value it (some key) dbus_type value =
    append_basic it type_string (text key)
    ∷ open_container it type_variant (some (map_basic_to_signature dbus_type)) (it + 1)
    ∷ append_basic (it + 1) dbus_type value
    ∷ close_container it (it + 1)
    ∷ []

unfoldable pub append_array : ℕ → Option String → ℕ → Writer → List Call
append_array it none dbus_type f = filled it type_array (map_basic_to_signature dbus_type) f
append_array it (some key) dbus_type f =
    append_basic it type_string (text key)
    ∷ open_container it type_variant (some (map_array_to_signature dbus_type)) (it + 1)
    ∷ (filled (it + 1) type_array (map_basic_to_signature dbus_type) f
        ++ close_container it (it + 1) ∷ [])

abbrev fixed_writer : ℕ → ℕ → List ℕ → Writer
fixed_writer dbus_type length values = some (λ it. append_fixed it dbus_type length values ∷ [])

unfoldable pub append_fixed_array : ℕ → Option String → ℕ → ℕ → List ℕ → List Call
append_fixed_array it none dbus_type length values =
    filled it type_array (map_basic_to_signature type_byte) (fixed_writer dbus_type length values)
append_fixed_array it (some key) dbus_type length values =
    append_basic it type_string (text key)
    ∷ open_container it type_variant (some (map_array_to_signature type_byte)) (it + 1)
    ∷ (filled (it + 1) type_array (map_basic_to_signature type_byte)
          (fixed_writer dbus_type length values)
        ++ close_container it (it + 1) ∷ [])

entry_body : ℕ → Option String → Entry → ℕ → ℕ → Writer → UserData → List Call
unfolding append_dict append_value append_array append_fixed_array
entry_body it key entry_basic dbus_type length f user_data =
    append_value it key dbus_type (value_of user_data)
entry_body it key entry_array dbus_type length f user_data = append_array it key dbus_type f
entry_body it key entry_fixed_array dbus_type length f user_data =
    append_fixed_array it key dbus_type length (fixed_of user_data)
entry_body it key entry_dict dbus_type length f user_data = append_dict it key f

unfoldable pub append_dict_entry : ℕ → Option String → Entry → ℕ → ℕ → Writer → UserData → List Call
unfolding entry_body
append_dict_entry it key entry dbus_type length f user_data =
    open_container it type_dict_entry none (it + 1)
    ∷ (entry_body (it + 1) key entry dbus_type length f user_data
        ++ close_container it (it + 1) ∷ [])

-- cui_dbus_append_dict_entry_basic
unfoldable pub append_dict_entry_basic : ℕ → String → ℕ → Basic → List Call
unfolding append_dict_entry
append_dict_entry_basic it key dbus_type value =
    append_dict_entry it (some key) entry_basic dbus_type 0 none (value_data value)

-- cui_dbus_append_dict_entry_array
unfoldable pub append_dict_entry_array : ℕ → String → ℕ → Writer → List Call
unfolding append_dict_entry
append_dict_entry_array it key dbus_type f =
    append_dict_entry it (some key) entry_array dbus_type 0 f other_data
