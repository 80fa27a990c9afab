-- ===== src/Examples/Dbus.antt =====
-- The readers and the writers of lib/dbus.c on small messages.
use connman_ui.Common.{
  ℕ, ◌≡◌, refl, Bool, true, none, some, [], ◌∷◌, ◌++◌, ok, undefined, arith, inl, inr,
  if◌then◌else◌,
}
use connman_ui.Dbus.Libdbus.{
  null, text, partial, value_size, type_uint16, type_string, type_object_path, type_byte,
}
use connman_ui.Dbus.Walk.{while_valid, positions}
use connman_ui.Dbus.Signature.{map_basic_to_signature, map_array_to_signature, map_array-map_basic}
use connman_ui.Dbus.Read.{
  entry_basic, basic_cell, array_cell, overrun, get_dict_entry, get_array, get_struct_entry, get,
}
use connman_ui.Dbus.Read.Laws.{
  get_dict_entry_lem, get_struct_entry_lem, read_found, find_entry, nth, read_field,
}
use connman_ui.Dbus.Read.Arrays.{
  get_array_lem, get_array_overruns, as_array, memory_from, values_at, value_at,
}
use connman_ui.Dbus.Append.{append_dict_entry, value_data}
use connman_ui.Dbus.Append.Nesting.{nesting, append_dict_entry-IsNested, nil-IsNested}
use connman_ui.Examples.Messages.{
  messages, Values, string, uint16, array, struct, end, more, field, dict,
}

abbrev memory : ℕ → Bool
memory n = true

-- {"PrefixLength": 64, "Prefix": 48}
abbrev prefixes : Values
prefixes =
    more (dict (more (field "PrefixLength" (string "64")) (more (field "Prefix" (uint16 48)) end)))
      end

-- A longer key that stands first is taken for "Prefix", its type does not fit, and the result is 0.
prefix_confused :
    get_dict_entry messages memory prefixes
      (some "Prefix")
      entry_basic
      type_uint16
      none
      (some (basic_cell null))
    ≡ (ok, (none, some (basic_cell null)))
unfolding get_dict_entry while_valid get
prefix_confused = refl

get_dict_entry_lem_example :
    get_dict_entry messages memory prefixes
      (some "Prefix")
      entry_basic
      type_uint16
      none
      (some (basic_cell null))
    ≡ read_found messages memory "Prefix" entry_basic type_uint16
        (none, some (basic_cell null))
        (find_entry messages "Prefix" (
          positions messages
            (more (field "PrefixLength" (string "64")) (more (field "Prefix" (uint16 48)) end))))
get_dict_entry_lem_example =
    get_dict_entry_lem messages memory "Prefix" entry_basic type_uint16 prefixes none
      (some (basic_cell null))

-- ["8.8.8.8", "9.9.9.9"]
abbrev servers : Values
servers = more (array type_string (more (string "8.8.8.8") (more (string "9.9.9.9") end))) end

servers_read :
    get_array messages memory servers type_string (some 0) (some (array_cell none))
    ≡ (ok, (some 1, some (array_cell (some (text "8.8.8.8" ∷ text "9.9.9.9" ∷ [])))))
unfolding get_array while_valid
servers_read = refl

get_array_lem_example :
    get_array messages memory servers type_string (some 0) (some (array_cell none))
    ≡ as_array messages (
        if memory_from memory 0 2
        then values_at messages type_string
            (positions messages (more (string "8.8.8.8") (more (string "9.9.9.9") end)))
        else none)
unfolding positions
get_array_lem_example =
    get_array_lem messages memory type_string servers 0 (array_cell none) (inr (inl refl))

-- [48]
abbrev prefix_list : Values
prefix_list = more (array type_uint16 (more (uint16 48) end)) end

get_array_overruns_example :
    get_array messages memory prefix_list type_uint16 (some 0) (some (array_cell none))
    ≡ (undefined, (some 0, some overrun))
unfolding positions values_at value_at value_size
get_array_overruns_example =
    get_array_overruns messages memory type_uint16 prefix_list 0 (array_cell none)
      (more (uint16 48) end) [] (partial ∷ []) (inr (inr (inl refl))) (λ n. refl) refl refl

abbrev pair : Values
pair = more (struct (more (string "a") (more (string "b") end))) end

get_struct_entry_lem_example :
    get_struct_entry messages memory pair 2 entry_basic type_string none (some (basic_cell null))
    ≡ read_field messages memory 2 entry_basic type_string
        (none, some (basic_cell null))
        (nth messages 2 (positions messages (more (string "a") (more (string "b") end))))
unfolding positions
get_struct_entry_lem_example =
    get_struct_entry_lem messages memory 2 entry_basic type_string (none, some (basic_cell null))
      pair (omega arith) (omega arith)

map_array-map_basic_example :
    map_array_to_signature type_object_path
    ≡ Prim.Native.String.◌++◌ "a" (map_basic_to_signature type_object_path)
map_array-map_basic_example = map_array-map_basic type_object_path (omega arith)

append_dict_entry-IsNested_example :
    nesting
      (append_dict_entry 1 (some "Name") entry_basic type_string 0 none (value_data (text "x"))
        ++ [])
      1
    ≡ nesting [] 1
append_dict_entry-IsNested_example =
    append_dict_entry-IsNested 1 (some "Name") entry_basic type_string 0 none
      (value_data (text "x")) (λ it. nil-IsNested it) []

-- For a byte it is the text "aa", no complete type, and not "ay".
map_array-byte : map_array_to_signature type_byte ≡ "aa"
unfolding map_array_to_signature
map_array-byte = refl
