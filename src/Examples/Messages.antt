-- ===== src/Examples/Messages.antt =====
-- Messages as trees, and an iterator as the list of the values that are left.
use connman_ui.Common.{ℕ, suc, ◌<◌, ◌≢◌, refl, String, Bool, [], arith}
use connman_ui.Dbus.Libdbus.{
  Libdbus, Basic, null, text, flag, number, type_invalid, type_boolean, type_uint16, type_string,
  type_object_path, type_array, type_variant, type_struct, type_dict_entry,
}

mutual
  pub data Value : Type 0 where
    string object_path : String → Value
    boolean : Bool → Value
    uint16 : ℕ → Value
    array : ℕ → Values → Value
    struct entry variant : Values → Value

  pub data Values : Type 0 where
    end : Values
    more : Value → Values → Values

abbrev type_of : Value → ℕ
type_of (string _) = type_string
type_of (object_path _) = type_object_path
type_of (boolean _) = type_boolean
type_of (uint16 _) = type_uint16
type_of (array _ _) = type_array
type_of (struct _) = type_struct
type_of (entry _) = type_dict_entry
type_of (variant _) = type_variant

abbrev inside : Value → Values
inside (array _ vs) = vs
inside (struct vs) = vs
inside (entry vs) = vs
inside (variant vs) = vs
inside _ = end

abbrev basic_value : Value → Basic
basic_value (string s) = text s
basic_value (object_path s) = text s
basic_value (boolean b) = flag b
basic_value (uint16 n) = number n
basic_value _ = null

abbrev element_of : Value → ℕ
element_of (array t _) = t
element_of _ = type_invalid

abbrev pub arg_type : Values → ℕ
arg_type end = type_invalid
arg_type (more v vs) = type_of v

abbrev pub element_type : Values → ℕ
element_type end = type_invalid
element_type (more v vs) = element_of v

abbrev pub recurse : Values → Values
recurse end = end
recurse (more v vs) = inside v

abbrev pub next : Values → Values
next end = end
next (more v vs) = vs

abbrev pub basic : Values → Basic
basic end = null
basic (more v vs) = basic_value v

abbrev pub left : Values → ℕ
left end = 0
left (more v vs) = suc (left vs)

pub next_left : (it : Values) → arg_type it ≢ type_invalid → left (next it) < left it
next_left end h = absurd (h refl)
next_left (more v vs) h = omega arith

abbrev pub messages : Libdbus
messages = record {
  Iter = Values;
  arg_type = arg_type;
  element_type = element_type;
  recurse = recurse;
  next = next;
  basic = basic;
  bytes = λ it. [];
  left = left;
  next_left = next_left;
}

-- A dictionary entry with its value in a variant.
abbrev pub field : String → Value → Value
field name v = entry (more (string name) (more (variant (more v end)) end))

abbrev pub dict : Values → Value
dict entries = array type_dict_entry entries
