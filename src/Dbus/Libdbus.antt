-- ===== src/Dbus/Libdbus.antt =====
-- What lib/dbus.c uses of libdbus, which is not part of the repository: the type codes of the D-Bus
-- specification, and the message iterators, behind an interface.
use connman_ui.Common.{ℕ, ◌<◌, ◌≢◌, String, Bool, ◌||◌, List, ◌==◌, if◌then◌else◌}

-- The type codes, as the D-Bus specification gives them.
abbrev pub type_invalid : ℕ
type_invalid = 0

abbrev pub type_byte : ℕ
type_byte = b'y'

abbrev pub type_boolean : ℕ
type_boolean = b'b'

abbrev pub type_int16 : ℕ
type_int16 = b'n'

abbrev pub type_uint16 : ℕ
type_uint16 = b'q'

abbrev pub type_int32 : ℕ
type_int32 = b'i'

abbrev pub type_uint32 : ℕ
type_uint32 = b'u'

abbrev pub type_double : ℕ
type_double = b'd'

abbrev pub type_string : ℕ
type_string = b's'

abbrev pub type_object_path : ℕ
type_object_path = b'o'

abbrev pub type_signature : ℕ
type_signature = b'g'

abbrev pub type_array : ℕ
type_array = b'a'

abbrev pub type_variant : ℕ
type_variant = b'v'

abbrev pub type_struct : ℕ
type_struct = b'r'

abbrev pub type_dict_entry : ℕ
type_dict_entry = b'e'

-- What one basic D-Bus value is in memory: a `char *`, which a writer may find NULL, a `dbus_bool_t`,
-- or a number.
pub data Basic : Type 0 where
  null : Basic
  text : String → Basic
  flag : Bool → Basic
  number : ℕ → Basic
  partial : Basic  -- a slot for a pointer that a shorter value fills in part

-- How many bytes dbus_message_iter_get_basic writes for a value of the type, by the D-Bus specification: one for
-- a byte, two and four for the integers of 16 and 32 bits, a boolean and a file descriptor, and eight for the
-- integers of 64 bits and a double; for a text it writes a pointer, of eight bytes.
unfoldable pub value_size : ℕ → ℕ
value_size t =
    if t == type_byte
    then 1
    else if t == type_int16 || t == type_uint16
    then 2
    else if t == type_boolean || (t == type_int32 || (t == type_uint32 || t == b'h'))
    then 4
    else 8

-- The iterators. `basic` is what dbus_message_iter_get_basic writes, `bytes` the array that
-- dbus_message_iter_get_fixed_array finds. A message is finite, so that after finitely many calls of
-- dbus_message_iter_next the type is DBUS_TYPE_INVALID: `left` counts those calls.
pub record Libdbus : Type 1 where
  pub Iter : Type 0
  pub arg_type : Iter → ℕ
  pub element_type : Iter → ℕ
  pub recurse : Iter → Iter
  pub next : Iter → Iter
  pub basic : Iter → Basic
  pub bytes : Iter → List ℕ
  pub left : Iter → ℕ
  pub next_left : (it : Iter) → arg_type it ≢ type_invalid → left (next it) < left it
