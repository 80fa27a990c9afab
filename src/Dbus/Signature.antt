-- ===== src/Dbus/Signature.antt =====
-- The signatures that lib/dbus.c gives to containers.
use Prim.Native.String.{◌++◌}
use connman_ui.Common.{ℕ, String, ◌==◌, if◌then◌else◌, Bool, true, false, ◌≡◌, ◌≢◌, refl, arith}
use connman_ui.Dbus.Libdbus.{
  type_byte, type_boolean, type_int16, type_uint16, type_int32, type_uint32, type_double,
  type_string, type_object_path, type_signature, type_dict_entry,
}

-- The `switch` of map_basic_to_signature; the `_AS_STRING` macros are the texts.
unfoldable pub map_basic_to_signature : ℕ → String
map_basic_to_signature t =
    if t == type_boolean
    then "b"
    else if t == type_int16
    then "n"
    else if t == type_uint16
    then "q"
    else if t == type_int32
    then "i"
    else if t == type_uint32
    then "u"
    else if t == type_double
    then "d"
    else if t == type_string
    then "s"
    else if t == type_object_path
    then "o"
    else if t == type_signature
    then "g"
    else if t == type_dict_entry
    then "e"
    else if t == type_byte
    then "y"
    else "v"

-- The `switch` of map_array_to_signature, the case of DBUS_TYPE_BYTE as it stands.
unfoldable pub map_array_to_signature : ℕ → String
map_array_to_signature t =
    if t == type_boolean
    then "ab"
    else if t == type_int16
    then "an"
    else if t == type_uint16
    then "aq"
    else if t == type_int32
    then "ai"
    else if t == type_uint32
    then "au"
    else if t == type_double
    then "ad"
    else if t == type_string
    then "as"
    else if t == type_object_path
    then "ao"
    else if t == type_signature
    then "ag"
    else if t == type_dict_entry
    then "ae"
    else if t == type_byte
    then "aa"
    else "av"

append-if :
    (a : String) (b : Bool) (x y : String)
    → a ++ (if b then x else y) ≡ (if b then a ++ x else a ++ y)
append-if a true x y = refl
append-if a false x y = refl

-- The signature of an array of `t` is `a` before the signature that the same file gives to `t`, for
-- every type code but that of a byte.
pub map_array-map_basic :
    (t : ℕ) → t ≢ type_byte → map_array_to_signature t ≡ "a" ++ map_basic_to_signature t
unfolding map_array_to_signature map_basic_to_signature
map_array-map_basic t h =
    let other : t == type_byte ≡ false = ground arith in simp (append-if, other)
