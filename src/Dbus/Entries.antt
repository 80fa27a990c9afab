-- ===== src/Dbus/Entries.antt =====
-- The inline readers of lib/cui-dbus.h over cui_dbus_get_dict_entry.
use connman_ui.Common.{ℕ, String, Bool, false, Option, none, some, Ret, is_ok}
use connman_ui.Dbus.Libdbus.{Libdbus, Basic, null, text, flag, type_boolean, type_string}
use connman_ui.Dbus.Read.{basic_cell, basic_of, entry_basic, get_dict_entry}

-- A `char *` as a basic value, and back.
abbrev pub basic_of_text : Option String → Basic
basic_of_text none = null
basic_of_text (some s) = text s

abbrev pub text_of : Basic → Option String
text_of (text s) = some s
text_of _ = none

abbrev pub flag_of : Basic → Bool
flag_of (flag b) = b
flag_of _ = false

module _ (lib : Libdbus) where
  open lib use {Iter}

  -- The destination is a variable of a basic type with its content before the call.
  unfoldable pub get_dict_entry_basic : (ℕ → Bool) → Iter → String → ℕ → Basic → Ret × Basic
  get_dict_entry_basic realloc it key dbus_type before =
      let (ret, out) =
        get_dict_entry lib realloc it (some key) entry_basic dbus_type none
          (some (basic_cell before)) in
      (ret, basic_of out.1)

  -- The read of a text into a `char *`: whether it returned 0, and the variable after it.
  unfoldable pub read_text : (ℕ → Bool) → Iter → String → Option String → Bool × Option String
  unfolding get_dict_entry_basic
  read_text realloc it key before =
      let (ret, value) = get_dict_entry_basic realloc it key type_string (basic_of_text before) in
      (is_ok ret, text_of value)

  unfoldable pub read_flag : (ℕ → Bool) → Iter → String → Bool → Bool × Bool
  unfolding get_dict_entry_basic
  read_flag realloc it key before =
      let (ret, value) = get_dict_entry_basic realloc it key type_boolean (flag before) in
      (is_ok ret, flag_of value)
