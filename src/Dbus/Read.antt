-- ===== src/Dbus/Read.antt =====
-- The readers of lib/dbus.c, from cui_dbus_get_basic to cui_dbus_get_struct_entry.
pub mod Laws
pub mod Arrays
use connman_ui.Common.{
  ℕ, ◌+◌, ◌%◌, ◌^◌, String, Bool, true, false, ◌||◌, Option, none, some, List, [], ◌∷◌, ◌++◌, ◌==◌,
  ◌*◌, ltb, if◌then◌else◌, length, starts_with, Ret, ok, einval, enomem, undefined, is_ok,
}
use connman_ui.Dbus.Libdbus.{
  Libdbus, Basic, text, number, partial, value_size, type_byte, type_boolean, type_int16,
  type_uint16, type_int32, type_uint32, type_double, type_string, type_object_path, type_signature,
  type_array, type_variant, type_struct, type_dict_entry,
}
use connman_ui.Dbus.Walk.{Pass, return, go_on, while_valid}

-- enum cui_dbus_entry
pub data Entry : Type 0 where
  entry_basic entry_array entry_fixed_array entry_dict : Entry

-- What a `void *destination` points to.
pub data Cell (Iter : Type 0) : Type 0 where
  basic_cell : Basic → Cell Iter
  array_cell : Option (List Basic) → Cell Iter
  fixed_cell : List ℕ → Cell Iter
  dict_cell : Iter → Cell Iter
  overrun : Cell Iter  -- after a write past the end of a block

-- A cell read back as the variable that it is. Of another shape it is not read by the code.
abbrev pub basic_of : {Iter : Type 0} → Option (Cell Iter) → Basic
basic_of (some (basic_cell b)) = b
basic_of _ = number 0

abbrev pub text_of_basic : Basic → String
text_of_basic (text s) = s
text_of_basic _ = ""

-- `size` after the `switch` of cui_dbus_get_array, in bytes, none for its default; as on the usual 64-bit
-- machines, an int has four bytes, and a double and a pointer have eight.
unfoldable pub slot_size : ℕ → Option ℕ
slot_size t =
    if t == type_boolean
      || (t == type_int16 || (t == type_int32 || (t == type_uint16 || t == type_uint32)))
    then some 4
    else if t == type_double || (t == type_string || (t == type_object_path || t == type_signature))
    then some 8
    else none

-- What is in the slot of a pointer after the write of a value of type `t`.
abbrev pub slot : ℕ → Basic → Basic
slot t value = if ltb (value_size t) 8 then partial else value

module _ (lib : Libdbus) where
  open lib use {Iter, arg_type, element_type, recurse, next, basic, bytes}

  -- `int *length` and `void *destination`; NULL is `none`.
  abbrev pub Out : Type 0
  Out = Option ℕ × Option (Cell Iter)

  unfoldable pub get_basic : Iter → ℕ → Option (Cell Iter) → Ret × Option (Cell Iter)
  get_basic it dbus_type none = (einval, none)
  get_basic it dbus_type (some c) =
      if arg_type it == dbus_type then (ok, some (basic_cell (basic it))) else (einval, some c)

  unfoldable pub get_basic_variant : Iter → ℕ → Option (Cell Iter) → Ret × Option (Cell Iter)
  get_basic_variant it dbus_type destination =
      if arg_type it == type_variant
      then (let variant = recurse it in
          if arg_type variant == dbus_type
          then (ok, some (basic_cell (basic variant)))
          else (einval, destination))
      else (einval, destination)

  abbrev pub undefined_array : Ret × Out
  undefined_array = (undefined, (some 0, some overrun))

  -- The write of a value of type `t` at `&value_array[iteration-1]`, into a block of `iteration + 1` times
  -- `size` bytes, where the index counts pointers.
  store_value : ℕ → ℕ → Basic → List Basic → Pass (List Basic) (Ret × Out)
  unfolding value_size
  store_value size t value values =
      if ltb (size * (length values + 2)) (8 * length values + value_size t)
      then return undefined_array
      else go_on (values ++ slot t value ∷ [])

  -- One pass of the loop of cui_dbus_get_array; `values` is the array so far, and `realloc n` tells
  -- whether the n-th call of realloc gives memory. An error frees the array.
  array_pass : (ℕ → Bool) → ℕ → ℕ → Iter → List Basic → Pass (List Basic) (Ret × Out)
  unfolding get_basic_variant store_value
  array_pass realloc size dbus_type it values =
      if realloc (length values + 1)
      then (if arg_type it == type_variant
          then (let (ret, slot) = get_basic_variant it dbus_type (some (basic_cell (number 0))) in
              if is_ok ret
              then store_value size dbus_type (basic_of slot) values
              else return (enomem, (some 0, some (array_cell none))))
          else store_value size (arg_type it) (basic it) values)
      else return (enomem, (some 0, some (array_cell none)))

  -- `value_array[iteration] = NULL` and `*length = iteration - 1`, for an array that is not empty.
  array_done : ℕ → List Basic → Ret × Out
  array_done size [] = (ok, (some 0, some (array_cell none)))
  array_done size (v ∷ vs) =
      if ltb (size * (length vs + 2)) (8 * (length vs + 2))
      then undefined_array
      else (ok, (some (length vs), some (array_cell (some (v ∷ vs)))))

  pub array_start : Iter → Iter
  array_start it = if arg_type it == type_variant then recurse (recurse it) else recurse it

  unfoldable pub get_array : (ℕ → Bool) → Iter → ℕ → Option ℕ → Option (Cell Iter) → Ret × Out
  unfolding array_pass array_done array_start slot_size
  get_array realloc it dbus_type (some l) (some c) = elim (slot_size dbus_type) [
    | none ↦ (einval, (some l, some c))
    | some size ↦
        while_valid lib (array_pass realloc size dbus_type) (array_done size) (array_start it) []
  ]
  get_array realloc it dbus_type none destination = (einval, (none, destination))
  get_array realloc it dbus_type (some l) none = (einval, (some l, none))

  unfoldable pub get_fixed_array : Iter → Option ℕ → Option (Cell Iter) → Ret × Out
  get_fixed_array it (some l) (some c) =
      if arg_type it == type_array
      then (if element_type it == type_byte
          then (let farray = bytes (recurse it) in
              (ok, (some (length farray), some (fixed_cell farray))))
          else (einval, (some l, some c)))
      else (einval, (some l, some c))
  get_fixed_array it none destination = (einval, (none, destination))
  get_fixed_array it (some l) none = (einval, (some l, none))

  -- cui_dbus_get
  unfoldable pub get : (ℕ → Bool) → Iter → Entry → ℕ → Out → Ret × Out
  unfolding get_basic get_array get_fixed_array
  get realloc it entry_basic dbus_type (l, destination) =
      let (ret, cell) = get_basic it dbus_type destination in (ret, (l, cell))
  get realloc it entry_array dbus_type (l, destination) =
      get_array realloc it dbus_type l destination
  get realloc it entry_fixed_array dbus_type (l, destination) = get_fixed_array it l destination
  get realloc it entry_dict dbus_type (l, none) = (einval, (l, none))
  get realloc it entry_dict dbus_type (l, some c) = (ok, (l, some (dict_cell (recurse it))))

  -- The callback of cui_dbus_foreach_dict_entry changes its `user_data`, of type `S`, and says
  -- whether to stop.
  module _ {S : Type 0} (callback : Iter → S → Bool × S) where
    unfoldable pub foreach_pass : Iter → S → Pass S (Ret × S)
    foreach_pass it u =
        if arg_type it == type_dict_entry
        then (let (stop, u') = callback (recurse it) u in
            if stop then return (ok, u') else go_on u')
        else return (einval, u)

    unfoldable pub foreach_done : S → Ret × S
    foreach_done u = (einval, u)

    unfoldable pub foreach_dict_entry : Iter → S → Ret × S
    unfolding foreach_pass foreach_done
    foreach_dict_entry it u =
        if arg_type it == type_array
        then (if element_type it == type_byte
            then (einval, u)
            else while_valid lib foreach_pass foreach_done (recurse it) u)
        else (einval, u)

  -- The key is compared by strncmp over the length of `key_name`, and the code of cui_dbus_get is
  -- dropped.
  unfoldable pub get_dict_entry_cb : (ℕ → Bool) → String → Entry → ℕ → Iter → Out → Bool × Out
  get_dict_entry_cb realloc key_name entry dbus_type it out =
      if starts_with (text_of_basic (basic it)) key_name
      then (true, (get realloc (recurse (next it)) entry dbus_type out).1)
      else (false, out)

  unfoldable pub get_dict_entry :
      (ℕ → Bool) → Iter → Option String → Entry → ℕ → Option ℕ → Option (Cell Iter) → Ret × Out
  unfolding get_dict_entry_cb foreach_dict_entry
  get_dict_entry realloc it none entry dbus_type l destination = (einval, (l, destination))
  get_dict_entry realloc it (some key_name) entry dbus_type l destination =
      foreach_dict_entry (get_dict_entry_cb realloc key_name entry dbus_type) it (l, destination)

  -- `current` is an unsigned int, so it wraps.
  struct_pass : (ℕ → Bool) → ℕ → Entry → ℕ → Out → Iter → ℕ → Pass ℕ (Ret × Out)
  struct_pass realloc position entry dbus_type out it current =
      if position == current
      then return (get realloc it entry dbus_type out)
      else go_on ((current + 1) % 2 ^ 32)

  struct_done : Out → ℕ → Ret × Out
  struct_done out current = (einval, out)

  unfoldable pub get_struct_entry :
      (ℕ → Bool) → Iter → ℕ → Entry → ℕ → Option ℕ → Option (Cell Iter) → Ret × Out
  unfolding struct_pass struct_done
  get_struct_entry realloc it position entry dbus_type l destination =
      if arg_type it == type_struct
      then while_valid lib (struct_pass realloc position entry dbus_type (l, destination))
          (struct_done (l, destination)) (recurse it) 1
      else (einval, (l, destination))
