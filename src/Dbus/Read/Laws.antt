-- ===== src/Dbus/Read/Laws.antt =====
-- What the readers of lib/dbus.c return, against the list of the positions of the container.
use connman_ui.Common.{
  ℕ, ◌+◌, ◌-◌, ◌<◌, ◌≤◌, ◌%◌, ◌^◌, ◌≡◌, refl, String, Bool, true, false, Option, none, some, List,
  [], ◌∷◌, ◌==◌, if◌then◌else◌, length, starts_with, Ret, ok, einval, arith, Bool-cases, inl, inr,
}
use connman_ui.Dbus.Libdbus.{Libdbus, type_byte, type_array, type_struct, type_dict_entry}
use connman_ui.Dbus.Walk.{over, positions, over-positions}
use connman_ui.Dbus.Read.{
  Entry, Cell, text_of_basic, Out, get, get_dict_entry, get_dict_entry_cb, foreach_pass,
  foreach_done, foreach_dict_entry, get_struct_entry, struct_pass, struct_done,
}

module _ (lib : Libdbus) where
  open lib use {Iter, arg_type, element_type, recurse, next, basic}

  -- The first entry of a dictionary whose key begins with the name, if no position before it is
  -- anything but an entry.
  unfoldable pub find_entry : String → List Iter → Option Iter
  find_entry key [] = none
  find_entry key (p ∷ ps) =
      let later = find_entry key ps in
      if arg_type p == type_dict_entry
      then (if starts_with (text_of_basic (basic (recurse p))) key then some p else later)
      else none

  module _ (realloc : ℕ → Bool) (key : String) (entry : Entry) (dbus_type : ℕ) where
    abbrev pub read_found : Out lib → Option Iter → Ret × Out lib
    read_found out none = (einval, out)
    read_found out (some p) =
        (ok, (get lib realloc (recurse (next (recurse p))) entry dbus_type out).1)

    over_entries :
        (ps : List Iter) (out : Out lib)
        → over lib
            (foreach_pass lib (get_dict_entry_cb lib realloc key entry dbus_type))
            (foreach_done lib (get_dict_entry_cb lib realloc key entry dbus_type))
            ps
            out
          ≡ read_found out (find_entry key ps)
    unfolding over foreach_pass foreach_done get_dict_entry_cb find_entry
    over_entries [] out = refl
    over_entries (p ∷ ps) out = ground (arith, over_entries ps out)

    -- Looking up a key in a dictionary reads the value of the first entry whose name begins with the
    -- key, and returns 0 whatever that read returned. Without such an entry, or if something
    -- else than an entry stands before it, or on what is no dictionary, the result is
    -- -EINVAL and the destination keeps its content.
    pub get_dict_entry_lem :
        (it : Iter) (l : Option ℕ) (destination : Option (Cell Iter))
        → get_dict_entry lib realloc it (some key) entry dbus_type l destination ≡ (
            if arg_type it == type_array
            then (if element_type it == type_byte
                then (einval, (l, destination))
                else read_found (l, destination) (find_entry key (positions lib (recurse it))))
            else (einval, (l, destination)))
    unfolding get_dict_entry
    get_dict_entry_lem it l destination =
        let callback = get_dict_entry_cb lib realloc key entry dbus_type in
        rw (over-positions lib (foreach_pass lib callback) (foreach_done lib callback))
          (rw (over_entries (positions lib (recurse it)) (l, destination)))

  -- The n-th of some positions, counted from 1.
  unfoldable pub nth : ℕ → List Iter → Option Iter
  nth n [] = none
  nth n (p ∷ ps) = let later = nth (n - 1) ps in if n == 1 then some p else later

  module _ (realloc : ℕ → Bool) (position : ℕ) (entry : Entry) (dbus_type : ℕ) (out : Out lib) where
    abbrev pub read_field : Option Iter → Ret × Out lib
    read_field none = (einval, out)
    read_field (some p) = get lib realloc p entry dbus_type out

    over_fields :
        (ps : List Iter) (current : ℕ)
        → current ≤ position
        → current + length ps < 2 ^ 32
        → over lib
            (struct_pass lib realloc position entry dbus_type out)
            (struct_done lib out)
            ps
            current
          ≡ read_field (nth (position - current + 1) ps)
    unfolding over struct_pass struct_done nth
    over_fields [] current h k = refl
    over_fields (p ∷ ps) current h k = elim (Bool-cases (position == current)) [
      | inl e ↦ let here : position - current + 1 == 1 ≡ true = ground arith in rw e (rw here)
      | inr e ↦
          let there : position - current + 1 == 1 ≡ false = ground arith in
          let rest : position - current + 1 - 1 ≡ position - (current + 1) + 1 = ground arith in
          let small : (current + 1) % 2 ^ 32 ≡ current + 1 = omega arith in
          rw e (
            rw there
              (rw rest (rw small (over_fields ps (current + 1) (ground arith) (omega arith)))))
    ]

    -- Reading the n-th field of a struct, from 1, reads the n-th position of the struct, and returns what that read
    -- returns; without such a position, or on what is no struct, the result is -EINVAL and nothing
    -- is written. A struct has fewer than 2^32 - 1 fields.
    pub get_struct_entry_lem :
        (it : Iter)
        → 1 ≤ position
        → 1 + length (positions lib (recurse it)) < 2 ^ 32
        → get_struct_entry lib realloc it position entry dbus_type out.0 out.1 ≡ (
            if arg_type it == type_struct
            then read_field (nth position (positions lib (recurse it)))
            else (einval, out))
    unfolding get_struct_entry
    get_struct_entry_lem it h k =
        let exact : position - 1 + 1 ≡ position = omega arith in
        rw
          (over-positions lib (struct_pass lib realloc position entry dbus_type out)
            (struct_done lib out))
          (rw (over_fields (positions lib (recurse it)) 1 h k) (rw exact))

  -- What the callback of a dictionary keeps, the walk over the dictionary keeps.
  module _ {S : Type 0} (P : S → Type 0) (callback : Iter → S → Bool × S)
      (keeps : (it : Iter) (u : S) → P u → P (callback it u).1) where
    over-keeps :
        (ps : List Iter) (u : S)
        → P u
        → P (over lib (foreach_pass lib callback) (foreach_done lib callback) ps u).1
    unfolding over foreach_pass foreach_done
    over-keeps [] u h = h
    over-keeps (p ∷ ps) u h = elim (Bool-cases (arg_type p == type_dict_entry)) [
      | inl e ↦
          let k = keeps (recurse p) u h in
          rw e (elim (Bool-cases (callback (recurse p) u).0) [
            | inl stop ↦ rw stop k
            | inr more ↦ rw more (over-keeps ps (callback (recurse p) u).1 k)
          ])
      | inr e ↦ rw e h
    ]

    pub foreach-keeps : (it : Iter) (u : S) → P u → P (foreach_dict_entry lib callback it u).1
    unfolding foreach_dict_entry
    foreach-keeps it u h = elim (Bool-cases (arg_type it == type_array)) [
      | inl e ↦ rw e (elim (Bool-cases (element_type it == type_byte)) [
        | inl f ↦ rw f h
        | inr f ↦ rw f (
            rw (over-positions lib (foreach_pass lib callback) (foreach_done lib callback))
              (over-keeps (positions lib (recurse it)) u h))
      ])
      | inr e ↦ rw e h
    ]
