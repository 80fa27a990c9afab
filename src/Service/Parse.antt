-- ===== src/Service/Parse.antt =====
-- lib/service.c: the parsers of the nested dictionaries of a service. `value` is the variable
-- `char *value` of a parser, which a read that fails leaves as it was.
use connman_ui.Common.{
  ℕ, ◌%◌, ◌^◌, String, Bool, true, false, Option, none, some, List, [], ◌∷◌, if◌then◌else◌, is_ok,
}
use connman_ui.Dbus.Libdbus.{Libdbus, Basic, text, number, type_uint16, type_string}
use connman_ui.Dbus.Read.{Cell, array_cell, entry_array, get_dict_entry}
use connman_ui.Dbus.Entries.{read_text, get_dict_entry_basic}
use connman_ui.Service.State.{Ipv4, Ipv6, Proxy, Provider, Ethernet, Answers}

-- The struct, the variable `value`, and the flag `set`.
abbrev pub Parsing : Type 0 → Type 0
Parsing A = A × Option String × Bool

-- `if (set == TRUE) return x; g_free(x); return NULL;`
abbrev pub if_set : {A : Type 0} → Parsing A → Option A
if_set (x, value, set) = if set then some x else none

abbrev pub number_of : Basic → ℕ
number_of (number n) = n
number_of _ = 0

-- The texts of an array. A slot without a text, which g_strjoinv would read as a pointer all the same, is left out:
-- ConnMan fills these arrays with texts.
abbrev texts_of : List Basic → List String
texts_of [] = []
texts_of (text s ∷ bs) = s ∷ texts_of bs
texts_of (_ ∷ bs) = texts_of bs

abbrev pub array_of : {Iter : Type 0} → Option (Cell Iter) → Option (List String)
array_of (some (array_cell (some bs))) = some (texts_of bs)
array_of _ = none

-- g_strjoinv of an array that may be NULL
abbrev pub joined : Answers → Option (List String) → Option String
joined answers none = none
joined answers (some ss) = some (answers.join ss)

-- The struct that a parser is given, or a new one.
abbrev pub or_new : {A : Type 0} → Answers → Option A → A → Option A
or_new answers (some x) new = some x
or_new answers none new = if answers.memory then some new else none

module _ (lib : Libdbus) (answers : Answers) where
  open lib use {Iter, recurse}

  -- One `if (cui_dbus_get_dict_entry_basic(&dict, key, DBUS_TYPE_STRING, &value) == 0)` block.
  unfoldable pub read_field :
      {A : Type 0} → Iter → String → (Option String → A → A) → Parsing A → Parsing A
  unfolding read_text
  read_field dict key put (x, value, set) =
      let (found, value') = read_text lib answers.realloc dict key value in
      if found then (put value' x, value', true) else (x, value', set)

  -- The variable after it, and whether the read of a 16-bit number returned 0.
  unfoldable pub read_uint16 : Iter → String → ℕ → Bool × ℕ
  unfolding get_dict_entry_basic
  read_uint16 dict key before =
      let (ret, value) =
        get_dict_entry_basic lib answers.realloc dict key type_uint16 (number before) in
      (is_ok ret, number_of value)

  -- The variable `array` after cui_dbus_get_array has run, which writes it first.
  unfoldable pub read_array : Iter → String → Bool × Option (List String)
  read_array dict key =
      let (ret, out) =
        get_dict_entry lib answers.realloc dict (some key) entry_array type_string (some 0)
          (some (array_cell none)) in
      (is_ok ret, array_of out.1)

  -- One block that reads an array of texts and joins it.
  unfoldable pub read_list :
      {A : Type 0} → Iter → String → (Option String → A → A) → Parsing A → Parsing A
  unfolding read_array
  read_list dict key put (x, value, set) =
      let (found, array) = read_array dict key in
      if found then (put (joined answers array) x, value, true) else (x, value, set)

  unfoldable pub parse_ipv4 : Iter → Option Ipv4 → Option Ipv4
  unfolding read_field
  parse_ipv4 arg ipv4 =
      let dict = recurse arg in
      let new : Ipv4 = record { method = none; address = none; netmask = none; gateway = none } in
      elim (or_new answers ipv4 new) [
        | none ↦ none
        | some x ↦ if_set (
            read_field dict "Gateway" (λ v y. record y { gateway = v })
              (read_field dict "Netmask" (λ v y. record y { netmask = v })
                (read_field dict "Address" (λ v y. record y { address = v })
                  (read_field dict "Method" (λ v y. record y { method = v })
                    (x, answers.stray, false)))))
      ]

  -- `uint16_value` is cut to the 8 bits of the member `prefix`.
  unfoldable pub read_prefix : Iter → Parsing Ipv6 → Parsing Ipv6
  unfolding read_uint16
  read_prefix dict (x, value, set) =
      let (found, n) = read_uint16 dict "Prefix" answers.stray_number in
      if found then (record x { prefix = n % 2 ^ 8 }, value, true) else (x, value, set)

  unfoldable pub parse_ipv6 : Iter → Option Ipv6 → Option Ipv6
  unfolding read_field read_prefix
  parse_ipv6 arg ipv6 =
      let dict = recurse arg in
      let new : Ipv6 = record {
        method = none;
        address = none;
        prefix = 0;
        gateway = none;
        privacy = none;
      } in
      elim (or_new answers ipv6 new) [
        | none ↦ none
        | some x ↦ if_set (
            read_field dict "Privacy" (λ v y. record y { privacy = v })
              (read_field dict "Gateway" (λ v y. record y { gateway = v })
                (read_prefix dict (
                  read_field dict "Address" (λ v y. record y { address = v })
                    (read_field dict "Method" (λ v y. record y { method = v })
                      (x, answers.stray, false))))))
      ]

  unfoldable pub parse_proxy : Iter → Option Proxy → Option Proxy
  unfolding read_field read_list
  parse_proxy arg proxy =
      let dict = recurse arg in
      let new : Proxy = record { method = none; url = none; servers = none; excludes = none } in
      elim (or_new answers proxy new) [
        | none ↦ none
        | some x ↦ if_set (
            read_list dict "Excludes" (λ v y. record y { excludes = v })
              (read_list dict "Servers" (λ v y. record y { servers = v })
                (read_field dict "URL" (λ v y. record y { url = v })
                  (read_field dict "Method" (λ v y. record y { method = v })
                    (x, answers.stray, false)))))
      ]

  unfoldable pub parse_provider : Iter → Option Provider → Option Provider
  unfolding read_field
  parse_provider arg provider =
      let dict = recurse arg in
      let new : Provider = record { host = none; domain = none; name = none; type = none } in
      elim (or_new answers provider new) [
        | none ↦ none
        | some x ↦ if_set (
            read_field dict "Type" (λ v y. record y { type = v })
              (read_field dict "Name" (λ v y. record y { name = v })
                (read_field dict "Domain" (λ v y. record y { domain = v })
                  (read_field dict "Host" (λ v y. record y { host = v })
                    (x, answers.stray, false)))))
      ]

  -- A number of 16 bits, with the variable `uint16_value` that the next read may find unwritten.
  unfoldable pub read_number :
      Iter → String → (ℕ → Ethernet → Ethernet) → Ethernet × ℕ → Ethernet × ℕ
  unfolding read_uint16
  read_number dict key put (x, before) =
      let (found, n) = read_uint16 dict key before in if found then (put n x, n) else (x, n)

  -- parse_ethernet has no flag `set`: what it made is kept even with no entry.
  unfoldable pub parse_ethernet : Iter → Option Ethernet → Option Ethernet
  unfolding read_field read_number
  parse_ethernet arg ethernet =
      let dict = recurse arg in
      let new : Ethernet = record {
        method = none;
        interface = none;
        address = none;
        mtu = 0;
        speed = 0;
        duplex = none;
      } in
      elim (or_new answers ethernet new) [
        | none ↦ none
        | some x ↦
            let (y, value, _) =
              read_field dict "Address" (λ v y. record y { address = v })
                (read_field dict "Interface" (λ v y. record y { interface = v })
                  (read_field dict "Method" (λ v y. record y { method = v })
                    (x, answers.stray, false))) in
            let (z, _) =
              read_number dict "Speed" (λ n y. record y { speed = n })
                (read_number dict "MTU" (λ n y. record y { mtu = n }) (y, answers.stray_number)) in
            some (read_field dict "Duplex" (λ v y. record y { duplex = v }) (z, value, false)).0
      ]
