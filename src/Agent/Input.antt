-- ===== src/Agent/Input.antt =====
-- parse_input_request of lib/agent.c, and what it finds in the fields of a request.
use connman_ui.Common.{
  Bool-cases, inl, inr, ◌∙◌, ◌≢◌, ◌≡◌, String, Bool, true, false, ◌&&◌, ◌||◌, none, some, List, [],
  ◌∷◌, ◌==◌, str_eq, eq_iff, if◌then◌else◌, is_ok, arith,
}
use connman_ui.Dbus.Libdbus.{Libdbus, null, type_string, type_array, type_byte, type_dict_entry}
use connman_ui.Dbus.Walk.{over, positions, over-positions}
use connman_ui.Dbus.Read.{
  basic_cell, basic_of, text_of_basic, get_basic, foreach_dict_entry, foreach_pass, foreach_done,
}
use connman_ui.Agent.State.{InputData}

-- memset of the input data
abbrev pub no_input : InputData
no_input = record {
  hidden = false;
  identity = false;
  passphrase = false;
  wpspin = false;
  login = false;
  previous_passphrase = none;
  previous_wpspin = none;
}

-- The fields named below are the ones that the chain of g_strcmp0 tests; the field
-- "PreviousPassphrase" is read into the local pointer `value` itself and not to where it
-- points, so it leaves the data alone, as any other name does.
unfoldable pub set_field : String → InputData → InputData
set_field name d =
    if str_eq name "Passphrase"
    then record d { passphrase = true }
    else if str_eq name "WPS"
    then record d { wpspin = true }
    else if str_eq name "Name"
    then record d { hidden = true }
    else if str_eq name "Identity"
    then record d { identity = true }
    else if str_eq name "Username"
    then record d { login = true }
    else d

abbrev with_flags : InputData → Bool → Bool → Bool → Bool → Bool → InputData
with_flags d h i p w l = record d {
  hidden = d.hidden || h;
  identity = d.identity || i;
  passphrase = d.passphrase || p;
  wpspin = d.wpspin || w;
  login = d.login || l;
}

set_field_lem :
    (n : String) (d : InputData) (h i p w l : Bool)
    → with_flags (set_field n d) h i p w l
      ≡ with_flags d
          (str_eq n "Name" || h)
          (str_eq n "Identity" || i)
          (str_eq n "Passphrase" || p)
          (str_eq n "WPS" || w)
          (str_eq n "Username" || l)
unfolding set_field
set_field_lem n d h i p w l = elim (Bool-cases (str_eq n "Passphrase")) [
  | inl e ↦ rw ((eq_iff n "Passphrase").0 e) (ground arith)
  | inr e ↦ elim (Bool-cases (str_eq n "WPS")) [
    | inl f ↦ rw ((eq_iff n "WPS").0 f) (ground arith)
    | inr f ↦ elim (Bool-cases (str_eq n "Name")) [
      | inl g ↦ rw ((eq_iff n "Name").0 g) (ground arith)
      | inr g ↦ elim (Bool-cases (str_eq n "Identity")) [
        | inl k ↦ rw ((eq_iff n "Identity").0 k) (ground arith)
        | inr k ↦ elim (Bool-cases (str_eq n "Username")) [
          | inl m ↦ rw ((eq_iff n "Username").0 m) (ground arith)
          | inr m ↦ rw (e, f, g, k, m)
        ]
      ]
    ]
  ]
]

module _ (lib : Libdbus) where
  open lib use {Iter, arg_type, element_type, recurse}

  unfoldable pub parse_input_request : Iter → InputData → Bool × InputData
  unfolding set_field get_basic
  parse_input_request arg d =
      let (ret, name) = get_basic lib arg type_string (some (basic_cell null)) in
      if is_ok ret then (false, set_field (text_of_basic (basic_of name)) d) else (false, d)

  -- Whether one of the entries has this name, of the entries before the first position that is none.
  unfoldable pub has_field : String → List Iter → Bool
  has_field name [] = false
  has_field name (p ∷ ps) =
      let later = has_field name ps in
      if arg_type p == type_dict_entry
      then (arg_type (recurse p) == type_string
          && str_eq (text_of_basic (lib.basic (recurse p))) name)
        || later
      else false

  -- The data with the fields that the entries name added to it.
  abbrev pub with_fields : List Iter → InputData → InputData
  with_fields ps d =
      with_flags d (has_field "Name" ps) (has_field "Identity" ps) (has_field "Passphrase" ps)
        (has_field "WPS" ps) (has_field "Username" ps)

  parse_lem :
      (p : Iter) (ps : List Iter) (d : InputData)
      → arg_type p == type_dict_entry ≡ true
      → with_fields ps (parse_input_request (recurse p) d).1 ≡ with_fields (p ∷ ps) d
  unfolding has_field parse_input_request
  parse_lem p ps d h = elim (Bool-cases (arg_type (recurse p) == type_string)) [
    | inl e ↦ rw h (
        rw e (
          set_field_lem (text_of_basic (lib.basic (recurse p))) d (has_field "Name" ps)
            (has_field "Identity" ps) (has_field "Passphrase" ps) (has_field "WPS" ps)
            (has_field "Username" ps)))
    | inr e ↦ rw h (rw e)
  ]

  never_stops : (p : Iter) (d : InputData) → (parse_input_request p d).0 ≡ false
  unfolding parse_input_request
  never_stops p d = ground arith

  over_fields :
      (ps : List Iter) (d : InputData)
      → (over lib
          (foreach_pass lib parse_input_request)
          (foreach_done lib parse_input_request)
          ps
          d).1
        ≡ with_fields ps d
  unfolding over foreach_pass foreach_done
  over_fields [] d = unfold has_field in ground arith
  over_fields (p ∷ ps) d = elim (Bool-cases (arg_type p == type_dict_entry)) [
    | inl e ↦ rw e (
        rw (never_stops (recurse p) d)
          (over_fields ps (parse_input_request (recurse p) d).1 ∙ parse_lem p ps d e))
    | inr e ↦ rw e (unfold has_field in rw e (ground arith))
  ]

  -- A request for input sets exactly the flags of the fields that its dictionary names before anything that is no
  -- entry, and it never fills in the previous passphrase or the previous WPS pin.
  pub foreach-parse_input_request :
      (arg : Iter)
      → arg_type arg ≡ type_array
      → element_type arg ≢ type_byte
      → (foreach_dict_entry lib parse_input_request arg no_input).1
        ≡ with_fields (positions lib (recurse arg)) no_input
  unfolding foreach_dict_entry
  foreach-parse_input_request arg h k =
      let container : arg_type arg == type_array ≡ true = ground arith in
      let fields : element_type arg == type_byte ≡ false = ground arith in
      rw container (
        rw fields (
          rw
            (over-positions lib (foreach_pass lib parse_input_request)
              (foreach_done lib parse_input_request))
            (over_fields (positions lib (recurse arg)) no_input)))
