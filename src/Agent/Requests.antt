-- ===== src/Agent/Requests.antt =====
-- When a request for input reaches the user interface.
use connman_ui.Common.{
  ◌≡◌, ◌≢◌, String, Bool, true, ◌||◌, none, some, [], ◌∷◌, ◌==◌, if◌then◌else◌, arith,
}
use connman_ui.Dbus.Libdbus.{Libdbus, type_object_path, type_array, type_byte}
use connman_ui.Dbus.Walk.{positions}
use connman_ui.Dbus.Read.{text_of_basic}
use connman_ui.Agent.State.{Message, Callback, Agent, ref_message, call_input, error}
use connman_ui.Agent.Input.{has_field, foreach-parse_input_request}
use connman_ui.Agent.Methods.{agent_request_input_method}

any_order {ℓ} :
    {A : Type ℓ} (h i p l : Bool) (x y : A)
    → (if h || (i || (p || l)) then x else y) ≡ (if l || (p || (i || h)) then x else y)
any_order h i p l x y = ground arith

module _ (lib : Libdbus) where
  open lib use {Iter, arg_type, element_type, recurse, next, basic}

  -- A well-formed request for input, with a callback set: if its dictionary names a hidden name, an identity,
  -- a passphrase or a user name, then a reference on it is taken, it is the pending request, no answer is
  -- returned, and the callback gets its object path with the flags of the five fields, the others unset; else
  -- (also if it asks for a WPS pin alone) it is answered with Canceled, and the agent stays as it was.
  pub request_input_lem :
      (a : Agent) (cb : Callback) (msg : Message) (arg : Iter)
      → a.input_cb ≡ some cb
      → arg_type arg ≡ type_object_path
      → arg_type (next arg) ≡ type_array
      → element_type (next arg) ≢ type_byte
      → let named = λ (name : String). has_field lib name (positions lib (recurse (next arg))) in
        agent_request_input_method lib (some a) msg (some arg) ≡ (
          if named "Username" || (named "Passphrase" || (named "Identity" || named "Name"))
          then (
            (
              some (record a { pending_reply = some msg }),
              ref_message msg
                  ∷ call_input cb (text_of_basic (basic arg)) (record {
                    hidden = named "Name";
                    identity = named "Identity";
                    passphrase = named "Passphrase";
                    wpspin = named "WPS";
                    login = named "Username";
                    previous_passphrase = none;
                    previous_wpspin = none;
                  })
                  ∷ [],
            ),
            none,
          )
          else ((some a, []), some (error "net.connman.Error.Canceled" "")))
  unfolding agent_request_input_method
  request_input_lem a cb msg arg e p d f =
      let is_path : arg_type arg == type_object_path ≡ true = ground arith in
      let ps = positions lib (recurse (next arg)) in
      rw e (
        rw is_path (
          rw (foreach-parse_input_request lib (next arg) d f) (
            any_order (has_field lib "Name" ps) (has_field lib "Identity" ps)
              (has_field lib "Passphrase" ps) (has_field lib "Username" ps) _ _)))
