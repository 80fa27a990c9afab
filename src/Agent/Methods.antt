-- ===== src/Agent/Methods.antt =====
-- The D-Bus methods of lib/agent.c, which ConnMan calls. A method gives the new `agent_if`, its
-- effects, and the message that it returns, NULL for an answer that comes later. `args` is the
-- iterator of dbus_message_iter_init, none where that fails.
use connman_ui.Common.{Bool, ◌||◌, Option, none, some, List, [], ◌∷◌, ◌++◌, if◌then◌else◌, is_ok}
use connman_ui.Dbus.Libdbus.{Libdbus, Basic, null, type_string, type_object_path}
use connman_ui.Dbus.Read.{basic_cell, basic_of, text_of_basic, get_basic, foreach_dict_entry}
use connman_ui.Agent.State.{
  Message, Callback, Agent, InputData, Reply, empty, error, Effect, ref_message, unref_message,
  unref_connection, unregister_interface, call_error, call_browser, call_input, call_cancel,
  Outcome,
}
use connman_ui.Agent.Input.{no_input, parse_input_request}

abbrev pub canceled : Reply
canceled = error "net.connman.Error.Canceled" ""

abbrev pub unref_pending : Option Message → List Effect
unref_pending none = []
unref_pending (some m) = unref_message m ∷ []

unfoldable pub agent_release_method : Option Agent → Outcome × Option Reply
agent_release_method none = ((none, []), some empty)
agent_release_method (some a) = (
  (none, unregister_interface ∷ (unref_pending a.pending_reply ++ unref_connection ∷ [])),
  some empty,
)

unfoldable pub agent_cancel_method : Option Agent → Outcome × Option Reply
agent_cancel_method none = ((none, []), some empty)
agent_cancel_method (some a) = (
  (
    some (record a { pending_reply = none }),
    unref_pending a.pending_reply ++ elim a.cancel_cb [ none ↦ [] | some cb ↦ call_cancel cb ∷ [] ],
  ),
  some empty,
)

-- The pending reply of before, if any, is overwritten.
abbrev pub wait : Agent → Message → Effect → Outcome × Option Reply
wait a msg call =
    ((some (record a { pending_reply = some msg }), ref_message msg ∷ call ∷ []), none)

-- hidden, identity, passphrase and login are tested, wpspin is not.
unfoldable pub is_asked : InputData → Bool
is_asked d = d.hidden || (d.identity || (d.passphrase || d.login))

module _ (lib : Libdbus) where
  open lib use {Iter, next}

  -- The object path and the text that follow each other in the arguments of two methods, and what
  -- the method does with them; `refused` is its `error:` label.
  unfoldable pub with_path_and_text :
      Option Iter
      → (Outcome × Option Reply)
      → (Basic → Basic → Outcome × Option Reply)
      → Outcome × Option Reply
  unfolding get_basic
  with_path_and_text none refused accepted = refused
  with_path_and_text (some arg) refused accepted =
      let (ret, path) = get_basic lib arg type_object_path (some (basic_cell null)) in
      let (ret', value) = get_basic lib (next arg) type_string (some (basic_cell null)) in
      if is_ok ret
      then (if is_ok ret' then accepted (basic_of path) (basic_of value) else refused)
      else refused

  report_error : Agent → Option Callback → Message → Option Iter → Outcome × Option Reply
  unfolding with_path_and_text
  report_error a none msg args = ((some a, []), some empty)
  report_error a (some cb) msg args =
      with_path_and_text args ((some a, []), some empty)
        (λ path value. wait a msg (call_error cb (text_of_basic path) (text_of_basic value)))

  unfoldable pub agent_report_error_method :
      Option Agent → Message → Option Iter → Outcome × Option Reply
  unfolding report_error
  agent_report_error_method none msg args = ((none, []), some empty)
  agent_report_error_method (some a) msg args = report_error a a.error_cb msg args

  request_browser : Agent → Option Callback → Message → Option Iter → Outcome × Option Reply
  unfolding with_path_and_text
  request_browser a none msg args = ((some a, []), some canceled)
  request_browser a (some cb) msg args =
      with_path_and_text args ((some a, []), some canceled)
        (λ path value. wait a msg (call_browser cb (text_of_basic path) (text_of_basic value)))

  unfoldable pub agent_request_browser_method :
      Option Agent → Message → Option Iter → Outcome × Option Reply
  unfolding request_browser
  agent_request_browser_method none msg args = ((none, []), some canceled)
  agent_request_browser_method (some a) msg args = request_browser a a.browser_cb msg args

  request_input : Agent → Option Callback → Message → Option Iter → Outcome × Option Reply
  unfolding get_basic is_asked
  request_input a none msg args = ((some a, []), some canceled)
  request_input a (some cb) msg none = ((some a, []), some canceled)
  request_input a (some cb) msg (some arg) =
      let (ret, path) = get_basic lib arg type_object_path (some (basic_cell null)) in
      let input = (foreach_dict_entry lib (parse_input_request lib) (next arg) no_input).1 in
      if is_ok ret
      then (if is_asked input
          then wait a msg (call_input cb (text_of_basic (basic_of path)) input)
          else ((some a, []), some canceled))
      else ((some a, []), some canceled)

  unfoldable pub agent_request_input_method :
      Option Agent → Message → Option Iter → Outcome × Option Reply
  unfolding request_input
  agent_request_input_method none msg args = ((none, []), some canceled)
  agent_request_input_method (some a) msg args = request_input a a.input_cb msg args
