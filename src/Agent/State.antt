-- ===== src/Agent/State.antt =====
-- The state of lib/agent.c, and what its functions do outside it.
use connman_ui.Common.{ℕ, String, Bool, Option, List}
use connman_ui.Dbus.Append.{Call}

-- A DBusMessage, by its address, and a function pointer.
abbrev pub Message : Type 0
Message = ℕ

abbrev pub Callback : Type 0
Callback = ℕ

-- struct connman_agent; the connection is always that of `connman`. NULL is `none`.
pub record Agent : Type 0 where
  pub pending_reply : Option Message
  pub error_cb : Option Callback
  pub browser_cb : Option Callback
  pub input_cb : Option Callback
  pub cancel_cb : Option Callback

-- struct agent_input_data
pub record InputData : Type 0 where
  pub hidden : Bool
  pub identity : Bool
  pub passphrase : Bool
  pub wpspin : Bool
  pub login : Bool
  pub previous_passphrase : Option String
  pub previous_wpspin : Option String

-- A message made as an answer: by g_dbus_create_reply with no arguments, by g_dbus_create_error, or by
-- dbus_message_new_method_return and the calls that fill it.
pub data Reply : Type 0 where
  empty : Reply
  error : String → String → Reply
  method_return : List Call → Reply

-- The calls that leave the file.
pub data Effect : Type 0 where
  ref_connection unref_connection : Effect
  register_interface unregister_interface : Effect
  register_agent unregister_agent : Effect
  ref_message : Message → Effect
  unref_message : Message → Effect
  send : Message → Reply → Effect
  call_error : Callback → String → String → Effect
  call_browser : Callback → String → String → Effect
  call_input : Callback → String → InputData → Effect
  call_cancel : Callback → Effect

-- `agent_if`: the new value and the effects of a function on it.
abbrev pub Outcome : Type 0
Outcome = Option Agent × List Effect
