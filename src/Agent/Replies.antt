-- ===== src/Agent/Replies.antt =====
-- The functions of lib/agent.c that the user interface calls: the set-up of the agent, its callbacks,
-- and the answers to a pending request. What libdbus may refuse is an argument: `made` whether the
-- answer could be created, `opened` whether its dictionary could be opened.
use connman_ui.Common.{
  String, Bool, true, false, ◌&&◌, not, Option, none, some, List, [], ◌∷◌, ◌++◌, if◌then◌else◌,
  is_set, Ret, ok, einval, enomem,
}
use connman_ui.Dbus.Libdbus.{Basic, null, text, type_string, type_array}
use connman_ui.Dbus.Append.{Call, open_container, close_container, append_dict_entry_basic}
use connman_ui.Agent.State.{
  Message, Callback, Agent, Reply, error, method_return, ref_connection, unref_connection,
  register_interface, unregister_interface, register_agent, unregister_agent, unref_message, send,
  Outcome,
}
use connman_ui.Agent.Methods.{unref_pending}

-- A `const char *` argument, NULL for none.
abbrev pub text_or_null : Option String → Basic
text_or_null none = null
text_or_null (some s) = text s

-- A reply that is NULL is not sent.
unfoldable pub send_agent_reply : Agent → Message → Option Reply → Outcome
send_agent_reply a pending none =
    (some (record a { pending_reply = none }), unref_message pending ∷ [])
send_agent_reply a pending (some reply) =
    (some (record a { pending_reply = none }), send pending reply ∷ unref_message pending ∷ [])

-- What a reply function does with the pending request, none if there is none.
abbrev pub pending_of : Option Agent → Option (Agent × Message)
pending_of none = none
pending_of (some a) = elim a.pending_reply [ none ↦ none | some m ↦ some (a, m) ]

abbrev pub made_reply : Bool → Reply → Option Reply
made_reply made r = if made then some r else none

unfoldable pub agent_reply_error : Bool → String → String → Option Agent → Outcome
unfolding send_agent_reply
agent_reply_error made name msg agent = elim (pending_of agent) [
  | none ↦ (agent, [])
  | some (a, pending) ↦ send_agent_reply a pending (made_reply made (error name msg))
]

unfoldable pub connman_agent_reply_retry : Bool → Option Agent → Outcome
unfolding agent_reply_error
connman_agent_reply_retry made = agent_reply_error made "net.connman.Agent.Error.Retry" "Retry"

unfoldable pub connman_agent_reply_canceled : Bool → Option Agent → Outcome
unfolding agent_reply_error
connman_agent_reply_canceled made =
    agent_reply_error made "net.connman.Agent.Error.Canceled" "Canceled"

unfoldable pub connman_agent_reply_launch_browser : Bool → Option Agent → Outcome
unfolding agent_reply_error
connman_agent_reply_launch_browser made =
    agent_reply_error made "net.connman.Agent.Error.LaunchBrowser" "Launch the Browser"

-- The common tail of the three functions below: create the answer, open its dictionary, send it. An
-- answer whose dictionary does not open is dropped, and the pending request with it.
unfoldable pub reply_dict : Bool → Bool → Agent → Message → List Call → Ret × Outcome
unfolding send_agent_reply
reply_dict made opened a pending calls =
    if made
    then (if opened
        then (ok, send_agent_reply a pending (some (method_return calls)))
        else (enomem, send_agent_reply a pending none))
    else (enomem, (some a, []))

-- The iterators of the answer: `arg` is 0 and `dict` is 1. cui_dbus_open_dict opens the dictionary.
abbrev open_dict : Call
open_dict = open_container 0 type_array (some "{sv}") 1

-- The arguments of dbus_message_iter_close_container stand in the order of the source.
unfoldable pub identity_calls : String → String → List Call
unfolding append_dict_entry_basic
identity_calls identity passphrase =
    open_dict
    ∷ (append_dict_entry_basic 1 "Identity" type_string (text identity)
        ++ (append_dict_entry_basic 1 "Passphrase" type_string (text passphrase)
            ++ close_container 1 0 ∷ []))

reply_identity :
    Bool
    → Bool
    → Option String
    → Option String
    → Option Agent
    → Option (Agent × Message)
    → Ret × Outcome
unfolding identity_calls reply_dict
reply_identity made opened identity passphrase agent none = (ok, (agent, []))
reply_identity made opened (some identity) (some passphrase) agent (some (a, pending)) =
    reply_dict made opened a pending (identity_calls identity passphrase)
reply_identity made opened _ _ agent (some p) = (einval, (agent, []))

unfoldable pub connman_agent_reply_identity :
    Bool → Bool → Option String → Option String → Option Agent → Ret × Outcome
unfolding reply_identity
connman_agent_reply_identity made opened identity passphrase agent =
    reply_identity made opened identity passphrase agent (pending_of agent)

abbrev hidden_entry : Option String → List Call
hidden_entry none = []
hidden_entry (some name) = append_dict_entry_basic 1 "Name" type_string (text name)

abbrev secret_entry : Option String → Bool → Option String → List Call
secret_entry (some passphrase) wps wpspin =
    append_dict_entry_basic 1 "Passphrase" type_string (text passphrase)
secret_entry none true (some wpspin) = append_dict_entry_basic 1 "WPS" type_string (text wpspin)
secret_entry none true none = append_dict_entry_basic 1 "WPS" type_string (text "")
secret_entry none false wpspin = []

unfoldable pub passphrase_calls : Option String → Option String → Bool → Option String → List Call
unfolding append_dict_entry_basic
passphrase_calls hidden_name passphrase wps wpspin =
    open_dict
    ∷ (hidden_entry hidden_name ++ (secret_entry passphrase wps wpspin ++ close_container 0 1 ∷ []))

unfoldable pub reply_passphrase :
    Bool
    → Bool
    → Option String
    → Option String
    → Bool
    → Option String
    → Option Agent
    → Option (Agent × Message)
    → Ret × Outcome
unfolding passphrase_calls reply_dict
reply_passphrase made opened hidden_name passphrase wps wpspin agent none = (ok, (agent, []))
reply_passphrase made opened hidden_name passphrase wps wpspin agent (some (a, pending)) =
    if not (is_set passphrase) && (not (is_set hidden_name) && not wps)
    then (einval, (agent, []))
    else reply_dict made opened a pending (passphrase_calls hidden_name passphrase wps wpspin)

unfoldable pub connman_agent_reply_passphrase :
    Bool
    → Bool
    → Option String
    → Option String
    → Bool
    → Option String
    → Option Agent
    → Ret × Outcome
unfolding reply_passphrase
connman_agent_reply_passphrase made opened hidden_name passphrase wps wpspin agent =
    reply_passphrase made opened hidden_name passphrase wps wpspin agent (pending_of agent)

unfoldable pub login_calls : Option String → Option String → List Call
unfolding append_dict_entry_basic
login_calls username password =
    open_dict
    ∷ (append_dict_entry_basic 1 "Username" type_string (text_or_null username)
        ++ (append_dict_entry_basic 1 "Password" type_string (text_or_null password)
            ++ close_container 1 0 ∷ []))

unfoldable pub reply_login :
    Bool
    → Bool
    → Option String
    → Option String
    → Option Agent
    → Option (Agent × Message)
    → Ret × Outcome
unfolding login_calls reply_dict
reply_login made opened username password agent none = (ok, (agent, []))
reply_login made opened username password agent (some (a, pending)) =
    if not (is_set username) && not (is_set password)
    then (einval, (agent, []))
    else reply_dict made opened a pending (login_calls username password)

unfoldable pub connman_agent_reply_login :
    Bool → Bool → Option String → Option String → Option Agent → Ret × Outcome
unfolding reply_login
connman_agent_reply_login made opened username password agent =
    reply_login made opened username password agent (pending_of agent)

abbrev pub fresh_agent : Agent
fresh_agent = record {
  pending_reply = none;
  error_cb = none;
  browser_cb = none;
  input_cb = none;
  cancel_cb = none;
}

-- `connected` is `connman != NULL`, `memory` whether g_try_malloc0 gives memory.
unfoldable pub connman_agent_init : Bool → Bool → Option Agent → Ret × Outcome
connman_agent_init false memory agent = (einval, (agent, []))
connman_agent_init true memory (some a) = (ok, (some a, []))
connman_agent_init true false none = (enomem, (none, []))
connman_agent_init true true none =
    (ok, (some fresh_agent, ref_connection ∷ register_interface ∷ register_agent ∷ []))

unfoldable pub connman_agent_finalize : Option Agent → Outcome
connman_agent_finalize none = (none, [])
connman_agent_finalize (some a) = (
  none,
  unregister_agent
      ∷ unregister_interface
      ∷ (unref_pending a.pending_reply ++ unref_connection ∷ []),
)

unfoldable pub connman_agent_set_error_cb : Option Callback → Option Agent → Ret × Option Agent
connman_agent_set_error_cb cb none = (einval, none)
connman_agent_set_error_cb cb (some a) = (ok, some (record a { error_cb = cb }))

unfoldable pub connman_agent_set_browser_cb : Option Callback → Option Agent → Ret × Option Agent
connman_agent_set_browser_cb cb none = (einval, none)
connman_agent_set_browser_cb cb (some a) = (ok, some (record a { browser_cb = cb }))

unfoldable pub connman_agent_set_input_cb : Option Callback → Option Agent → Ret × Option Agent
connman_agent_set_input_cb cb none = (einval, none)
connman_agent_set_input_cb cb (some a) = (ok, some (record a { input_cb = cb }))

unfoldable pub connman_agent_set_cancel_cb : Option Callback → Option Agent → Ret × Option Agent
connman_agent_set_cancel_cb cb none = (einval, none)
connman_agent_set_cancel_cb cb (some a) = (ok, some (record a { cancel_cb = cb }))
