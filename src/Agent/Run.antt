-- ===== src/Agent/Run.antt =====
-- The life of the agent: the calls of ConnMan and of the user interface, in any order, and the
-- counts that the theorems speak of.
use connman_ui.Common.{
  ℕ, suc, String, Bool, true, false, Option, none, some, List, [], ◌∷◌, ◌++◌, ◌==◌, ◌≡◌,
}
use connman_ui.Dbus.Libdbus.{Libdbus}
use connman_ui.Agent.State.{
  Message, Callback, Agent, Effect, ref_message, unref_message, send, Outcome,
}
use connman_ui.Agent.Methods.{
  agent_release_method, agent_cancel_method, agent_report_error_method,
  agent_request_browser_method, agent_request_input_method,
}
use connman_ui.Agent.Replies.{
  pending_of, connman_agent_init, connman_agent_finalize, connman_agent_set_error_cb,
  connman_agent_set_browser_cb, connman_agent_set_input_cb, connman_agent_set_cancel_cb,
  connman_agent_reply_retry, connman_agent_reply_canceled, connman_agent_reply_launch_browser,
  connman_agent_reply_identity, connman_agent_reply_passphrase, connman_agent_reply_login,
}

-- A call of a method by ConnMan, or of a function by the user interface, with its arguments.
pub data Event (Iter : Type 0) : Type 0 where
  release cancel finalize : Event Iter
  init : Bool → Bool → Event Iter
  report_error request_browser request_input : Message → Option Iter → Event Iter
  reply_retry reply_canceled reply_launch_browser : Bool → Event Iter
  reply_identity reply_login : Bool → Bool → Option String → Option String → Event Iter
  reply_passphrase : Bool → Bool → Option String → Option String → Bool → Option String → Event Iter
  set_error_cb set_browser_cb set_input_cb set_cancel_cb : Option Callback → Event Iter

module _ (lib : Libdbus) where
  unfoldable pub step : Event lib.Iter → Option Agent → Outcome
  step release a = (agent_release_method a).0
  step cancel a = (agent_cancel_method a).0
  step finalize a = connman_agent_finalize a
  step (init connected memory) a = (connman_agent_init connected memory a).1
  step (report_error msg args) a = (agent_report_error_method lib a msg args).0
  step (request_browser msg args) a = (agent_request_browser_method lib a msg args).0
  step (request_input msg args) a = (agent_request_input_method lib a msg args).0
  step (reply_retry made) a = connman_agent_reply_retry made a
  step (reply_canceled made) a = connman_agent_reply_canceled made a
  step (reply_launch_browser made) a = connman_agent_reply_launch_browser made a
  step (reply_identity made opened x y) a = (connman_agent_reply_identity made opened x y a).1
  step (reply_login made opened x y) a = (connman_agent_reply_login made opened x y a).1
  step (reply_passphrase made opened x y w z) a =
      (connman_agent_reply_passphrase made opened x y w z a).1
  step (set_error_cb cb) a = ((connman_agent_set_error_cb cb a).1, [])
  step (set_browser_cb cb) a = ((connman_agent_set_browser_cb cb a).1, [])
  step (set_input_cb cb) a = ((connman_agent_set_input_cb cb a).1, [])
  step (set_cancel_cb cb) a = ((connman_agent_set_cancel_cb cb a).1, [])

  unfoldable pub run : List (Event lib.Iter) → Option Agent → Outcome
  run [] a = (a, [])
  run (e ∷ es) a =
      let (a', effects) = step e a in let (a'', effects') = run es a' in (a'', effects ++ effects')

  -- ConnMan has one request out at a time: where a request comes, no other is pending.
  abbrev pub InTurn : Event lib.Iter → Option Agent → Type 0
  InTurn (report_error _ _) a = pending_of a ≡ none
  InTurn (request_browser _ _) a = pending_of a ≡ none
  InTurn (request_input _ _) a = pending_of a ≡ none
  InTurn _ a = Unit

  abbrev pub AllInTurn : List (Event lib.Iter) → Option Agent → Type 0
  AllInTurn [] a = Unit
  AllInTurn (e ∷ es) a = InTurn e a × AllInTurn es (step e a).0

abbrev tally : Bool → ℕ → ℕ
tally true n = suc n
tally false n = n

-- How often a message is referenced, released and answered.
module _ (m : Message) where
  unfoldable pub refs : List Effect → ℕ
  refs [] = 0
  refs (ref_message n ∷ es) = tally (n == m) (refs es)
  refs (_ ∷ es) = refs es

  unfoldable pub unrefs : List Effect → ℕ
  unrefs [] = 0
  unrefs (unref_message n ∷ es) = tally (n == m) (unrefs es)
  unrefs (_ ∷ es) = unrefs es

  unfoldable pub sends : List Effect → ℕ
  sends [] = 0
  sends (send n r ∷ es) = tally (n == m) (sends es)
  sends (_ ∷ es) = sends es

  -- The references that the state holds.
  abbrev pub held : Option Agent → ℕ
  held none = 0
  held (some a) = elim a.pending_reply [ none ↦ 0 | some n ↦ tally (n == m) 0 ]
