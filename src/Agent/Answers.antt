-- ===== src/Agent/Answers.antt =====
-- What the answers of the user interface do to a pending request, and how libdbus finds the messages.
use connman_ui.Common.{
  ◌+◌, ◌≤◌, ◌≡◌, refl, String, Bool, true, false, Option, none, some, arith, Ret, is_ok,
  if◌then◌else◌,
}
use connman_ui.Dbus.Append.Nesting.{nesting}
use connman_ui.Agent.State.{Message, Agent, Outcome}
use connman_ui.Agent.Replies.{
  connman_agent_reply_identity, connman_agent_reply_passphrase, connman_agent_reply_login,
  passphrase_calls, identity_calls, login_calls,
}
use connman_ui.Agent.Run.{sends, unrefs, held}

-- What a reply function that gives `r` from `a` reports of the message `m` that it did to it: it is answered
-- exactly if the result is 0 and it was pending, then it is pending no more, and it is released exactly if it was
-- pending and is so no more.
abbrev pub Reports : Message → Option Agent → Ret × Outcome → Type 0
Reports m a r =
    (sends m r.1.1 ≡ (if is_ok r.0 then held m a else 0))
    × (held m r.1.0 ≤ (if is_ok r.0 then 0 else held m a))
    × (unrefs m r.1.1 + held m r.1.0 ≡ held m a)

-- The three functions that answer with texts, whatever the texts are, whatever libdbus refuses, and whether or not
-- there is an agent and a pending request: if the result is 0, the request that was pending is answered once,
-- released, and no longer pending; with any other result nothing is answered, and the request stays
-- pending or is released.
pub replies_report :
    (m : Message) (a : Option Agent) (made opened : Bool) (first second : Option String)
    (wps : Bool) (pin : Option String)
    → Reports m a (connman_agent_reply_passphrase made opened first second wps pin a)
      × Reports m a (connman_agent_reply_identity made opened first second a)
      × Reports m a (connman_agent_reply_login made opened first second a)
unfolding connman_agent_reply_passphrase connman_agent_reply_identity connman_agent_reply_login
    sends unrefs
replies_report m a made opened first second wps pin = (ground arith, ground arith, ground arith)

-- The answer to a passphrase request is a message that libdbus can build: its dictionary is filled and closed in order.
pub passphrase_calls_nested :
    (name passphrase : Option String) (wps : Bool) (pin : Option String)
    → nesting (passphrase_calls name passphrase wps pin) 0 ≡ some 0
unfolding passphrase_calls nesting
passphrase_calls_nested none none false pin = refl
passphrase_calls_nested none none true none = refl
passphrase_calls_nested none none true (some pin) = refl
passphrase_calls_nested none (some passphrase) wps pin = refl
passphrase_calls_nested (some name) none false pin = refl
passphrase_calls_nested (some name) none true none = refl
passphrase_calls_nested (some name) none true (some pin) = refl
passphrase_calls_nested (some name) (some passphrase) wps pin = refl

-- The answers to an identity request and to a login request close the iterators in the wrong order, whatever
-- the texts are: the close of the dictionary is not allowed where it stands.
pub identity_login_unclosed :
    (identity passphrase : String) (username password : Option String)
    → (nesting (identity_calls identity passphrase) 0 ≡ none)
      × (nesting (login_calls username password) 0 ≡ none)
unfolding identity_calls login_calls nesting
identity_login_unclosed i p u w = (refl, refl)
