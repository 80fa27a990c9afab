-- ===== src/Dialogs/Answering.antt =====
-- A request that src/agent_dialogs.c shows is answered by its buttons, but for an empty login.
use connman_ui.Common.{
  ◌≡◌, refl, String, Bool, true, false, Option, none, some, [], ◌∷◌, ◌++◌, ◌||◌, ◌&&◌, is_set,
  if◌then◌else◌, arith, ap, ◌∙◌,
}
use mathlib.Core.Path.{sym, subst}
use mathlib.Core.List.{append-nil}
use connman_ui.MainLoop.{MainLoop}
use connman_ui.Agent.State.{
  Agent, Reply, Outcome, Message, InputData, error, method_return, send, unref_message,
}
use connman_ui.Agent.Replies.{
  pending_of, passphrase_calls, connman_agent_reply_canceled, connman_agent_reply_passphrase,
  connman_agent_reply_login, reply_passphrase, reply_login, reply_dict, send_agent_reply,
  agent_reply_error,
}
use connman_ui.Ui.Gtk.{Gtk, hide}
use connman_ui.Ui.Tray.{Signals}
use connman_ui.Ui.Decimal.{size}
use connman_ui.Dialogs.State.{Dialogs, on_agent}
use connman_ui.Dialogs.Show.{same, agent_input_cb, agent_popup_input_dbox, agent_popup_login_dbox}
use connman_ui.Dialogs.Reply.{
  filled, agent_ok_input, agent_ok_login, agent_cancel, cancel, passphrase_of, wpspin_of,
}

-- The agent's functions, where a request waits: it is answered and released.
canceled-answers :
    (agent : Option Agent) (a : Agent) (m : Message)
    → pending_of agent ≡ some (a, m)
    → let out = connman_agent_reply_canceled true agent in
      (pending_of out.0 ≡ none)
      × (out.1
          ≡ send m (error "net.connman.Agent.Error.Canceled" "Canceled") ∷ unref_message m ∷ [])
unfolding connman_agent_reply_canceled agent_reply_error send_agent_reply
canceled-answers agent a m e = (ground arith, ground arith)

-- A passphrase or WPS makes the answer to a passphrase request one that is not refused.
passphrase-answers :
    (agent : Option Agent) (a : Agent) (m : Message) (name passphrase wpspin : Option String)
    (wps : Bool)
    → pending_of agent ≡ some (a, m)
    → is_set passphrase || wps ≡ true
    → let out = (connman_agent_reply_passphrase true true name passphrase wps wpspin agent).1 in
      (pending_of out.0 ≡ none)
      × (out.1
          ≡ send m (method_return (passphrase_calls name passphrase wps wpspin))
            ∷ unref_message m
            ∷ [])
unfolding connman_agent_reply_passphrase reply_passphrase reply_dict send_agent_reply
passphrase-answers agent a m name (some p) wpspin wps e h = (ground arith, ground arith)
passphrase-answers agent a m (some n) none wpspin true e h = (ground arith, ground arith)
passphrase-answers agent a m none none wpspin true e h = (ground arith, ground arith)
passphrase-answers agent a m name none wpspin false e h = absurd (cc h)

login-refused :
    (made opened : Bool) (agent : Option Agent) (a : Agent) (m : Message)
    → pending_of agent ≡ some (a, m)
    → (connman_agent_reply_login made opened none none agent).1 ≡ (agent, [])
unfolding connman_agent_reply_login reply_login
login-refused made opened agent a m e = ground arith

-- The branches of agent_input_cb.
not_shown {ℓ} :
    {A : Type ℓ} (s p h l : Bool) (x y z : A)
    → s && (p || (h || l)) ≡ false
    → (if s then (if p || h then x else if l then y else z) else z) ≡ z
not_shown false p h l x y z e = refl
not_shown true false false false x y z e = refl
not_shown true false false true x y z e = absurd (cc e)
not_shown true false true l x y z e = absurd (cc e)
not_shown true true h l x y z e = absurd (cc e)

shown {ℓ} :
    {A : Type ℓ} (s p h l : Bool) (x y z : A)
    → s && (p || h) ≡ true
    → (if s then (if p || h then x else if l then y else z) else z) ≡ x
shown false p h l x y z e = absurd (cc e)
shown true false false l x y z e = absurd (cc e)
shown true false true l x y z e = refl
shown true true h l x y z e = refl

module _ (gtk : Gtk) (glib : MainLoop) (signals : Signals) where
  open gtk use {Ui, entry_text, is_active}

  abbrev D : Type 0
  D = Dialogs gtk glib signals

  -- The request was answered once and released between the two states.
  abbrev pub Answered : Message → D → D → Type 0
  Answered m d d' =
      (pending_of d'.agent ≡ none)
      × (r : Reply) × (d'.effects ≡ d.effects ++ send m r ∷ unref_message m ∷ [])

  cancel-answers :
      (a : Agent) (m : Message) (dialog : String) (d : D)
      → pending_of d.agent ≡ some (a, m)
      → Answered m d (agent_cancel gtk glib signals true dialog d)
  unfolding agent_cancel cancel
  cancel-answers a m dialog d e =
      let (gone, sent) = canceled-answers d.agent a m e in
      (gone, error "net.connman.Agent.Error.Canceled" "Canceled", ap (λ es. d.effects ++ es) sent)

  -- One of the three buttons of the dialog is pressed, as GTK keeps it for a group.
  abbrev pub Pressed : Ui → Type 0
  Pressed u =
      is_active "passphrase_button" u
        || (is_active "wpspbc_button" u || is_active "wpspin_button" u)
      ≡ true

  ok-answers :
      (a : Agent) (m : Message) (d : D)
      → pending_of d.agent ≡ some (a, m)
      → Pressed d.ui
      → Answered m d (agent_ok_input gtk glib signals true true d)
  unfolding agent_ok_input passphrase_of
  ok-answers a m d e h =
      let (gone, sent) =
        passphrase-answers d.agent a m (filled gtk glib signals "hidden_entry" d.ui)
          (passphrase_of gtk glib signals d.ui) (wpspin_of gtk glib signals d.ui)
          (is_active "wpspbc_button" d.ui || is_active "wpspin_button" d.ui) e
          (ground (arith, h)) in
      (gone, _, ap (λ es. d.effects ++ es) sent)

  -- A request for input that waits: if it is not for the selected service, or names nothing that a dialog
  -- asks for, it is canceled at once. A dialog for a passphrase or a hidden name leaves it waiting, and
  -- whatever the user does to the widgets, the buttons OK and Cancel answer it. The answer can be made, and
  -- one button of the group is pressed.
  pub input-Answered :
      (format : String → String) (after : Ui → Ui) (path : Option String) (asked : InputData)
      (a : Agent) (m : Message) (d : D)
      → pending_of d.agent ≡ some (a, m)
      → let d' = agent_input_cb gtk glib signals format after true path asked d in
        (same path d.service && (asked.passphrase || (asked.hidden || asked.login)) ≡ false
          → Answered m d d')
        × (same path d.service && (asked.passphrase || asked.hidden) ≡ true
            → (u : Ui) → Pressed u
            → Answered m d (agent_ok_input gtk glib signals true true (record d' { ui = u }))
              × Answered m d
                  (agent_cancel gtk glib signals true "input_dbox" (record d' { ui = u })))
  unfolding agent_input_cb agent_popup_input_dbox
  input-Answered format after path asked a m d e =
      let (gone, sent) = canceled-answers d.agent a m e in
      let popped =
        agent_popup_input_dbox gtk glib signals format after asked.hidden asked.passphrase
          asked.previous_passphrase asked.wpspin asked.previous_wpspin d in
      let login = agent_popup_login_dbox gtk glib signals d in
      let canceled = on_agent gtk glib signals (connman_agent_reply_canceled true) d in
      (
        λ h.
            let same_state =
              not_shown (same path d.service) asked.passphrase asked.hidden asked.login popped login
                canceled h in
            (
              ap (λ (v : D). pending_of v.agent) same_state ∙ gone,
              error "net.connman.Agent.Error.Canceled" "Canceled",
              ap (λ (v : D). v.effects) same_state ∙ ap (λ es. d.effects ++ es) sent,
            ),
        λ h u pressed.
            subst
              (λ v.
                Answered m d (agent_ok_input gtk glib signals true true (record v { ui = u }))
                × Answered m d
                    (agent_cancel gtk glib signals true "input_dbox" (record v { ui = u })))
              (sym (
                shown (same path d.service) asked.passphrase asked.hidden asked.login popped login
                  canceled h))
              (
                ok-answers a m (record popped { ui = u }) e pressed,
                cancel-answers a m "input_dbox" (record popped { ui = u }) e,
              ),
      )

  filled-empty :
      (name : String) (u : Ui) → entry_text name u ≡ "" → filled gtk glib signals name u ≡ none
  unfolding size
  filled-empty name u e = rw e refl

  -- The button OK of the login dialog, with both entries empty: the dialog is hidden, but the request is not
  -- answered and waits on.
  pub empty_login_unanswered :
      (made opened : Bool) (a : Agent) (m : Message) (d : D)
      → pending_of d.agent ≡ some (a, m)
      → entry_text "login_username" d.ui ≡ ""
      → entry_text "login_password" d.ui ≡ ""
      → let d' = agent_ok_login gtk glib signals made opened d in
        (pending_of d'.agent ≡ some (a, m))
        × (d'.effects ≡ d.effects)
        × (d'.ui ≡ gtk.act "login_dbox" hide d.ui)
  unfolding agent_ok_login
  empty_login_unanswered made opened a m d e user secret =
      let refused : (connman_agent_reply_login made opened
            (filled gtk glib signals "login_username" d.ui)
            (filled gtk glib signals "login_password" d.ui) d.agent).1
          ≡ (d.agent, []) =
        rw (filled-empty "login_username" d.ui user, filled-empty "login_password" d.ui secret)
          (login-refused made opened d.agent a m e) in
      (
        ap (λ (o : Outcome). pending_of o.0) refused ∙ e,
        ap (λ (o : Outcome). d.effects ++ o.1) refused ∙ append-nil d.effects,
        refl,
      )
