-- ===== src/Dialogs/Reply.antt =====
-- src/agent_dialogs.c: the buttons of the dialogs, which answer the request.
use connman_ui.Common.{
  String, Bool, true, false, Option, none, some, ◌||◌, ltb, str_eq, if◌then◌else◌,
}
use connman_ui.MainLoop.{MainLoop}
use connman_ui.Agent.Replies.{
  connman_agent_reply_retry, connman_agent_reply_canceled, connman_agent_reply_passphrase,
  connman_agent_reply_login,
}
use connman_ui.Ui.Gtk.{Gtk, sensitive, visibility, hide}
use connman_ui.Ui.Tray.{Signals}
use connman_ui.Ui.Utils.{set_widget_sensitive}
use connman_ui.Ui.Decimal.{size}
use connman_ui.Dialogs.State.{Dialogs, on_ui, on_agent, tray_enable}

module _ (gtk : Gtk) (glib : MainLoop) (signals : Signals) where
  open gtk use {Ui, act, entry_text, is_active}

  abbrev D : Type 0
  D = Dialogs gtk glib signals

  -- A dialog is hidden and the tray answers again.
  abbrev closed : String → D → D
  closed dialog d = tray_enable gtk glib signals (on_ui gtk glib signals (act dialog hide) d)

  -- The text of an entry, or NULL where it is empty.
  abbrev pub filled : String → Ui → Option String
  filled name u = if ltb 0 (size (entry_text name u)) then some (entry_text name u) else none

  -- The arguments that agent_ok_input collects: the passphrase, and the WPS pin where WPS is asked for.
  unfoldable pub passphrase_of : Ui → Option String
  passphrase_of u =
      if is_active "passphrase_button" u then some (entry_text "secret_entry" u) else none

  unfoldable pub wpspin_of : Ui → Option String
  wpspin_of u =
      if is_active "wpspin_button" u
      then some (entry_text "secret_entry" u)
      else if is_active "wpspbc_button" u
      then some ""
      else none

  unfoldable pub agent_ok_input : Bool → Bool → D → D
  unfolding passphrase_of wpspin_of connman_agent_reply_passphrase size
  agent_ok_input made opened d = closed "input_dbox" (
      on_agent gtk glib signals
        (λ a.
          (connman_agent_reply_passphrase made opened (filled "hidden_entry" d.ui)
            (passphrase_of d.ui) (is_active "wpspbc_button" d.ui || is_active "wpspin_button" d.ui)
            (wpspin_of d.ui) a).1)
        d)

  unfoldable pub agent_ok_login : Bool → Bool → D → D
  unfolding connman_agent_reply_login size
  agent_ok_login made opened d = closed "login_dbox" (
      on_agent gtk glib signals
        (λ a.
          (connman_agent_reply_login made opened (filled "login_username" d.ui)
            (filled "login_password" d.ui) a).1)
        d)

  unfoldable pub cancel : Bool → D → D
  unfolding connman_agent_reply_canceled
  cancel made d =
      on_agent gtk glib signals (connman_agent_reply_canceled made) (tray_enable gtk glib signals d)

  unfoldable pub agent_cancel : Bool → String → D → D
  unfolding cancel
  agent_cancel made dialog_box d = cancel made (on_ui gtk glib signals (act dialog_box hide) d)

  -- GTK_RESPONSE_DELETE_EVENT or GTK_RESPONSE_CLOSE
  unfoldable pub agent_close : Bool → Bool → D → D
  unfolding cancel
  agent_close made closes d = if closes then cancel made d else d

  unfoldable pub agent_retry : Bool → D → D
  unfolding connman_agent_reply_retry
  agent_retry made d =
      on_agent gtk glib signals (connman_agent_reply_retry made) (closed "error_dbox" d)

  -- By the label of the button.
  unfoldable pub agent_passphrase_changed : String → Ui → Ui
  unfolding set_widget_sensitive
  agent_passphrase_changed label u =
      if str_eq label "WPS Push-Button"
      then set_widget_sensitive gtk "input_ok" true (act "secret_entry" (sensitive false) u)
      else act "secret_entry" (sensitive true) u

  -- `enters` is ev_cross->type == GDK_ENTER_NOTIFY.
  unfoldable pub change_invisible_char_on_entry : Bool → String → Ui → Ui
  change_invisible_char_on_entry enters entry = act entry (visibility enters)

  unfoldable pub secret_entry_key_release_cb : String → String → Ui → Ui
  unfolding size
  secret_entry_key_release_cb entry button u =
      act button (sensitive (ltb 7 (size (entry_text entry u)))) u
