-- ===== src/Dialogs/Show.antt =====
-- src/agent_dialogs.c: the callbacks of the agent, which show a dialog.
use connman_ui.Common.{
  ℕ, String, Bool, true, false, Option, none, some, ◌||◌, str_eq, if◌then◌else◌,
}
use connman_ui.MainLoop.{MainLoop}
use connman_ui.Agent.State.{InputData}
use connman_ui.Agent.Replies.{
  connman_agent_reply_canceled, connman_agent_set_error_cb, connman_agent_set_browser_cb,
  connman_agent_set_input_cb, connman_agent_set_cancel_cb,
}
use connman_ui.Ui.Gtk.{Gtk, label_text, set_text, visible, visibility, show, hide}
use connman_ui.Ui.Tray.{Signals}
use connman_ui.Ui.Utils.{set_label, set_entry, set_widget_sensitive}
use connman_ui.Dialogs.State.{Dialogs, on_ui, on_agent, tray_enable, tray_disable}

-- The four callbacks that the file hands to lib/agent.c.
abbrev agent_error : ℕ
agent_error = 1

abbrev agent_browser : ℕ
agent_browser = 2

abbrev agent_input : ℕ
agent_input = 3

abbrev agent_cancelled : ℕ
agent_cancelled = 4

-- g_strcmp0(a, b) == 0
abbrev pub same : Option String → Option String → Bool
same none none = true
same none (some _) = false
same (some _) none = false
same (some a) (some b) = str_eq a b

module _ (gtk : Gtk) (glib : MainLoop) (signals : Signals) where
  open gtk use {Ui, act, set_active, gettext}

  abbrev D : Type 0
  D = Dialogs gtk glib signals

  abbrev on : (Ui → Ui) → D → D
  on = on_ui gtk glib signals

  unfoldable pub agent_popup_error_dbox : String → D → D
  agent_popup_error_dbox error d =
      tray_disable gtk glib signals
        (on (λ u. act "error_dbox" show (act "error_message" (label_text error) u)) d)

  unfoldable pub agent_error_cb : String → String → D → D
  unfolding agent_popup_error_dbox
  agent_error_cb path error = agent_popup_error_dbox error

  unfoldable pub agent_browser_cb : String → String → D → D
  agent_browser_cb path url d = d

  -- The label of the previous passphrase, by the format of the source.
  previous_label : (String → String) → Option String → Ui → Ui
  previous_label format none u =
      act "previous_label" (visible false)
        (act "previous_label" (label_text "") (act "previous_label" (visible true) u))
  previous_label format (some previous) u =
      act "previous_label" (label_text (format previous)) (act "previous_label" (visible true) u)

  -- gtk_toggle_button_set_active on a button, whose only handler is agent_passphrase_changed; what that
  -- does is part of `after`.
  abbrev press : (Ui → Ui) → String → Bool → Ui → Ui
  press after name active u = after (set_active name active u).1

  unfoldable pub agent_popup_input_dbox :
      (String → String) → (Ui → Ui) → Bool → Bool → Option String → Bool → Option String → D → D
  unfolding previous_label set_label set_widget_sensitive
  agent_popup_input_dbox format after hidden passphrase previous_passphrase wpspin previous_wpspin
        d =
      let named = λ (u : Ui). set_label gtk "service_label" d.name "" u in
      let hidden_part = λ (u : Ui). act "hidden_entry" (set_text "") (
        act "hidden_entry" (visible hidden)
          (act "ssid_button" (visible hidden) (act "name_button" (visible hidden) u))) in
      let secret_part = λ (u : Ui). set_widget_sensitive gtk "input_ok" false (
        act "secret_entry" (visibility false)
          (act "secret_entry" (set_text "") (press after "passphrase_button" true u))) in
      let wps_part = λ (u : Ui). press after "wpspin_button" false (
        act "wpspin_button" (visible false)
          (press after "wpspbc_button" false (act "wpspbc_button" (visible wpspin) u))) in
      tray_disable gtk glib signals (
        on
          (λ u. act "input_dbox" show (
            previous_label format previous_passphrase
              (wps_part (secret_part (hidden_part (named u))))))
          d)

  unfoldable pub agent_popup_login_dbox : D → D
  unfolding set_entry
  agent_popup_login_dbox d = tray_disable gtk glib signals (
      on
        (λ u. act "login_dbox" show (
          act "login_password" (visibility false) (
            set_entry gtk "login_password" (some "") ""
              (set_entry gtk "login_username" (some "") "" u))))
        d)

  unfoldable pub agent_input_cb :
      (String → String) → (Ui → Ui) → Bool → Option String → InputData → D → D
  unfolding agent_popup_input_dbox agent_popup_login_dbox connman_agent_reply_canceled
  agent_input_cb format after made path asked d =
      let canceled = on_agent gtk glib signals (connman_agent_reply_canceled made) d in
      if same path d.service
      then (if asked.passphrase || asked.hidden
          then agent_popup_input_dbox format after asked.hidden asked.passphrase
              asked.previous_passphrase asked.wpspin asked.previous_wpspin d
          else if asked.login
          then agent_popup_login_dbox d
          else canceled)
      else canceled

  unfoldable pub agent_cancel_cb : D → D
  agent_cancel_cb d = tray_enable gtk glib signals (on (act "input_dbox" hide) d)

  unfoldable pub cui_agent_init_callbacks : D → D
  unfolding connman_agent_set_error_cb connman_agent_set_browser_cb connman_agent_set_input_cb
      connman_agent_set_cancel_cb
  cui_agent_init_callbacks d = record d {
    agent =
        (connman_agent_set_cancel_cb (some agent_cancelled)
          (connman_agent_set_input_cb (some agent_input)
            (connman_agent_set_browser_cb (some agent_browser)
              (connman_agent_set_error_cb (some agent_error) d.agent).1).1).1).1;
  }

  unfoldable pub cui_agent_set_selected_service : Option String → Option String → D → D
  cui_agent_set_selected_service path none d = record d { service = path; name = some "Hidden" }
  cui_agent_set_selected_service path (some name) d = record d { service = path; name = some name }
