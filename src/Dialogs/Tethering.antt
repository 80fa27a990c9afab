-- ===== src/Dialogs/Tethering.antt =====
-- src/agent_dialogs.c: the dialog for the tethering of a technology.
use connman_ui.Common.{
  String, Bool, true, false, Option, none, some, not, ◌&&◌, ltb, is_set, if◌then◌else◌,
}
use connman_ui.MainLoop.{MainLoop}
use connman_ui.Technology.State
use connman_ui.Technology.State.{Answers}
use connman_ui.Technology.Access.{
  connman_technology_get_tethering_identifier, connman_technology_get_tethering_passphrase,
}
use connman_ui.Technology.Setting.{
  connman_technology_tether, connman_technology_set_tethering_identifier,
  connman_technology_set_tethering_passphrase,
}
use connman_ui.Ui.Gtk.{Gtk, visibility, show, hide}
use connman_ui.Ui.Tray.{Signals}
use connman_ui.Ui.Decimal.{size}
use connman_ui.Ui.Utils.{set_entry, set_widget_sensitive}
use connman_ui.Dialogs.State.{Dialogs, on_ui, tray_enable, tray_disable}

module _ (gtk : Gtk) (glib : MainLoop) (signals : Signals) where
  open gtk use {Ui, act, entry_text}

  abbrev D : Type 0
  D = Dialogs gtk glib signals

  abbrev T : Type 0
  T = State.World glib

  -- What lib/technology.c answers for `technology`, which may be NULL, and a request to it.
  abbrev ask : (String → T → Option String) → D → Option String
  ask get d = elim d.technology [ none ↦ none | some path ↦ get path d.technologies ]

  abbrev tell : (String → T → T) → D → D
  tell request d = elim d.technology [
    | none ↦ d
    | some path ↦ record d { technologies = request path d.technologies }
  ]

  unfoldable pub agent_ok_tethering : Answers → D → D
  unfolding connman_technology_tether connman_technology_set_tethering_identifier
      connman_technology_set_tethering_passphrase
  agent_ok_tethering answers d =
      let identified =
        tell
          (λ path w.
            (connman_technology_set_tethering_identifier glib answers path
              (entry_text "tethering_ssid" d.ui) w).1)
          d in
      let secured =
        tell
          (λ path w.
            (connman_technology_set_tethering_passphrase glib answers path
              (entry_text "tethering_passphrase" d.ui) w).1)
          identified in
      let tethered =
        if d.tethering
        then tell (λ path w. (connman_technology_tether glib answers path true w).1) secured
        else secured in
      tray_enable gtk glib signals (
        on_ui gtk glib signals (act "tethering_dbox" hide)
          (record tethered { technology = none; tethering = false }))

  unfoldable pub agent_popup_tethering_dbox : D → D
  unfolding set_entry set_widget_sensitive size connman_technology_get_tethering_identifier
      connman_technology_get_tethering_passphrase
  agent_popup_tethering_dbox d =
      let entries = λ (u : Ui). act "tethering_passphrase" (visibility false) (
        set_entry gtk "tethering_passphrase"
          (ask (connman_technology_get_tethering_passphrase glib) d) ""
          (set_entry gtk "tethering_ssid" (ask (connman_technology_get_tethering_identifier glib) d)
            "" u)) in
      let long = λ (u : Ui). ltb 7 (size (entry_text "tethering_passphrase" u)) in
      tray_disable gtk glib signals (
        on_ui gtk glib signals
          (λ u.
            act "tethering_dbox" show
              (set_widget_sensitive gtk "tethering_ok" (long (entries u)) (entries u)))
          d)

  -- `copied` is g_strdup of the path.
  unfoldable pub cui_agent_set_wifi_tethering_settings :
      Answers → Option String → String → Bool → D → D
  unfolding agent_popup_tethering_dbox connman_technology_tether
      connman_technology_get_tethering_identifier connman_technology_get_tethering_passphrase
  cui_agent_set_wifi_tethering_settings answers none path tether d = record d { technology = none }
  cui_agent_set_wifi_tethering_settings answers (some copied) path tether d =
      let chosen : D = record d { technology = some copied; tethering = tether } in
      let known =
        is_set (connman_technology_get_tethering_identifier glib path d.technologies)
        && is_set (connman_technology_get_tethering_passphrase glib path d.technologies) in
      if tether && not known
      then agent_popup_tethering_dbox chosen
      else if tether
      then record chosen {
        technologies = (connman_technology_tether glib answers path true d.technologies).1;
      }
      else agent_popup_tethering_dbox chosen
