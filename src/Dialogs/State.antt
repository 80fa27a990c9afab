-- ===== src/Dialogs/State.antt =====
-- The state of src/agent_dialogs.c: its static variables, its widgets, the agent of lib/agent.c, the
-- technologies of lib/technology.c, and the tray.
use connman_ui.Common.{String, Bool, Option, List, ◌++◌}
use connman_ui.MainLoop.{MainLoop}
use connman_ui.Agent.State.{Agent, Effect, Outcome}
use connman_ui.Technology.State
use connman_ui.Ui.Gtk.{Gtk}
use connman_ui.Ui.Tray.{Signals, Tray, cui_tray_enable, cui_tray_disable}

module _ (gtk : Gtk) (glib : MainLoop) (signals : Signals) where
  -- `service` and `name` are the members of struct cui_selected_service; `effects` is what the agent did,
  -- in order.
  pub record Dialogs : Type 0 where
    pub ui : gtk.Ui
    pub service : Option String
    pub name : Option String
    pub technology : Option String
    pub tethering : Bool
    pub agent : Option Agent
    pub effects : List Effect
    pub technologies : State.World glib
    pub tray : Tray signals

  abbrev pub on_ui : (gtk.Ui → gtk.Ui) → Dialogs → Dialogs
  on_ui f d = record d { ui = f d.ui }

  -- A call of lib/agent.c.
  abbrev pub on_agent : (Option Agent → Outcome) → Dialogs → Dialogs
  on_agent f d = record d { agent = (f d.agent).0; effects = d.effects ++ (f d.agent).1 }

  abbrev pub tray_enable : Dialogs → Dialogs
  tray_enable d = record d { tray = cui_tray_enable signals d.tray }

  abbrev pub tray_disable : Dialogs → Dialogs
  tray_disable d = record d { tray = cui_tray_disable signals d.tray }
