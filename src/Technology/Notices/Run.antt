-- ===== src/Technology/Notices/Run.antt =====
-- The messages of ConnMan, the callbacks of the user interface and the turns of the main loop, in any
-- order, on the book of lib/technology.c.
use connman_ui.Common.{ℕ, ◌≡◌, String, false, Option, none, some, List, [], ◌∷◌}
use connman_ui.MainLoop.{MainLoop, PropertyChange}
use connman_ui.Dbus.Libdbus.{Libdbus}
use connman_ui.Technology.State.{Callback, UserPointer, World, Answers, get_technology}
use connman_ui.Technology.Update.{property_changed_signal_cb}
use connman_ui.Technology.Access.{connman_technology_set_property_changed_callback}
use connman_ui.Technology.Life.{get_technologies_cb}
use connman_ui.Technology.Property.{dispatch}
use connman_ui.Technology.Notices.Soundness.{IsSound}
use connman_ui.Technology.Notices.Keeps.{dispatch-IsSound}
use connman_ui.Technology.Notices.Handlers.{
  start-IsSound, set_changed_callback-IsSound, property_changed_signal_cb-IsSound,
  get_technologies_cb-IsSound,
}

-- A PropertyChanged signal, ConnMan's answer to GetTechnologies, a callback of the user interface for a
-- technology, and a turn of the main loop for a timeout.
pub data Event (Iter : Type 0) : Type 0 where
  signal : Answers → String → Option Iter → Event Iter
  answer : Answers → Option Iter → Event Iter
  listen : String → Option Callback → UserPointer → Event Iter
  turn : ℕ → Event Iter

module _ (lib : Libdbus) (glib : MainLoop) where
  open glib use {find}

  unfoldable pub step : Event lib.Iter → World glib → World glib
  step (signal answers path args) w = property_changed_signal_cb lib glib answers path args w
  step (answer answers args) w = get_technologies_cb glib lib answers args w
  step (listen path cb user) w =
      connman_technology_set_property_changed_callback glib path cb user w
  step (turn id) w = dispatch glib id w

  unfoldable pub run : List (Event lib.Iter) → World glib → World glib
  run [] w = w
  run (e ∷ es) w = run es (step e w)

  step-IsSound : (e : Event lib.Iter) (w : World glib) → IsSound glib w → IsSound glib (step e w)
  unfolding step
  step-IsSound (signal answers path args) w h =
      property_changed_signal_cb-IsSound lib glib answers path args w h
  step-IsSound (answer answers args) w h = get_technologies_cb-IsSound lib glib answers args w h
  step-IsSound (listen path cb user) w h = set_changed_callback-IsSound glib path cb user w h
  step-IsSound (turn id) w h = dispatch-IsSound glib id w h

  run-IsSound :
      (es : List (Event lib.Iter)) (w : World glib) → IsSound glib w → IsSound glib (run es w)
  unfolding run
  run-IsSound [] w h = h
  run-IsSound (e ∷ es) w h = run-IsSound es (step e w) (step-IsSound e w h)

  -- From a start with no technology and no timeout, through any PropertyChanged signals, answers to
  -- GetTechnologies, callbacks of the user interface and turns of the main loop: two attached timeouts that announce a
  -- change of the same property of the same technology are one.
  pub run_one_change :
      (es : List (Event lib.Iter)) (w : World glib) (id id' : ℕ) (p p' : PropertyChange)
      → ((path : String) → get_technology glib path w ≡ none)
      → ((i : ℕ) → find w.loop i ≡ none)
      → find (run es w).loop id ≡ some p
      → find (run es w).loop id' ≡ some p'
      → (p.error ≡ false) × (p'.error ≡ false) × (p.path ≡ p'.path) × (p.index ≡ p'.index)
      → id ≡ id'
  run_one_change es w id id' p p' empty idle e e' (f, f', path, index) =
      let h = run-IsSound es w (start-IsSound glib w empty idle) in
      cc (h.recorded id p e f, h.recorded id' p' e' f')
