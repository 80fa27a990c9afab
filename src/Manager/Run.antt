-- ===== src/Manager/Run.antt =====
-- The life of the manager: the calls of the other components, ConnMan's answers and signals, and the
-- turns of the main loop, in any order.
use connman_ui.Common.{ℕ, String, Bool, Option, List, [], ◌∷◌}
use connman_ui.MainLoop.{MainLoop}
use connman_ui.Dbus.Libdbus.{Libdbus}
use connman_ui.Manager.State.{World, Answers, Callback, UserPointer, PendingCall}
use connman_ui.Manager.Property.{dispatch, get_properties_callback, property_changed_signal_cb}
use connman_ui.Manager.Requests.{
  get_technologies_callback, get_services_callback, technology_added_signal_cb,
  technology_removed_signal_cb, services_changed_signal_cb, connman_manager_get_technologies,
  connman_manager_get_services, connman_manager_register_technology_signals,
  connman_manager_register_service_signal,
}
use connman_ui.Manager.Life.{
  connman_manager_init, connman_manager_finalize, connman_manager_set_offlinemode,
  connman_manager_register_agent, connman_manager_unregister_agent,
}

pub data Event (Iter : Type 0) : Type 0 where
  init : Answers → Option Callback → UserPointer → Event Iter
  finalize : Event Iter
  turn : ℕ → Event Iter
  properties_answered : Answers → PendingCall → Bool → Option Iter → Event Iter
  technologies_answered services_answered : PendingCall → Bool → Option Iter → Event Iter
  property_changed : Answers → Option Iter → Event Iter
  technology_added technology_removed services_changed : Option Iter → Event Iter
  get_technologies get_services register_service : Answers → Option Callback → Event Iter
  register_technology : Answers → Option Callback → Option Callback → Event Iter
  set_offlinemode : Answers → Bool → Event Iter
  register_agent unregister_agent : Answers → String → Event Iter

module _ (glib : MainLoop) (lib : Libdbus) where
  unfoldable pub step : Event lib.Iter → World glib lib → World glib lib
  step (init answers cb user_data) w = (connman_manager_init glib lib answers cb user_data w).1
  step finalize w = connman_manager_finalize glib lib w
  step (turn id) w = dispatch glib lib id w
  step (properties_answered answers pending completed reply) w =
      get_properties_callback glib lib answers pending completed reply w
  step (technologies_answered pending completed reply) w =
      get_technologies_callback glib lib pending completed reply w
  step (services_answered pending completed reply) w =
      get_services_callback glib lib pending completed reply w
  step (property_changed answers args) w = property_changed_signal_cb glib lib answers args w
  step (technology_added args) w = technology_added_signal_cb glib lib args w
  step (technology_removed args) w = technology_removed_signal_cb glib lib args w
  step (services_changed args) w = services_changed_signal_cb glib lib args w
  step (get_technologies answers cb) w = (connman_manager_get_technologies glib lib answers cb w).1
  step (get_services answers cb) w = (connman_manager_get_services glib lib answers cb w).1
  step (register_service answers cb) w =
      (connman_manager_register_service_signal glib lib answers cb w).1
  step (register_technology answers added removed) w =
      (connman_manager_register_technology_signals glib lib answers added removed w).1
  step (set_offlinemode answers mode) w =
      (connman_manager_set_offlinemode glib lib answers mode w).1
  step (register_agent answers path) w = connman_manager_register_agent glib lib answers path w
  step (unregister_agent answers path) w = connman_manager_unregister_agent glib lib answers path w

  unfoldable pub run : List (Event lib.Iter) → World glib lib → World glib lib
  run [] w = w
  run (e ∷ es) w = run es (step e w)
