-- ===== src/Manager/State.antt =====
-- The state of lib/manager.c: the manager, its timeouts, and the calls that leave the file.
use connman_ui.Common.{ℕ, String, Bool, false, Option, none, List, [], ◌∷◌, replicate}
use connman_ui.MainLoop.{MainLoop}
use connman_ui.Dbus.Libdbus.{Libdbus}
use connman_ui.Dbus.Append.{Call}

abbrev pub Callback : Type 0
Callback = ℕ

abbrev pub UserPointer : Type 0
UserPointer = ℕ

abbrev pub PendingCall : Type 0
PendingCall = ℕ

-- enum connman_state of lib/connman-interface.h
pub data ConnmanState : Type 0 where
  unknown offline idle ready online failure : ConnmanState

-- enum connman_manage_property
abbrev pub manager_state : ℕ
manager_state = 0

abbrev pub manager_offlinemode : ℕ
manager_offlinemode = 1

abbrev pub manager_max : ℕ
manager_max = 2

-- Manager_updatable_properties
abbrev pub manager_properties : List String
manager_properties = "State" ∷ "OfflineMode" ∷ []

-- struct connman_manager. A source or watch identifier of 0 is none.
pub record Manager : Type 0 where
  pub get_properties_call : Option PendingCall
  pub property_changed_wid : ℕ
  pub property_changed_cb : Option Callback
  pub property_user_data : UserPointer
  pub state : ConnmanState
  pub offlinemode : Bool
  pub source : List ℕ
  pub get_technologies_call : Option PendingCall
  pub technology_added_wid : ℕ
  pub technology_removed_wid : ℕ
  pub get_technologies_cb : Option Callback
  pub technology_added_cb : Option Callback
  pub technology_removed_cb : Option Callback
  pub get_services_call : Option PendingCall
  pub services_changed_wid : ℕ
  pub get_services_cb : Option Callback
  pub services_changed_cb : Option Callback

-- g_try_malloc0
abbrev pub new_manager : Manager
new_manager = record {
  get_properties_call = none;
  property_changed_wid = 0;
  property_changed_cb = none;
  property_user_data = 0;
  state = unknown;
  offlinemode = false;
  source = replicate manager_max 0;
  get_technologies_call = none;
  technology_added_wid = 0;
  technology_removed_wid = 0;
  get_technologies_cb = none;
  technology_added_cb = none;
  technology_removed_cb = none;
  get_services_call = none;
  services_changed_wid = 0;
  get_services_cb = none;
  services_changed_cb = none;
}

-- The calls that leave the file. `hand_on` is the call of a callback of lib/technology.c or
-- lib/service.c with the arguments of a message; the path of a property change is NULL.
pub data Effect (Iter : Type 0) : Type 0 where
  ref_connection unref_connection null_dereference : Effect Iter
  send_call : String → Option PendingCall → Effect Iter
  send_message : String → List Call → Effect Iter
  cancel_call unref_call : PendingCall → Effect Iter
  add_watch : String → ℕ → Effect Iter
  remove_watch : ℕ → Effect Iter
  no_source : ℕ → Effect Iter
  call_changed : Callback → String → UserPointer → Effect Iter
  hand_on : Callback → Iter → Effect Iter

-- What memory, libdbus and GDBus answer to one function: whether g_try_malloc0 gives memory, whether a
-- message can be made, whether dbus_connection_send_with_reply or g_dbus_send_message is not FALSE and
-- the call that it gives, whether dbus_pending_call_set_notify is not FALSE, the watches that two
-- calls of g_dbus_add_signal_watch give, whether realloc gives memory, and what variables
-- hold that were not written.
pub record Answers : Type 0 where
  pub memory : Bool
  pub message : Bool
  pub sent : Bool
  pub call : Option PendingCall
  pub notified : Bool
  pub watch : ℕ
  pub second_watch : ℕ
  pub realloc : ℕ → Bool
  pub stray : Option String
  pub stray_flag : Bool

module _ (glib : MainLoop) (lib : Libdbus) where
  -- `connman` tells whether the pointer is not NULL; the latest effect stands first.
  pub record World : Type 0 where
    pub connman : Bool
    pub manager : Option Manager
    pub loop : glib.Loop
    pub effects : List (Effect lib.Iter)

  abbrev pub emit : Effect lib.Iter → World → World
  emit e w = record w { effects = e ∷ w.effects }
