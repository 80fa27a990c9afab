-- ===== src/Technology/State.antt =====
-- The state of lib/technology.c: the technologies by their object paths, the main loop, and the calls
-- that leave the file. A pointer to a technology is its path.
use connman_ui.Common.{ℕ, String, Bool, false, Option, none, some, List, [], ◌∷◌, replicate, Ret}
use connman_ui.Common.Table.{Table, lookup, insert}
use connman_ui.MainLoop.{MainLoop}
use connman_ui.Dbus.Append.{Call}

abbrev pub Callback : Type 0
Callback = ℕ

abbrev pub UserPointer : Type 0
UserPointer = ℕ

abbrev pub PendingCall : Type 0
PendingCall = ℕ

-- enum connman_technology_property
abbrev pub technology_powered : ℕ
technology_powered = 0

abbrev pub technology_connected : ℕ
technology_connected = 1

abbrev pub technology_tethering : ℕ
technology_tethering = 2

abbrev pub technology_tethering_identifier : ℕ
technology_tethering_identifier = 3

abbrev pub technology_tethering_passphrase : ℕ
technology_tethering_passphrase = 4

abbrev pub technology_max : ℕ
technology_max = 5

-- Technology_updatable_properties
abbrev pub property_names : List String
property_names =
    "Powered" ∷ "Connected" ∷ "Tethering" ∷ "TetheringIdentifier" ∷ "TetheringPassphrase" ∷ []

-- struct connman_technology. Its member `path` is the key under which the table holds it, and stands
-- for the pointer too. A source or watch identifier of 0 is none.
pub record Technology : Type 0 where
  pub name : Option String
  pub type : Option String
  pub powered : Bool
  pub connected : Bool
  pub tethering : Bool
  pub tethering_identifier : Option String
  pub tethering_passphrase : Option String
  pub update_index : ℕ
  pub property_changed_wid : ℕ
  pub to_update : List ℕ
  pub property_changed_cb : Option Callback
  pub property_changed_user_data : UserPointer
  pub scan_cb : Option Callback
  pub scan_call : Option PendingCall
  pub scan_user_data : UserPointer
  pub call_modify : List (Option PendingCall)
  pub to_error : List ℕ
  pub property_set_error_cb : Option Callback
  pub property_set_error_user_data : UserPointer

-- g_try_malloc0 of a technology, with its watch
abbrev pub new_technology : ℕ → Technology
new_technology wid = record {
  name = none;
  type = none;
  powered = false;
  connected = false;
  tethering = false;
  tethering_identifier = none;
  tethering_passphrase = none;
  update_index = 0;
  property_changed_wid = wid;
  to_update = replicate technology_max 0;
  property_changed_cb = none;
  property_changed_user_data = 0;
  scan_cb = none;
  scan_call = none;
  scan_user_data = 0;
  call_modify = replicate technology_max none;
  to_error = replicate technology_max 0;
  property_set_error_cb = none;
  property_set_error_user_data = 0;
}

-- struct connman_technology_interface
pub record Interface : Type 0 where
  pub techs : Table Technology
  pub signals_set : Bool  -- the member `set`
  pub property_changed_cb : Option Callback
  pub property_user_data : UserPointer
  pub added_cb : Option Callback
  pub removed_cb : Option Callback

-- The calls that leave the file. The requests to the manager (lib/manager.c) are among them.
pub data Effect : Type 0 where
  add_watch : String → Effect
  remove_watch : ℕ → Effect
  no_source : ℕ → Effect  -- g_source_remove of an identifier that is not attached
  cancel_call : PendingCall → Effect
  unref_call : PendingCall → Effect
  ref_connection unref_connection : Effect
  null_dereference : Effect  -- a member of `tech_if` is read while that is NULL
  call_changed : Callback → String → String → UserPointer → Effect
  call_set_error : Callback → String → String → UserPointer → Effect
  call_added : Callback → String → Effect
  call_removed : Callback → String → Effect
  call_scanned : Callback → UserPointer → Effect
  get_technologies : Effect
  register_signals : Bool → Effect
  send_call : String → String → List Call → Effect  -- object path, method, arguments

-- What memory, libdbus, GDBus and the manager answer to one function: whether g_try_malloc0 gives
-- memory, the watch that g_dbus_add_signal_watch gives, whether a message can be made, whether
-- dbus_connection_send_with_reply is not FALSE and the call that it gives, whether
-- dbus_pending_call_set_notify is not FALSE, what the manager returns, and the `char *` that a variable
-- holds which was not written.
pub record Answers : Type 0 where
  pub memory : Bool
  pub watch : ℕ
  pub message : Bool
  pub sent : Bool
  pub call : Option PendingCall
  pub notified : Bool
  pub registered : Ret
  pub listed : Ret
  pub stray : Option String

module _ (glib : MainLoop) where
  -- `connman` tells whether the pointer is not NULL; the latest effect stands first.
  pub record World : Type 0 where
    pub connman : Bool
    pub tech_if : Option Interface
    pub loop : glib.Loop
    pub effects : List Effect

  abbrev pub emit : Effect → World → World
  emit e w = record w { effects = e ∷ w.effects }

  unfoldable pub get_technology : String → World → Option Technology
  get_technology path w = elim w.tech_if [ none ↦ none | some i ↦ lookup path i.techs ]

  -- A write through a pointer to a technology.
  unfoldable pub put_technology : String → Technology → World → World
  put_technology path t w = elim w.tech_if [
    | none ↦ w
    | some i ↦ record w { tech_if = some (record i { techs = insert path t i.techs }) }
  ]
