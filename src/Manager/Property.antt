-- ===== src/Manager/Property.antt =====
-- lib/manager.c: its two properties, and the timeouts that announce them.
use connman_ui.Common.{
  ℕ, String, Bool, Option, none, some, false, ◌==◌, str_eq, if◌then◌else◌, get_or, set, is_ok,
}
use connman_ui.MainLoop.{MainLoop, PropertyChange}
use connman_ui.Dbus.Libdbus.{Libdbus, null, flag, type_string, type_boolean}
use connman_ui.Dbus.Read.{basic_cell, basic_of, text_of_basic, get_basic, get_basic_variant}
use connman_ui.Dbus.Entries.{basic_of_text, text_of, flag_of, read_text, read_flag}
use connman_ui.Manager.State.{
  Manager, ConnmanState, offline, idle, ready, online, failure, World, Answers, emit, manager_state,
  manager_offlinemode, manager_properties, no_source, null_dereference, call_changed, unref_call,
  PendingCall,
}

-- PROPERTY(n)
unfoldable pub property : ℕ → String
property index = get_or manager_properties index ""

-- g_strcmp0 with a text
abbrev same_text : Option String → String → Bool
same_text none s = false
same_text (some t) s = str_eq t s

unfoldable pub string2enum_state : Option String → ConnmanState
string2enum_state state =
    if same_text state "offline"
    then offline
    else if same_text state "idle"
    then idle
    else if same_text state "ready"
    then ready
    else if same_text state "online"
    then online
    else if same_text state "failure"
    then failure
    else offline

-- What update_manager_property puts into a property change; its path stays NULL.
abbrev pub manager_change : ℕ → PropertyChange
manager_change index = record { index = index; path = ""; name = property index; error = false }

module _ (glib : MainLoop) (lib : Libdbus) where
  open glib use {find, add, remove}
  open lib use {Iter, next}

  unfoldable pub destroy_property : PropertyChange → World glib lib → World glib lib
  destroy_property p w = elim w.manager [
    | none ↦ w
    | some m ↦ record w { manager = some (record m { source = set m.source p.index 0 }) }
  ]

  -- The timeout callback. It returns FALSE, so the timeout is detached after it.
  unfoldable pub property_changed : PropertyChange → World glib lib → World glib lib
  property_changed p w = elim w.manager [
    | none ↦ w
    | some m ↦ elim m.property_changed_cb [
      | none ↦ w
      | some cb ↦ emit glib lib (call_changed cb p.name m.property_user_data) w
    ]
  ]

  -- g_source_remove, which calls the destroy function of the timeout.
  unfoldable pub source_remove : ℕ → World glib lib → World glib lib
  unfolding destroy_property
  source_remove id w = elim (find w.loop id) [
    | none ↦ emit glib lib (no_source id) w
    | some p ↦ destroy_property p (record w { loop = remove w.loop id })
  ]

  abbrev pub source_remove_if_set : ℕ → World glib lib → World glib lib
  source_remove_if_set id w = if id == 0 then w else source_remove id w

  -- One turn of the main loop for the timeout `id`: its callback, then its destroy function.
  unfoldable pub dispatch : ℕ → World glib lib → World glib lib
  unfolding property_changed destroy_property
  dispatch id w = elim (find w.loop id) [
    | none ↦ w
    | some p ↦
        let w' = property_changed p w in destroy_property p (record w' { loop = remove w'.loop id })
  ]

  unfoldable pub attach : ℕ → World glib lib → World glib lib
  attach index w =
      let (id, loop) = add w.loop (manager_change index) in
      elim w.manager [
        | none ↦ emit glib lib null_dereference w
        | some m ↦ record w {
          manager = some (record m { source = set m.source index id });
          loop = loop;
        }
      ]

  unfoldable pub update_manager_property : Answers → ℕ → World glib lib → World glib lib
  unfolding source_remove attach
  update_manager_property answers index w =
      if answers.memory
      then elim w.manager [
        | none ↦ emit glib lib null_dereference w
        | some m ↦ attach index (source_remove_if_set (get_or m.source index 0) w)
      ]
      else w

  unfoldable pub update_state : Answers → Option String → Manager → World glib lib → World glib lib
  unfolding update_manager_property string2enum_state
  update_state answers value m w =
      update_manager_property answers manager_state
        (record w { manager = some (record m { state = string2enum_state value }) })

  unfoldable pub update_offlinemode : Answers → Bool → Manager → World glib lib → World glib lib
  unfolding update_manager_property
  update_offlinemode answers value m w =
      update_manager_property answers manager_offlinemode
        (record w { manager = some (record m { offlinemode = value }) })

  -- The two reads of get_properties_callback.
  unfoldable pub read_state : Answers → Iter → World glib lib → World glib lib
  unfolding read_text update_state property
  read_state answers arg w =
      let (found, value) =
        read_text lib answers.realloc arg (property manager_state) answers.stray in
      elim w.manager [
        | none ↦ emit glib lib null_dereference w
        | some m ↦ if found then update_state answers value m w else w
      ]

  unfoldable pub read_offlinemode : Answers → Iter → World glib lib → World glib lib
  unfolding read_flag update_offlinemode property
  read_offlinemode answers arg w =
      let (found, value) =
        read_flag lib answers.realloc arg (property manager_offlinemode) answers.stray_flag in
      elim w.manager [
        | none ↦ emit glib lib null_dereference w
        | some m ↦ if found then update_offlinemode answers value m w else w
      ]

  -- The answer of ConnMan to GetProperties. `completed` is dbus_pending_call_get_completed, `reply` the
  -- iterator of the answer, none for a NULL answer or one with no arguments.
  unfoldable pub get_properties_callback :
      Answers → PendingCall → Bool → Option Iter → World glib lib → World glib lib
  unfolding read_state read_offlinemode
  get_properties_callback answers pending completed reply w =
      if completed
      then elim w.manager [
        | none ↦ emit glib lib null_dereference w
        | some m ↦
            let w' : World glib lib = record w {
              manager = some (record m { get_properties_call = none });
            } in
            emit glib lib (unref_call pending) (elim reply [
              | none ↦ w'
              | some arg ↦ read_offlinemode answers arg (read_state answers arg w')
            ])
      ]
      else w

  -- The handler of the PropertyChanged signal of ConnMan; `args` is none for no message or one
  -- with no arguments. It always returns TRUE, and is installed while there is a manager.
  unfoldable pub property_changed_signal_cb :
      Answers → Option Iter → World glib lib → World glib lib
  unfolding get_basic get_basic_variant update_state update_offlinemode property
  property_changed_signal_cb answers none w = w
  property_changed_signal_cb answers (some arg) w =
      let (ret, cell) = get_basic lib arg type_string (some (basic_cell null)) in
      let name = text_of_basic (basic_of cell) in
      let (state_ret, state) =
        get_basic_variant lib (next arg) type_string
          (some (basic_cell (basic_of_text answers.stray))) in
      let (mode_ret, mode) =
        get_basic_variant lib (next arg) type_boolean
          (some (basic_cell (flag answers.stray_flag))) in
      elim w.manager [
        | none ↦ w
        | some m ↦
            if is_ok ret
            then (if str_eq name (property manager_state)
                then (if is_ok state_ret
                    then update_state answers (text_of (basic_of state)) m w
                    else w)
                else if str_eq name (property manager_offlinemode)
                then (if is_ok mode_ret
                    then update_offlinemode answers (flag_of (basic_of mode)) m w
                    else w)
                else w)
            else w
      ]
