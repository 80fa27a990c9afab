-- ===== src/Manager/Life.antt =====
-- lib/manager.c: the set-up of the manager and its end, and what the user interface reads and asks.
use connman_ui.Common.{
  ℕ, Bool, true, String, Option, none, some, List, [], ◌∷◌, ◌==◌, if◌then◌else◌, Ret, ok, einval,
  enomem,
}
use connman_ui.MainLoop.{MainLoop}
use connman_ui.Dbus.Libdbus.{Libdbus, text, flag, type_boolean, type_object_path}
use connman_ui.Dbus.Append.{append_value}
use connman_ui.Manager.State.{
  Manager, ConnmanState, unknown, World, Answers, emit, new_manager, Callback, UserPointer,
  ref_connection, unref_connection, send_call, send_message, add_watch, manager_offlinemode,
}
use connman_ui.Manager.Property.{property, source_remove, source_remove_if_set}
use connman_ui.Manager.Requests.{drop_call, remove_watch_if_set}

module _ (glib : MainLoop) (lib : Libdbus) where
  -- The loop of connman_manager_finalize.
  unfoldable pub remove_sources : List ℕ → World glib lib → World glib lib
  unfolding source_remove
  remove_sources [] w = w
  remove_sources (id ∷ ids) w = remove_sources ids (source_remove_if_set glib lib id w)

  unfoldable pub connman_manager_finalize : World glib lib → World glib lib
  unfolding remove_sources
  connman_manager_finalize w = elim w.manager [
    | none ↦ w
    | some m ↦
        let silent : World glib lib = record w {
          manager = some (record m { property_changed_cb = none });
        } in
        let w1 = remove_sources m.source silent in
        let w2 =
          remove_watch_if_set glib lib m.property_changed_wid
            (drop_call glib lib m.get_properties_call w1) in
        let w3 = drop_call glib lib m.get_technologies_call w2 in
        let w4 =
          remove_watch_if_set glib lib m.technology_removed_wid
            (remove_watch_if_set glib lib m.technology_added_wid w3) in
        let w5 = drop_call glib lib m.get_services_call w4 in
        record (emit glib lib unref_connection w5) { manager = none }
  ]

  unfoldable pub connman_manager_init :
      Answers → Option Callback → UserPointer → World glib lib → Ret × World glib lib
  unfolding connman_manager_finalize
  connman_manager_init answers property_changed_cb user_data w =
      let m : Manager = record new_manager { property_changed_cb = property_changed_cb } in
      let made : World glib lib = emit glib lib ref_connection (record w { manager = some m }) in
      let called : Manager = record m { get_properties_call = answers.call } in
      let sent : World glib lib =
        emit glib lib (send_call "GetProperties" answers.call)
          (record made { manager = some called }) in
      let watching : World glib lib =
        emit glib lib (add_watch "PropertyChanged" answers.watch) (record sent {
          manager = some (record called {
            property_changed_wid = answers.watch;
            property_user_data = user_data;
          });
        }) in
      if w.connman
      then elim w.manager [
        | some _ ↦ (ok, w)
        | none ↦
            if answers.memory
            then (if answers.message
                then (if answers.sent
                    then (if answers.notified
                        then (if answers.watch == 0
                            then (einval, connman_manager_finalize sent)
                            else (ok, watching))
                        else (einval, connman_manager_finalize sent))
                    else (einval, connman_manager_finalize made))
                else (enomem, connman_manager_finalize made))
            else (enomem, w)
      ]
      else (einval, w)

  unfoldable pub connman_manager_set_offlinemode :
      Answers → Bool → World glib lib → Ret × World glib lib
  unfolding append_value property
  connman_manager_set_offlinemode answers offlinemode w = elim w.manager [
    | none ↦ (einval, w)
    | some m ↦
        let arguments =
          append_value 0 (some (property manager_offlinemode)) type_boolean (flag offlinemode) in
        if answers.message
        then (if answers.sent
            then (ok, emit glib lib (send_message "SetProperty" arguments) w)
            else (einval, w))
        else (enomem, w)
  ]

  unfoldable pub connman_manager_get_state : World glib lib → ConnmanState
  connman_manager_get_state w = elim w.manager [ none ↦ unknown | some m ↦ m.state ]

  unfoldable pub connman_manager_get_offlinemode : World glib lib → Bool
  connman_manager_get_offlinemode w = elim w.manager [ none ↦ true | some m ↦ m.offlinemode ]

  -- A message that cannot be sent is dropped.
  pub send_path : Answers → String → String → World glib lib → World glib lib
  unfolding append_value
  send_path answers method path w = elim w.manager [
    | none ↦ w
    | some m ↦
        if answers.message
        then (if answers.sent
            then emit glib lib
                (send_message method (append_value 0 none type_object_path (text path))) w
            else w)
        else w
  ]

  unfoldable pub connman_manager_register_agent : Answers → String → World glib lib → World glib lib
  unfolding send_path
  connman_manager_register_agent answers path w = send_path answers "RegisterAgent" path w

  unfoldable pub connman_manager_unregister_agent :
      Answers → String → World glib lib → World glib lib
  unfolding send_path
  connman_manager_unregister_agent answers path w = send_path answers "UnregisterAgent" path w
