-- ===== src/Service/Listing.antt =====
-- lib/service.c: the messages of ConnMan, from one changed property to the whole list of services.
use connman_ui.Common.{
  suc, String, Bool, true, false, Option, none, some, [], ◌∷◌, ◌++◌, ◌==◌, if◌then◌else◌, ltb,
}
use connman_ui.Common.Table.{insert}
use connman_ui.MainLoop.{MainLoop}
use connman_ui.Dbus.Libdbus.{Libdbus, type_array, type_object_path}
use connman_ui.Dbus.Walk.{Pass, go_on, while_valid}
use connman_ui.Dbus.Read.{basic_cell, basic_of, text_of_basic, get_basic, foreach_dict_entry}
use connman_ui.Dbus.Entries.{basic_of_text}
use connman_ui.Service.State.{
  Pointer, Interface, World, Answers, emit, write, get_service, new_service, service_max, add_watch,
  call_removed, dangling,
}
use connman_ui.Service.State
use connman_ui.Service.Update.{updated}
use connman_ui.Service.Property.{modify, property_update}
use connman_ui.Service.Life.{with_interface, remove_service, call_refresh_callback}

module _ (glib : MainLoop) (lib : Libdbus) (answers : Answers) where
  open lib use {Iter, arg_type, recurse, next}

  -- update_service_property returns FALSE always.
  unfoldable pub update_service_property : Pointer → Iter → World glib → Bool × World glib
  unfolding updated
  update_service_property p arg w = (false, modify glib p (updated lib answers arg) w)

  -- The handler of the PropertyChanged signal of a service; `args` is none for no message or one with
  -- no arguments. It always returns TRUE.
  unfoldable pub property_changed_signal_cb : Pointer → Option Iter → World glib → World glib
  unfolding update_service_property property_update
  property_changed_signal_cb p none w = w
  property_changed_signal_cb p (some arg) w =
      let w' =
        (update_service_property p arg
          (modify glib p (λ s. record s { update_index = service_max }) w)).1 in
      elim (w'.heap p) [
        | none ↦ w'
        | some s ↦
            if ltb s.update_index service_max
            then property_update glib answers.memory p s.update_index w'
            else w'
      ]

  -- A new service with its watch, in the table. It is written at the pointer `top`.
  unfoldable pub create_service : String → World glib → World glib
  create_service path w =
      let p = w.top in
      with_interface glib (λ i. record i { services = insert path p i.services })
        (emit glib (add_watch path)
          (write glib p (some (new_service path answers.watch)) (record w { top = suc p })))

  -- The end of update_or_create_service, for the service that was found or made.
  unfoldable pub append_service : Pointer → Iter → World glib → World glib
  unfolding foreach_dict_entry update_service_property
  append_service p dict w =
      (foreach_dict_entry lib (update_service_property p) dict (
        with_interface glib (λ i. record i { ordered_services = i.ordered_services ++ p ∷ [] })
          w)).1

  unfoldable pub update_or_create_service : String → Iter → World glib → World glib
  unfolding create_service append_service get_service
  update_or_create_service path dict w = elim w.service_if [
    | none ↦ w
    | some i ↦ elim (get_service glib path w) [
      | some p ↦ append_service p dict w
      | none ↦ if answers.memory then append_service w.top dict (create_service path w) else w
    ]
  ]

  -- `char *obj_path`, after the read of an object path into it.
  unfoldable pub object_path : Iter → String
  unfolding get_basic
  object_path arg = text_of_basic (
      basic_of
        (get_basic lib arg type_object_path (some (basic_cell (basic_of_text answers.stray)))).1)

  -- The loop over the services that a message lists.
  unfoldable pub services_pass : Iter → World glib → Pass (World glib) (World glib)
  unfolding object_path update_or_create_service
  services_pass it w =
      let strt = recurse it in go_on (update_or_create_service (object_path strt) (next strt) w)

  -- The loop over the paths of services that are gone.
  unfoldable pub removed_pass : Iter → World glib → Pass (World glib) (World glib)
  unfolding object_path get_service remove_service
  removed_pass it w =
      let path = object_path it in
      go_on (elim (get_service glib path w) [
        | none ↦ w
        | some _ ↦
            let w' = remove_service glib path w in
            elim w'.service_if [
              | none ↦ w'
              | some i ↦ elim i.removed_cb [
                | none ↦ w'
                | some cb ↦ emit glib (call_removed cb path) w'
              ]
            ]
      ])

  abbrev pub unordered : World glib → World glib
  unordered w = with_interface glib (λ i. record i { ordered_services = [] }) w

  unfoldable pub list_services : Iter → World glib → World glib
  unfolding services_pass
  list_services array w = while_valid lib services_pass (λ v. v) array w

  unfoldable pub service_changed_signal_cb : Iter → World glib → World glib
  unfolding list_services removed_pass call_refresh_callback
  service_changed_signal_cb iter w = elim w.service_if [
    | none ↦ w
    | some _ ↦
        let listed = list_services (recurse iter) (unordered w) in
        let w' = while_valid lib removed_pass (λ v. v) (recurse (next iter)) listed in
        elim w'.service_if [
          | none ↦ w'
          | some i ↦ if i.refreshed then call_refresh_callback glib answers w' else w'
        ]
  ]

  -- The end of get_services_cb.
  unfoldable pub after_services : World glib → World glib
  unfolding call_refresh_callback
  after_services w = elim w.service_if [
    | none ↦ w
    | some i ↦
        if i.refreshed
        then call_refresh_callback glib answers w
        else emit glib State.get_services
            (record w { service_if = some (record i { refreshed = true }) })
  ]

  unfoldable pub get_services_cb : Option Iter → World glib → World glib
  unfolding list_services after_services
  get_services_cb none w = w
  get_services_cb (some iter) w = elim w.service_if [
    | none ↦ w
    | some _ ↦
        if arg_type iter == type_array
        then after_services (list_services (recurse iter) (unordered w))
        else unordered w
  ]
