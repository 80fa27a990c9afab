-- ===== src/Service/Life.antt =====
-- lib/service.c: how services come and go, their order, and the selected service.
use connman_ui.Common.{
  ℕ, String, Bool, true, false, Option, none, some, List, [], ◌∷◌, ◌==◌, str_eq, if◌then◌else◌, Ret,
  ok, einval, enomem,
}
use connman_ui.Common.Table.{Table, lookup, remove}
use connman_ui.MainLoop.{MainLoop}
use connman_ui.Manager.State.{Callback, UserPointer, PendingCall}
use connman_ui.Service.State.{
  Service, Pointer, Interface, World, Answers, emit, write, get_service, new_service, service_max,
  add_watch, remove_watch, cancel_call, unref_call, ref_connection, unref_connection, dangling,
  call_removed, call_refreshed, call_scanned, add_refresh, remove_refresh, register_signal, scan,
}
use connman_ui.Service.State
use connman_ui.Service.Property.{source_remove, source_remove_if_set}
use connman_ui.Technology.State as Tech
use connman_ui.Technology.Access.{
  connman_technology_get_technologies, connman_technology_get_type, connman_technology_is_enabled,
}

module _ (glib : MainLoop) where
  abbrev pub drop_call : Option PendingCall → World glib → World glib
  drop_call none w = w
  drop_call (some c) w = emit glib (unref_call c) (emit glib (cancel_call c) w)

  -- The loop of service_free over the slots of the properties.
  unfoldable pub free_slots : List ℕ → List (Option PendingCall) → List ℕ → World glib → World glib
  unfolding source_remove
  free_slots (u ∷ us) (c ∷ cs) (e ∷ es) w =
      free_slots us cs es
        (source_remove_if_set glib e (drop_call c (source_remove_if_set glib u w)))
  free_slots _ _ _ w = w

  -- `service_if->selected_service == service`
  abbrev pub is_selected : Pointer → World glib → Bool
  is_selected p w = elim w.service_if [
    | none ↦ false
    | some i ↦ elim i.selected_service [ none ↦ false | some q ↦ q == p ]
  ]

  unfoldable pub service_free : Pointer → World glib → World glib
  unfolding free_slots
  service_free p w = if is_selected p w then w else elim (w.heap p) [
    | none ↦ emit glib dangling w
    | some s ↦
        let w' : World glib =
          if s.property_changed_wid == 0
          then w
          else emit glib (remove_watch s.property_changed_wid) w in
        write glib p none (free_slots s.to_update s.call_modify s.to_error w')
  ]

  -- g_hash_table_remove, whose destroy function is service_free.
  unfoldable pub remove_service : String → World glib → World glib
  unfolding service_free
  remove_service path w = elim w.service_if [
    | none ↦ w
    | some i ↦ elim (lookup path i.services) [
      | none ↦ w
      | some p ↦
          service_free p
            (record w { service_if = some (record i { services = remove path i.services }) })
    ]
  ]

  unfoldable pub free_all : Table Pointer → World glib → World glib
  unfolding service_free
  free_all [] w = w
  free_all ((path, p) ∷ m) w = free_all m (service_free p w)

  -- g_hash_table_remove_all and g_hash_table_destroy, which free the services of the table.
  unfoldable pub remove_all : World glib → World glib
  unfolding free_all
  remove_all w = elim w.service_if [
    | none ↦ w
    | some i ↦ free_all i.services (record w { service_if = some (record i { services = [] }) })
  ]

  abbrev pub with_interface : (Interface → Interface) → World glib → World glib
  with_interface f w = elim w.service_if [
    | none ↦ w
    | some i ↦ record w { service_if = some (f i) }
  ]

  unfoldable pub connman_service_select : String → World glib → Ret × World glib
  unfolding get_service
  connman_service_select path w = elim (get_service glib path w) [
    | none ↦ (einval, w)
    | some p ↦ (ok, with_interface (λ i. record i { selected_service = some p }) w)
  ]

  unfoldable pub connman_service_deselect : World glib → World glib
  unfolding get_service service_free
  connman_service_deselect w = elim w.service_if [
    | none ↦ w
    | some i ↦ elim i.selected_service [
      | none ↦ w
      | some p ↦
          let w' : World glib = record w {
            service_if = some (record i { selected_service = none });
          } in
          elim (w.heap p) [
            | none ↦ emit glib dangling w'
            | some s ↦ elim (get_service glib s.path w') [ none ↦ service_free p w' | some _ ↦ w' ]
          ]
    ]
  ]

  unfoldable pub connman_service_init : Answers → World glib → Ret × World glib
  connman_service_init answers w =
      let made : Interface = record {
        refreshed = false;
        services = [];
        ordered_services = [];
        removed_cb = none;
        refresh_services_cb = none;
        scan_services_cb = none;
        to_refresh = 0;
        refresh_user_data = 0;
        selected_service = none;
      } in
      if w.connman
      then elim w.service_if [
        | some _ ↦ (ok, w)
        | none ↦
            if answers.memory
            then (ok, emit glib ref_connection (record w { service_if = some made }))
            else (enomem, w)
      ]
      else (einval, w)

  unfoldable pub connman_service_finalize : World glib → World glib
  unfolding connman_service_deselect remove_all
  connman_service_finalize w = elim w.service_if [
    | none ↦ w
    | some i ↦
        let w' = remove_all (
          connman_service_deselect
            (emit glib unref_connection (emit glib (register_signal false) w))) in
        record w' { service_if = none }
  ]

  -- The list that is given away is a copy; a path is read through the pointer to its service.
  unfoldable pub connman_service_get_services : World glib → List Pointer
  connman_service_get_services w = elim w.service_if [ none ↦ [] | some i ↦ i.ordered_services ]

  unfoldable pub connman_service_free_services_list : World glib → World glib
  unfolding remove_all
  connman_service_free_services_list w = elim w.service_if [
    | none ↦ w
    | some i ↦ remove_all (
        emit glib (register_signal false)
          (record w { service_if = some (record i { ordered_services = [] }) }))
  ]

  -- The callback of the timeout `to_refresh`.
  unfoldable pub refresh_cb : World glib → World glib
  refresh_cb w = elim w.service_if [
    | none ↦ w
    | some i ↦ elim i.refresh_services_cb [
      | none ↦ w
      | some cb ↦ emit glib (call_refreshed cb i.refresh_user_data) w
    ]
  ]

  unfoldable pub call_refresh_callback : Answers → World glib → World glib
  call_refresh_callback answers w = elim w.service_if [
    | none ↦ w
    | some i ↦ elim i.refresh_services_cb [
      | none ↦ w
      | some _ ↦
          let w' : World glib =
            if i.to_refresh == 0 then w else emit glib (remove_refresh i.to_refresh) w in
          emit glib (add_refresh answers.timeout)
            (record w' { service_if = some (record i { to_refresh = answers.timeout }) })
    ]
  ]

  unfoldable pub scan_services_cb : World glib → World glib
  scan_services_cb w = elim w.service_if [
    | none ↦ w
    | some i ↦ elim i.scan_services_cb [
      | none ↦ w
      | some cb ↦ emit glib (call_scanned cb i.refresh_user_data) w
    ]
  ]

  -- The first technology of type wifi, NULL for none.
  unfoldable pub first_wifi : Tech.World glib → List String → Option String
  first_wifi t [] = none
  first_wifi t (path ∷ paths) =
      let rest = first_wifi t paths in
      elim (connman_technology_get_type glib path t) [
        | none ↦ rest
        | some type ↦ if str_eq type "wifi" then some path else rest
      ]

  -- `t` is the state of lib/technology.c, which is asked for the technologies.
  unfoldable pub connman_service_refresh_services_list :
      Tech.World glib
      → Option Callback
      → Option Callback
      → UserPointer
      → World glib
      → Ret × World glib
  unfolding first_wifi scan_services_cb connman_technology_get_technologies
      connman_technology_is_enabled
  connman_service_refresh_services_list t refresh scanned user_data w = elim w.service_if [
    | none ↦ (einval, w)
    | some i ↦
        let unrefreshed : Interface = record i { refreshed = false } in
        let techs = connman_technology_get_technologies glib t in
        let wifi = first_wifi t techs in
        let w' : World glib = record w {
          service_if = some (record unrefreshed {
            refresh_services_cb = refresh;
            scan_services_cb = scanned;
            refresh_user_data = user_data;
          });
        } in
        let at_once = scan_services_cb (emit glib State.get_services w') in
        elim techs [
          | [] ↦ (einval, record w { service_if = some unrefreshed })
          | _ ↦ elim wifi [
            | none ↦ (ok, at_once)
            | some path ↦
                if connman_technology_is_enabled glib path t
                then (
                  ok,
                  emit glib State.get_services
                      (emit glib (scan path) (emit glib (register_signal true) w')),
                )
                else (ok, at_once)
          ]
        ]
  ]
