-- ===== src/Service/Property.antt =====
-- lib/service.c: the timeouts that announce changes and errors of a service.
use connman_ui.Common.{ℕ, String, Bool, false, none, some, ◌==◌, if◌then◌else◌, get_or, set}
use connman_ui.MainLoop.{MainLoop, PropertyChange}
use connman_ui.Service.State.{
  Service, Pointer, World, emit, write, get_service, property, no_source, dangling, call_changed,
  call_set_error,
}

-- What property_update puts into a property change.
abbrev pub update_change : String → ℕ → PropertyChange
update_change path index = record {
  index = index;
  path = path;
  name = property index;
  error = false;
}

abbrev pub cleared : PropertyChange → Service → Service
cleared p s =
    if p.error
    then record s { to_error = set s.to_error p.index 0 }
    else record s { to_update = set s.to_update p.index 0 }

module _ (glib : MainLoop) where
  open glib use {Loop, find, add, remove}

  -- A change through a pointer; where the service is freed it is a use after free.
  abbrev pub modify : Pointer → (Service → Service) → World glib → World glib
  modify p f w = elim (w.heap p) [
    | none ↦ emit glib dangling w
    | some s ↦ write glib p (some (f s)) w
  ]

  unfoldable pub destroy_property : PropertyChange → World glib → World glib
  unfolding get_service
  destroy_property p w = elim (get_service glib p.path w) [
    | none ↦ w
    | some q ↦ modify q (cleared p) w
  ]

  -- The timeout callback. It returns FALSE, so the timeout is detached after it.
  unfoldable pub property_changed_or_error : PropertyChange → World glib → World glib
  unfolding get_service
  property_changed_or_error p w = elim (get_service glib p.path w) [
    | none ↦ w
    | some q ↦ elim (w.heap q) [
      | none ↦ emit glib dangling w
      | some s ↦
          if p.error
          then elim s.property_set_error_cb [
            | none ↦ w
            | some cb ↦ emit glib (call_set_error cb p.path p.name s.property_set_error_user_data) w
          ]
          else elim s.property_changed_cb [
            | none ↦ w
            | some cb ↦ emit glib (call_changed cb p.path p.name s.property_changed_user_data) w
          ]
    ]
  ]

  -- g_source_remove, which calls the destroy function of the timeout.
  unfoldable pub source_remove : ℕ → World glib → World glib
  unfolding destroy_property
  source_remove id w = elim (find w.loop id) [
    | none ↦ emit glib (no_source id) w
    | some p ↦ destroy_property p (record w { loop = remove w.loop id })
  ]

  abbrev pub source_remove_if_set : ℕ → World glib → World glib
  source_remove_if_set id w = if id == 0 then w else source_remove id w

  -- One turn of the main loop for the timeout `id`: its callback, then its destroy function.
  unfoldable pub dispatch : ℕ → World glib → World glib
  unfolding property_changed_or_error destroy_property
  dispatch id w = elim (find w.loop id) [
    | none ↦ w
    | some p ↦
        let w' = property_changed_or_error p w in
        destroy_property p (record w' { loop = remove w'.loop id })
  ]

  unfoldable pub store_update : Pointer → ℕ → ℕ × Loop → World glib → World glib
  store_update q index (id, loop) w =
      modify q (λ s. record s { to_update = set s.to_update index id }) (record w { loop = loop })

  unfoldable pub property_update : Bool → Pointer → ℕ → World glib → World glib
  unfolding source_remove store_update property
  property_update memory q index w = elim (w.heap q) [
    | none ↦ emit glib dangling w
    | some s ↦ elim s.property_changed_cb [
      | none ↦ w
      | some _ ↦
          if memory
          then (let w' = source_remove_if_set (get_or s.to_update index 0) w in
              store_update q index (add w'.loop (update_change s.path index)) w')
          else w
    ]
  ]
