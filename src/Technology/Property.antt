-- ===== src/Technology/Property.antt =====
-- The notifications of lib/technology.c: at most one timeout for a property of a technology, which
-- calls the user interface back.
use connman_ui.Common.{ℕ, String, Bool, false, none, some, ◌==◌, if◌then◌else◌, get_or, set}
use connman_ui.MainLoop.{MainLoop, PropertyChange}
use connman_ui.Technology.State.{
  World, emit, get_technology, put_technology, property_names, no_source, call_changed,
  call_set_error,
}

-- PROPERTY(n)
unfoldable pub property : ℕ → String
property index = get_or property_names index ""

-- What property_update puts into a property change.
abbrev pub update_change : String → ℕ → PropertyChange
update_change path index = record {
  index = index;
  path = path;
  name = property index;
  error = false;
}

module _ (glib : MainLoop) where
  open glib use {Loop, find, add, remove}

  unfoldable pub destroy_property : PropertyChange → World glib → World glib
  destroy_property p w = elim (get_technology glib p.path w) [
    | none ↦ w
    | some t ↦
        if p.error
        then put_technology glib p.path (record t { to_error = set t.to_error p.index 0 }) w
        else put_technology glib p.path (record t { to_update = set t.to_update p.index 0 }) w
  ]

  -- The timeout callback. It returns FALSE, so the timeout is detached after it.
  unfoldable pub property_changed_or_error : PropertyChange → World glib → World glib
  property_changed_or_error p w = elim (get_technology glib p.path w) [
    | none ↦ w
    | some t ↦
        if p.error
        then elim t.property_set_error_cb [
          | none ↦ w
          | some cb ↦ emit glib (call_set_error cb p.path p.name t.property_set_error_user_data) w
        ]
        else let w' : World glib = elim w.tech_if [
          | none ↦ w
          | some i ↦ elim i.property_changed_cb [
            | none ↦ w
            | some cb ↦ emit glib (call_changed cb p.path p.name i.property_user_data) w
          ]
        ] in
          elim t.property_changed_cb [
            | none ↦ w'
            | some cb ↦ emit glib (call_changed cb p.path p.name t.property_changed_user_data) w'
          ]
  ]

  -- g_source_remove, which calls the destroy function of the timeout.
  unfoldable pub source_remove : ℕ → World glib → World glib
  unfolding destroy_property
  source_remove id w = elim (find w.loop id) [
    | none ↦ emit glib (no_source id) w
    | some p ↦ destroy_property p (record w { loop = remove w.loop id })
  ]

  abbrev pub source_remove_if_set : ℕ → World glib → World glib
  source_remove_if_set id w = if id == 0 then w else source_remove id w

  -- One turn of the main loop for the timeout `id`: its callback, then its destroy function.
  unfoldable pub dispatch : ℕ → World glib → World glib
  unfolding property_changed_or_error destroy_property
  dispatch id w = elim (find w.loop id) [
    | none ↦ w
    | some p ↦
        let w' = property_changed_or_error p w in
        destroy_property p (record w' { loop = remove w'.loop id })
  ]

  unfoldable pub store_update : String → ℕ → ℕ × Loop → World glib → World glib
  store_update path index (id, loop) w =
      let w' : World glib = record w { loop = loop } in
      elim (get_technology glib path w') [
        | none ↦ w'
        | some t ↦ put_technology glib path (record t { to_update = set t.to_update index id }) w'
      ]

  unfoldable pub property_update : Bool → String → ℕ → World glib → World glib
  unfolding source_remove store_update property
  property_update memory path index w = elim (get_technology glib path w) [
    | none ↦ w
    | some t ↦ elim t.property_changed_cb [
      | none ↦ w
      | some _ ↦
          if memory
          then (let w' = source_remove_if_set (get_or t.to_update index 0) w in
              store_update path index (add w'.loop (update_change path index)) w')
          else w
    ]
  ]
