-- ===== src/Technology/Life.antt =====
-- lib/technology.c: how technologies come and go, and the set-up of the component.
use connman_ui.Common.{
  ℕ, String, true, false, Option, none, some, List, [], ◌∷◌, ◌==◌, if◌then◌else◌, is_ok, Ret, ok,
  einval, enomem,
}
use connman_ui.Common.Table.{Table, lookup, remove}
use connman_ui.MainLoop.{MainLoop}
use connman_ui.Dbus.Libdbus.{Libdbus, null, type_object_path, type_array}
use connman_ui.Dbus.Walk.{Pass, go_on, while_valid}
use connman_ui.Dbus.Read.{basic_cell, basic_of, text_of_basic, get_basic}
use connman_ui.Technology.State.{
  Technology, Interface, World, Answers, emit, PendingCall, Callback, remove_watch, cancel_call,
  unref_call, call_added, call_removed, register_signals, null_dereference, ref_connection,
  unref_connection,
}
use connman_ui.Technology.State
use connman_ui.Technology.Property.{source_remove, source_remove_if_set}
use connman_ui.Technology.Update.{update_or_create_technology}

-- A `char *` path that no read wrote.
abbrev stray_path : Option String → String
stray_path (some s) = s
stray_path none = ""

module _ (glib : MainLoop) where
  abbrev drop_call : Option PendingCall → World glib → World glib
  drop_call none w = w
  drop_call (some c) w = emit glib (unref_call c) (emit glib (cancel_call c) w)

  -- The loop of technology_free over the slots of the properties.
  free_slots : List ℕ → List (Option PendingCall) → List ℕ → World glib → World glib
  unfolding source_remove
  free_slots (u ∷ us) (c ∷ cs) (e ∷ es) w =
      free_slots us cs es
        (source_remove_if_set glib e (drop_call c (source_remove_if_set glib u w)))
  free_slots _ _ _ w = w

  unfoldable pub technology_free : Technology → World glib → World glib
  unfolding free_slots
  technology_free t w =
      let w' : World glib =
        if t.property_changed_wid == 0
        then w
        else emit glib (remove_watch t.property_changed_wid) w in
      drop_call t.scan_call (free_slots t.to_update t.call_modify t.to_error w')

  -- g_hash_table_remove, whose destroy function is technology_free.
  unfoldable pub remove_technology : String → Interface → World glib → World glib
  unfolding technology_free
  remove_technology path i w = elim (lookup path i.techs) [
    | none ↦ w
    | some t ↦
        technology_free t (record w { tech_if = some (record i { techs = remove path i.techs }) })
  ]

  free_all : Table Technology → World glib → World glib
  unfolding technology_free
  free_all [] w = w
  free_all ((path, t) ∷ m) w = free_all m (technology_free t w)

  unfoldable pub connman_technology_init : Answers → World glib → Ret × World glib
  connman_technology_init answers w =
      let made : World glib = record w {
        tech_if = some (record {
          techs = [];
          signals_set = false;
          property_changed_cb = none;
          property_user_data = 0;
          added_cb = none;
          removed_cb = none;
        });
        effects = State.get_technologies ∷ w.effects;
      } in
      if w.connman
      then elim w.tech_if [
        | some _ ↦ (ok, w)
        | none ↦
            if answers.memory
            then (if is_ok answers.listed
                then (ok, emit glib ref_connection made)
                else (answers.listed, made))
            else (enomem, w)
      ]
      else (einval, w)

  unfoldable pub connman_technology_finalize : World glib → World glib
  unfolding free_all
  connman_technology_finalize w = elim w.tech_if [
    | none ↦ w
    | some i ↦
        let w' : World glib = record w {
          tech_if = some (record i { techs = [] });
          effects = unref_connection ∷ register_signals false ∷ w.effects;
        } in
        record (free_all i.techs w') { tech_if = none }
  ]

  module _ (lib : Libdbus) where
    open lib use {Iter, arg_type, recurse, next}

    -- `char *obj_path`, after the read of an object path into it.
    unfoldable pub object_path : Answers → Iter → String
    unfolding get_basic
    object_path answers arg =
        let (ret, path) = get_basic lib arg type_object_path (some (basic_cell null)) in
        if is_ok ret then text_of_basic (basic_of path) else stray_path answers.stray

    unfoldable pub technology_added_cb : Answers → Option Iter → World glib → World glib
    unfolding object_path update_or_create_technology
    technology_added_cb answers none w = w
    technology_added_cb answers (some arg) w =
        let path = object_path answers arg in
        let w' = update_or_create_technology lib glib answers path (next arg) w in
        elim w'.tech_if [
          | none ↦ emit glib null_dereference w'
          | some i ↦
              let w'' : World glib = elim i.added_cb [
                | none ↦ w'
                | some cb ↦ emit glib (call_added cb path) w'
              ] in
              if i.signals_set then emit glib State.get_technologies w'' else w''
        ]

    unfoldable pub technology_removed_cb : Answers → Option Iter → World glib → World glib
    unfolding object_path remove_technology
    technology_removed_cb answers none w = w
    technology_removed_cb answers (some arg) w =
        let path = object_path answers arg in
        elim w.tech_if [
          | none ↦ emit glib null_dereference w
          | some i ↦
              remove_technology path i
                (elim i.removed_cb [ none ↦ w | some cb ↦ emit glib (call_removed cb path) w ])
        ]

    unfoldable pub technologies_pass : Answers → Iter → World glib → Pass (World glib) (World glib)
    unfolding object_path update_or_create_technology
    technologies_pass answers it w =
        let strt = recurse it in
        go_on
          (update_or_create_technology lib glib answers (object_path answers strt) (next strt) w)

    unfoldable pub after_technologies : Answers → World glib → World glib
    after_technologies answers w = elim w.tech_if [
      | none ↦ w
      | some i ↦
          if i.signals_set
          then w
          else let registered : World glib = emit glib (register_signals true) w in
            emit glib State.get_technologies (
              if is_ok answers.registered
              then record registered { tech_if = some (record i { signals_set = true }) }
              else registered)
    ]

    -- The handler of the manager's answer to GetTechnologies.
    unfoldable pub get_technologies_cb : Answers → Option Iter → World glib → World glib
    unfolding technologies_pass after_technologies
    get_technologies_cb answers none w = w
    get_technologies_cb answers (some arg) w = elim w.tech_if [
      | none ↦ w
      | some _ ↦
          if arg_type arg == type_array
          then while_valid lib (technologies_pass answers) (after_technologies answers)
              (recurse arg) w
          else w
    ]
