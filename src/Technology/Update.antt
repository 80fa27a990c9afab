-- ===== src/Technology/Update.antt =====
-- lib/technology.c: what ConnMan's messages change. The paths that the messages carry are read as the
-- source reads them, a variant of another type leaving a variable as it was.
use connman_ui.Common.{String, Bool, false, Option, none, some, ltb, str_eq, if◌then◌else◌, is_ok}
use connman_ui.Common.Table.{lookup}
use connman_ui.MainLoop.{MainLoop}
use connman_ui.Dbus.Libdbus.{Libdbus, Basic, null, text, flag, type_string, type_boolean}
use connman_ui.Dbus.Read.{
  basic_cell, basic_of, text_of_basic, get_basic, get_basic_variant, foreach_dict_entry,
}
use connman_ui.Technology.State.{
  Technology, World, Answers, emit, get_technology, put_technology, new_technology,
  technology_powered, technology_connected, technology_tethering, technology_tethering_identifier,
  technology_tethering_passphrase, technology_max, add_watch,
}
use connman_ui.Technology.Property.{property, property_update}

abbrev string_of : Basic → Option String
string_of (text s) = some s
string_of _ = none

abbrev bool_of : Basic → Bool
bool_of (flag b) = b
bool_of _ = false

module _ (lib : Libdbus) where
  open lib use {Iter, next}

  -- `char *value`, after a read of a variant into it; not written, it holds the stray pointer.
  unfoldable pub string_variant : Option String → Iter → Option String
  unfolding get_basic_variant
  string_variant stray arg =
      let (ret, value) = get_basic_variant lib arg type_string (some (basic_cell null)) in
      if is_ok ret then string_of (basic_of value) else stray

  unfoldable pub bool_variant : Bool → Iter → Bool
  unfolding get_basic_variant
  bool_variant old arg =
      let (ret, value) = get_basic_variant lib arg type_boolean (some (basic_cell (flag old))) in
      if is_ok ret then bool_of (basic_of value) else old

  -- The chain of g_strcmp0 in update_technology_property.
  unfoldable pub update_field : Option String → String → Iter → Technology → Technology
  unfolding string_variant bool_variant property
  update_field stray name arg t =
      if str_eq name "Name"
      then record t { name = string_variant stray arg }
      else if str_eq name "Type"
      then record t { type = string_variant stray arg }
      else if str_eq name (property technology_powered)
      then record t { powered = bool_variant t.powered arg; update_index = technology_powered }
      else if str_eq name (property technology_connected)
      then record t {
        connected = bool_variant t.connected arg;
        update_index = technology_connected;
      }
      else if str_eq name (property technology_tethering)
      then record t {
        tethering = bool_variant t.tethering arg;
        update_index = technology_tethering;
      }
      else if str_eq name (property technology_tethering_identifier)
      then record t {
        tethering_identifier = string_variant stray arg;
        update_index = technology_tethering_identifier;
      }
      else if str_eq name (property technology_tethering_passphrase)
      then record t {
        tethering_passphrase = string_variant stray arg;
        update_index = technology_tethering_passphrase;
      }
      else t

  module _ (glib : MainLoop) where
    unfoldable pub notify_if_updatable : Bool → String → Technology → World glib → World glib
    unfolding property_update
    notify_if_updatable memory path t w =
        if ltb t.update_index technology_max
        then property_update glib memory path t.update_index w
        else w

    unfoldable pub update_technology_property :
        Answers → String → Iter → World glib → Bool × World glib
    unfolding get_basic update_field notify_if_updatable
    update_technology_property answers path arg w =
        let (ret, name) = get_basic lib arg type_string (some (basic_cell null)) in
        elim (get_technology glib path w) [
          | none ↦ (false, w)
          | some t ↦
              let t' = update_field answers.stray (text_of_basic (basic_of name)) (next arg) t in
              if is_ok ret
              then (
                false,
                notify_if_updatable answers.memory path t' (put_technology glib path t' w),
              )
              else (false, w)
        ]

    -- The handler of the PropertyChanged signal of the technology at `path`; `args` is none for no
    -- message or one with no arguments. It always returns TRUE.
    unfoldable pub property_changed_signal_cb :
        Answers → String → Option Iter → World glib → World glib
    unfolding update_technology_property
    property_changed_signal_cb answers path none w = w
    property_changed_signal_cb answers path (some arg) w = elim (get_technology glib path w) [
      | none ↦ w
      | some t ↦
          (update_technology_property answers path arg
            (put_technology glib path (record t { update_index = technology_max }) w)).1
    ]

    unfoldable pub create_technology : Answers → String → World glib → World glib
    create_technology answers path w =
        put_technology glib path (new_technology answers.watch) (emit glib (add_watch path) w)

    unfoldable pub update_or_create_technology : Answers → String → Iter → World glib → World glib
    unfolding create_technology foreach_dict_entry update_technology_property
    update_or_create_technology answers path dict w =
        let update = λ (v : World glib).
          (foreach_dict_entry lib (update_technology_property answers path) dict v).1 in
        elim w.tech_if [
          | none ↦ w
          | some i ↦ elim (lookup path i.techs) [
            | some t ↦ update w
            | none ↦ if answers.memory then update (create_technology answers path w) else w
          ]
        ]
