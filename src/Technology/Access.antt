-- ===== src/Technology/Access.antt =====
-- lib/technology.c: the callbacks that the user interface sets, and what it reads.
use connman_ui.Common.{String, Bool, false, Option, none, some, List, []}
use connman_ui.Common.Table.{keys}
use connman_ui.MainLoop.{MainLoop}
use connman_ui.Technology.State.{
  Interface, World, get_technology, put_technology, Callback, UserPointer,
}

module _ (glib : MainLoop) where
  abbrev with_interface : (Interface → Interface) → World glib → World glib
  with_interface f w = elim w.tech_if [ none ↦ w | some i ↦ record w { tech_if = some (f i) } ]

  unfoldable pub connman_technology_set_global_property_callback :
      Option Callback → UserPointer → World glib → World glib
  connman_technology_set_global_property_callback cb user_data =
      with_interface (λ i. record i { property_changed_cb = cb; property_user_data = user_data })

  unfoldable pub connman_technology_set_removed_callback : Option Callback → World glib → World glib
  connman_technology_set_removed_callback cb = with_interface (λ i. record i { removed_cb = cb })

  unfoldable pub connman_technology_set_added_callback : Option Callback → World glib → World glib
  connman_technology_set_added_callback cb = with_interface (λ i. record i { added_cb = cb })

  unfoldable pub connman_technology_set_property_changed_callback :
      String → Option Callback → UserPointer → World glib → World glib
  connman_technology_set_property_changed_callback path cb user_data w =
      elim (get_technology glib path w) [
        | none ↦ w
        | some t ↦
            put_technology glib path
              (record t { property_changed_cb = cb; property_changed_user_data = user_data }) w
      ]

  unfoldable pub connman_technology_set_property_error_callback :
      String → Option Callback → UserPointer → World glib → World glib
  connman_technology_set_property_error_callback path cb user_data w =
      elim (get_technology glib path w) [
        | none ↦ w
        | some t ↦
            put_technology glib path
              (record t { property_set_error_cb = cb; property_set_error_user_data = user_data }) w
      ]

  -- g_hash_table_get_keys; NULL is the empty list.
  unfoldable pub connman_technology_get_technologies : World glib → List String
  unfolding keys
  connman_technology_get_technologies w = elim w.tech_if [ none ↦ [] | some i ↦ keys i.techs ]

  unfoldable pub connman_technology_get_name : String → World glib → Option String
  connman_technology_get_name path w = elim (get_technology glib path w) [
    | none ↦ none
    | some t ↦ t.name
  ]

  unfoldable pub connman_technology_get_type : String → World glib → Option String
  connman_technology_get_type path w = elim (get_technology glib path w) [
    | none ↦ none
    | some t ↦ t.type
  ]

  unfoldable pub connman_technology_is_enabled : String → World glib → Bool
  connman_technology_is_enabled path w = elim (get_technology glib path w) [
    | none ↦ false
    | some t ↦ t.powered
  ]

  unfoldable pub connman_technology_is_connected : String → World glib → Bool
  connman_technology_is_connected path w = elim (get_technology glib path w) [
    | none ↦ false
    | some t ↦ t.connected
  ]

  unfoldable pub connman_technology_is_tethering : String → World glib → Bool
  connman_technology_is_tethering path w = elim (get_technology glib path w) [
    | none ↦ false
    | some t ↦ t.tethering
  ]

  unfoldable pub connman_technology_get_tethering_identifier : String → World glib → Option String
  connman_technology_get_tethering_identifier path w = elim (get_technology glib path w) [
    | none ↦ none
    | some t ↦ t.tethering_identifier
  ]

  unfoldable pub connman_technology_get_tethering_passphrase : String → World glib → Option String
  connman_technology_get_tethering_passphrase path w = elim (get_technology glib path w) [
    | none ↦ none
    | some t ↦ t.tethering_passphrase
  ]
