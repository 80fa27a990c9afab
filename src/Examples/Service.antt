-- ===== src/Examples/Service.antt =====
-- Two networks that ConnMan lists, and a selected one that is listed no more.
use connman_ui.Common.{◌≡◌, refl, true, false, none, some, [], ◌∷◌, map, arith, ◌==◌, if◌then◌else◌}
use connman_ui.Common.Table
use connman_ui.Dbus.Libdbus.{type_struct}
use connman_ui.Dbus.Walk.{positions}
use connman_ui.Dbus.Append.Nesting.{nesting}
use connman_ui.Manager.Timeouts.{among}
use connman_ui.Examples.Messages.{
  messages, string, object_path, array, struct, variant, Values, end, more, field, dict, recurse,
}
use connman_ui.Examples.Timeouts.{timeouts}
use connman_ui.Service.State.{Service, World, Answers, Interface, new_service, property}
use connman_ui.Service.Life.{connman_service_deselect}
use connman_ui.Service.Listing.{get_services_cb}
use connman_ui.Service.Listing
use connman_ui.Service.Paths.{path_at}
use connman_ui.Service.Listed.{IsListed, Ordered}
use connman_ui.Service.Order.{get_services_order}
use connman_ui.Service.Index.{updated-update_index}
use connman_ui.Service.Update.{updated}
use connman_ui.Service.Selected.{deselect_dangles}
use connman_ui.Service.Config.{append_setting, list_setting, reads_null}
use connman_ui.Service.Messages.{setting_nested}

abbrev answers : Answers
answers = record {
  memory = true;
  realloc = λ n. true;
  watch = 7;
  message = true;
  sent = true;
  call = some 9;
  notified = true;
  timeout = 3;
  join = λ ss. "";
  split = λ s. s ∷ [];
  stray = none;
  stray_flag = false;
  stray_number = 0;
}

abbrev pub empty : Interface
empty = record {
  refreshed = false;
  services = [];
  ordered_services = [];
  removed_cb = none;
  refresh_services_cb = none;
  scan_services_cb = none;
  to_refresh = 0;
  refresh_user_data = 0;
  selected_service = none;
}

abbrev pub start : World timeouts
start = record {
  connman = true;
  service_if = some empty;
  heap = λ p. none;
  top = 0;
  loop = [];
  effects = [];
}

start-IsListed : IsListed timeouts start empty
unfolding path_at Table.lookup
start-IsListed = record { here = refl; listed = λ path p k. absurd (cc); fresh = λ p k. refl }

-- [("/home", {"Name": "Home"}), ("/cafe", {})]
abbrev listing : Values
listing =
    more
      (array type_struct (
        more
          (struct (
            more (object_path "/home") (more (dict (more (field "Name" (string "Home")) end)) end)))
          (more (struct (more (object_path "/cafe") (more (dict end) end))) end)))
      end

get_services_order_example :
    Ordered timeouts (get_services_cb timeouts messages answers (some listing) start) (
      map
        (λ it. Listing.object_path timeouts messages answers (recurse it))
        (positions messages (recurse listing)))
get_services_order_example =
    get_services_order timeouts messages answers listing start empty refl refl start-IsListed

abbrev home : Service
home = new_service "/home" 7

updated-update_index_example :
    (updated messages answers (more (string "Roaming") (more (variant end) end)) home).update_index
    ≡ 5
unfolding property
updated-update_index_example =
    updated-update_index messages answers 5 (more (string "Roaming") (more (variant end) end)) home
      (omega arith) refl refl

abbrev kept : Interface
kept = record empty { ordered_services = 0 ∷ []; selected_service = some 0 }

abbrev outlived : World timeouts
outlived = record start {
  service_if = some kept;
  heap = λ p. if p == 0 then some home else none;
  top = 1;
}

no_home : Table.lookup "/home" kept.services ≡ none
unfolding Table.lookup
no_home = refl

deselect_dangles_example :
    ((connman_service_deselect timeouts outlived).heap 0 ≡ none)
    × (i' : Interface) × ((connman_service_deselect timeouts outlived).service_if ≡ some i')
    × (among 0 i'.ordered_services ≡ true)
deselect_dangles_example =
    deselect_dangles timeouts outlived kept 0 home refl refl refl no_home refl

setting_nested_example :
    nesting (append_setting answers 7 115 (list_setting ("8.8.8.8" ∷ []))) 0 ≡ some 0
unfolding reads_null
setting_nested_example = setting_nested answers 7 115 (list_setting ("8.8.8.8" ∷ []))
