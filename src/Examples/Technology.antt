-- ===== src/Examples/Technology.antt =====
-- A wifi technology that ConnMan lists, and changes of it.
use connman_ui.Common.{
  ℕ, zero, suc, ◌≡◌, ◌≢◌, refl, String, true, false, none, some, List, [], ◌∷◌, ok, einval, arith,
  get_or,
}
use connman_ui.Common.Table
use connman_ui.Dbus.Libdbus.{flag, type_boolean, type_struct}
use connman_ui.Dbus.Walk.{while_valid}
use connman_ui.Dbus.Read.{foreach_dict_entry}
use connman_ui.Examples.Messages.{
  messages, string, object_path, boolean, array, struct, variant, Values, end, more, field, dict,
}
use connman_ui.Examples.Timeouts.{timeouts, find, add, remove}
use connman_ui.Technology.State.{
  World, Answers, Technology, get_technology, put_technology, new_technology,
}
use connman_ui.Technology.Property.{dispatch, property_update, update_change}
use connman_ui.Technology.Update.{property_changed_signal_cb}
use connman_ui.Technology.Life.{get_technologies_cb}
use connman_ui.Technology.Access.{connman_technology_set_property_changed_callback}
use connman_ui.Technology.Setting.{set_technology_property, set_property_cb, error_change}
use connman_ui.Technology.Notices.Soundness.{IsSound}
use connman_ui.Technology.Notices.Keeps.{dispatch-IsSound, property_update-IsSound}
use connman_ui.Technology.Notices.Handlers.{
  start-IsSound, set_changed_callback-IsSound, property_changed_signal_cb-IsSound,
  get_technologies_cb-IsSound,
}
use connman_ui.Technology.Notices.Run.{Event, signal, answer, listen, step, run, run_one_change}
use connman_ui.Technology.Calls.{second_set_refused, stale_error}
use connman_ui.Technology.Pending.{pending, set_property_cb-pending}

abbrev all_well : Answers
all_well = record {
  memory = true;
  watch = 7;
  message = true;
  sent = true;
  call = some 9;
  notified = true;
  registered = ok;
  listed = ok;
  stray = none;
}

abbrev pub start : World timeouts
start = record {
  connman = true;
  tech_if = some (record {
    techs = [];
    signals_set = false;
    property_changed_cb = none;
    property_user_data = 0;
    added_cb = none;
    removed_cb = none;
  });
  loop = [];
  effects = [];
}

no_technology : (path : String) → get_technology timeouts path start ≡ none
unfolding get_technology Table.lookup
no_technology path = refl

no_timeout : (id : ℕ) → find [] id ≡ none
unfolding find
no_timeout zero = refl
no_timeout (suc i) = refl

fresh_start-IsSound : IsSound timeouts start
fresh_start-IsSound = start-IsSound timeouts start no_technology no_timeout

-- [("/wifi", {"Name": "WiFi", "Powered": true})]
abbrev listing : Values
listing =
    more
      (array type_struct (
        more
          (struct (
            more (object_path "/wifi") (
              more
                (dict
                  (more (field "Name" (string "WiFi")) (more (field "Powered" (boolean true)) end)))
                end)))
          end))
      end

abbrev listed : World timeouts
listed = get_technologies_cb timeouts messages all_well (some listing) start

get_technologies_cb-IsSound_example : IsSound timeouts listed
get_technologies_cb-IsSound_example =
    get_technologies_cb-IsSound messages timeouts all_well (some listing) start fresh_start-IsSound

abbrev listening : World timeouts
listening = connman_technology_set_property_changed_callback timeouts "/wifi" (some 5) 0 listed

listening-IsSound : IsSound timeouts listening
listening-IsSound = set_changed_callback-IsSound timeouts "/wifi" (some 5) 0 listed (
    get_technologies_cb-IsSound messages timeouts all_well (some listing) start fresh_start-IsSound)

abbrev powered_off : Values
powered_off = more (string "Powered") (more (variant (more (boolean false) end)) end)

abbrev announced : World timeouts
announced =
    property_changed_signal_cb messages timeouts all_well "/wifi" (some powered_off) listening

announced_timeout : find announced.loop 1 ≡ some (update_change "/wifi" 0)
unfolding property_changed_signal_cb connman_technology_set_property_changed_callback
    get_technologies_cb get_technology put_technology Table.lookup Table.insert find add remove
    while_valid foreach_dict_entry
announced_timeout = refl

announced-IsSound : IsSound timeouts announced
announced-IsSound =
    property_changed_signal_cb-IsSound messages timeouts all_well "/wifi" (some powered_off)
      listening listening-IsSound

property_changed_signal_cb-IsSound_example : IsSound timeouts announced
property_changed_signal_cb-IsSound_example =
    property_changed_signal_cb-IsSound messages timeouts all_well "/wifi" (some powered_off)
      listening listening-IsSound

dispatch-IsSound_example : IsSound timeouts (dispatch timeouts 1 announced)
dispatch-IsSound_example = dispatch-IsSound timeouts 1 announced announced-IsSound

property_update-IsSound_example :
    IsSound timeouts (property_update timeouts true "/wifi" 3 announced)
property_update-IsSound_example =
    property_update-IsSound timeouts true "/wifi" 3 announced (omega arith) announced-IsSound

-- The technology, its callback, and two changes of `Powered`, of which the second replaces the first.
abbrev twice : List (Event Values)
twice =
    answer all_well (some listing)
    ∷ listen "/wifi" (some 5) 0
    ∷ signal all_well "/wifi" (some powered_off)
    ∷ signal all_well "/wifi" (some powered_off)
    ∷ []

twice_timeout : find (run messages timeouts twice start).loop 2 ≡ some (update_change "/wifi" 0)
unfolding run step property_changed_signal_cb connman_technology_set_property_changed_callback
    get_technologies_cb get_technology put_technology Table.lookup Table.insert find add remove
    while_valid foreach_dict_entry
twice_timeout = refl

run_one_change_example : ◌≡◌ {A = ℕ} 2 2
run_one_change_example =
    run_one_change messages timeouts twice start 2 2 (update_change "/wifi" 0)
      (update_change "/wifi" 0) no_technology no_timeout twice_timeout twice_timeout
      (refl, refl, refl, refl)

abbrev wifi : Technology
wifi = record (new_technology 7) { property_set_error_cb = some 6 }

abbrev with_wifi : World timeouts
with_wifi = put_technology timeouts "/wifi" wifi start

wifi_known : get_technology timeouts "/wifi" with_wifi ≡ some wifi
unfolding get_technology put_technology Table.lookup Table.insert
wifi_known = refl

first_set :
    (set_technology_property timeouts all_well "/wifi" wifi 2 type_boolean (flag true) with_wifi).0
    ≡ ok
unfolding set_technology_property put_technology
first_set = refl

second_set_refused_example :
    let w' =
      (set_technology_property timeouts all_well "/wifi" wifi 2 type_boolean
        (flag true)
        with_wifi).1 in
    (t' : Technology) × (get_technology timeouts "/wifi" w' ≡ some t')
    × (set_technology_property timeouts all_well "/wifi" t' 2 type_boolean (flag false) w'
        ≡ (einval, w'))
second_set_refused_example =
    second_set_refused timeouts all_well all_well "/wifi" wifi 2 type_boolean type_boolean
      (flag true) (flag false) with_wifi wifi_known (omega arith) 9 refl first_set

stale_error_example :
    let w' = set_property_cb timeouts all_well "/wifi" 2 true (some true) with_wifi in
    (id : ℕ) × (id ≢ 0)
    × (find w'.loop id ≡ some (error_change "/wifi" 2))
    × (t' : Technology) × (get_technology timeouts "/wifi" (dispatch timeouts id w') ≡ some t')
    × (get_or t'.to_error 2 0 ≡ id)
    × (find (dispatch timeouts id w').loop id ≡ none)
stale_error_example =
    stale_error timeouts all_well "/wifi" 2 wifi with_wifi wifi_known (omega arith) (omega arith)
      refl refl refl

set_property_cb-pending_example :
    pending timeouts
      (set_property_cb timeouts all_well "/wifi" 2 true (some true) with_wifi)
      "/wifi"
      2
    ≡ none
set_property_cb-pending_example =
    set_property_cb-pending timeouts all_well "/wifi" 2 (some true) with_wifi
