-- ===== src/Manager/Requests.antt =====
-- lib/manager.c: what lib/technology.c and lib/service.c ask of it, and how it hands ConnMan's
-- answers and signals on to them.
use connman_ui.Common.{
  ℕ, String, Bool, ◌||◌, Option, none, some, ◌==◌, if◌then◌else◌, is_set, Ret, ok, einval, enomem,
}
use connman_ui.MainLoop.{MainLoop}
use connman_ui.Dbus.Libdbus.{Libdbus}
use connman_ui.Manager.State.{
  Manager, World, Answers, emit, Callback, PendingCall, null_dereference, hand_on, unref_call,
  cancel_call, send_call, add_watch, remove_watch,
}

module _ (glib : MainLoop) (lib : Libdbus) where
  open lib use {Iter}

  abbrev pub drop_call : Option PendingCall → World glib lib → World glib lib
  drop_call none w = w
  drop_call (some c) w = emit glib lib (unref_call c) (emit glib lib (cancel_call c) w)

  abbrev pub remove_watch_if_set : ℕ → World glib lib → World glib lib
  remove_watch_if_set wid w = if wid == 0 then w else emit glib lib (remove_watch wid) w

  -- `if (callback != NULL) callback(&arg)`
  abbrev pub call_back : Option Callback → Iter → World glib lib → World glib lib
  call_back none arg w = w
  call_back (some cb) arg w = emit glib lib (hand_on cb arg) w

  -- The answers of ConnMan to GetTechnologies and GetServices. `completed` is
  -- dbus_pending_call_get_completed, `reply` the iterator of the answer, none for a NULL answer or one
  -- with no arguments.
  unfoldable pub get_technologies_callback :
      PendingCall → Bool → Option Iter → World glib lib → World glib lib
  get_technologies_callback pending completed reply w =
      if completed
      then elim w.manager [
        | none ↦ emit glib lib null_dereference w
        | some m ↦
            let w' : World glib lib = record w {
              manager =
                  some (record m { get_technologies_call = none; get_technologies_cb = none });
            } in
            emit glib lib (unref_call pending)
              (elim reply [ none ↦ w' | some arg ↦ call_back m.get_technologies_cb arg w' ])
      ]
      else w

  unfoldable pub get_services_callback :
      PendingCall → Bool → Option Iter → World glib lib → World glib lib
  get_services_callback pending completed reply w =
      if completed
      then elim w.manager [
        | none ↦ emit glib lib null_dereference w
        | some m ↦
            let w' : World glib lib = record w {
              manager = some (record m { get_services_call = none; get_services_cb = none });
            } in
            emit glib lib (unref_call pending)
              (elim reply [ none ↦ w' | some arg ↦ call_back m.get_services_cb arg w' ])
      ]
      else w

  -- The handlers of three signals of ConnMan; they always return TRUE.
  unfoldable pub technology_added_signal_cb : Option Iter → World glib lib → World glib lib
  technology_added_signal_cb none w = w
  technology_added_signal_cb (some arg) w = elim w.manager [
    | none ↦ emit glib lib null_dereference w
    | some m ↦ call_back m.technology_added_cb arg w
  ]

  unfoldable pub technology_removed_signal_cb : Option Iter → World glib lib → World glib lib
  technology_removed_signal_cb none w = w
  technology_removed_signal_cb (some arg) w = elim w.manager [
    | none ↦ emit glib lib null_dereference w
    | some m ↦ call_back m.technology_removed_cb arg w
  ]

  unfoldable pub services_changed_signal_cb : Option Iter → World glib lib → World glib lib
  services_changed_signal_cb none w = w
  services_changed_signal_cb (some arg) w = elim w.manager [
    | none ↦ emit glib lib null_dereference w
    | some m ↦ call_back m.services_changed_cb arg w
  ]

  unfoldable pub connman_manager_get_technologies :
      Answers → Option Callback → World glib lib → Ret × World glib lib
  connman_manager_get_technologies answers cb w = elim w.manager [
    | none ↦ (einval, w)
    | some m ↦
        let idle : Manager = record m {
          get_technologies_call = none;
          get_technologies_cb = none;
        } in
        let w' : World glib lib = record (drop_call m.get_technologies_call w) {
          manager = some idle;
        } in
        let waiting : World glib lib = record w' {
          manager = some (record idle { get_technologies_cb = cb });
        } in
        let sent : World glib lib =
          emit glib lib (send_call "GetTechnologies" answers.call) (record waiting {
            manager =
                some
                  (record idle { get_technologies_call = answers.call; get_technologies_cb = cb });
          }) in
        if is_set cb
        then (if answers.message
            then (if answers.sent
                then (if answers.notified then (ok, sent) else (einval, sent))
                else (einval, waiting))
            else (enomem, w'))
        else (ok, w')
  ]

  unfoldable pub connman_manager_get_services :
      Answers → Option Callback → World glib lib → Ret × World glib lib
  connman_manager_get_services answers cb w = elim w.manager [
    | none ↦ (einval, w)
    | some m ↦
        let idle : Manager = record m { get_services_call = none; get_services_cb = none } in
        let w' : World glib lib = record (drop_call m.get_services_call w) {
          manager = some idle;
        } in
        let waiting : World glib lib = record w' {
          manager = some (record idle { get_services_cb = cb });
        } in
        let sent : World glib lib =
          emit glib lib (send_call "GetServices" answers.call) (record waiting {
            manager = some (record idle { get_services_call = answers.call; get_services_cb = cb });
          }) in
        if is_set cb
        then (if answers.message
            then (if answers.sent
                then (if answers.notified then (ok, sent) else (einval, sent))
                else (einval, waiting))
            else (enomem, w'))
        else (ok, w')
  ]

  -- g_dbus_add_signal_watch, which gives 0 if it fails.
  abbrev pub watched : String → ℕ → World glib lib → World glib lib
  watched member wid w = if wid == 0 then w else emit glib lib (add_watch member wid) w

  unfoldable pub connman_manager_register_technology_signals :
      Answers → Option Callback → Option Callback → World glib lib → Ret × World glib lib
  connman_manager_register_technology_signals answers added_cb removed_cb w = elim w.manager [
    | none ↦ (einval, w)
    | some m ↦
        let off : Manager = record m {
          technology_added_wid = 0;
          technology_removed_wid = 0;
          technology_added_cb = none;
          technology_removed_cb = none;
        } in
        let w' : World glib lib =
          record (remove_watch_if_set m.technology_removed_wid
            (remove_watch_if_set m.technology_added_wid w)) { manager = some off } in
        let added = watched "TechnologyAdded" answers.watch w' in
        let both : World glib lib =
          record (watched "TechnologyRemoved" answers.second_watch added) {
            manager = some (record off {
              technology_added_wid = answers.watch;
              technology_removed_wid = answers.second_watch;
              technology_added_cb = added_cb;
              technology_removed_cb = removed_cb;
            });
          } in
        if is_set added_cb || is_set removed_cb
        then (if answers.watch == 0
            then (einval, w')
            else if answers.second_watch == 0
            then (einval, emit glib lib (remove_watch answers.watch) added)
            else (ok, both))
        else (ok, w')
  ]

  unfoldable pub connman_manager_register_service_signal :
      Answers → Option Callback → World glib lib → Ret × World glib lib
  connman_manager_register_service_signal answers cb w = elim w.manager [
    | none ↦ (einval, w)
    | some m ↦
        let off : Manager = record m { services_changed_wid = 0; services_changed_cb = none } in
        let w' : World glib lib = record (remove_watch_if_set m.services_changed_wid w) {
          manager = some off;
        } in
        if is_set cb
        then (if answers.watch == 0 then (einval, w') else (
          ok,
          emit glib lib (add_watch "ServicesChanged" answers.watch) (record w' {
            manager =
                some
                  (record off { services_changed_wid = answers.watch; services_changed_cb = cb });
          }),
        ))
        else (ok, w')
  ]
