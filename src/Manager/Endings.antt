-- ===== src/Manager/Endings.antt =====
-- The manager of lib/manager.c outlives its timeouts, through any order of its steps.
use connman_ui.Common.{
  ℕ, ◌<◌, ◌≡◌, refl, ◌∙◌, ap, sym, if_either, Ret, ok, einval, enomem, String, Bool, true, Option,
  none, some, List, [], ◌∷◌, ◌==◌, if◌then◌else◌, length, get_or, arith, zero, suc,
}
use connman_ui.MainLoop.{MainLoop, PropertyChange}
use connman_ui.Dbus.Libdbus.{Libdbus}
use connman_ui.Manager.State.{
  Manager, World, Answers, emit, new_manager, ref_connection, send_call, add_watch, Callback,
  UserPointer, PendingCall,
}
use connman_ui.Manager.Requests.{
  get_technologies_callback, get_services_callback, technology_added_signal_cb,
  technology_removed_signal_cb, services_changed_signal_cb, connman_manager_get_technologies,
  connman_manager_get_services, connman_manager_register_technology_signals,
  connman_manager_register_service_signal,
}
use connman_ui.Manager.Life.{
  remove_sources, connman_manager_init, connman_manager_finalize, connman_manager_set_offlinemode,
  connman_manager_register_agent, connman_manager_unregister_agent,
}
use connman_ui.Manager.Run.{
  Event, init, finalize, turn, properties_answered, technologies_answered, services_answered,
  property_changed, technology_added, technology_removed, services_changed, get_technologies,
  get_services, register_service, register_technology, set_offlinemode, register_agent,
  unregister_agent, step, run,
}
use connman_ui.Manager.Timeouts.{
  sources, among, IsTracked, IsTracked-same, dispatch-IsTracked, find-remove_sources, none_tracked,
}
use connman_ui.Manager.Tracking.{
  get_properties-IsTracked, property_changed-IsTracked, same-IsTracked,
}

among-get_or : (l : List ℕ) (i j : ℕ) → i < length l → get_or l i 0 ≡ j → among j l ≡ true
among-get_or [] i j h e = absurd (omega arith)
among-get_or (k ∷ l) zero j h e = ground arith
among-get_or (k ∷ l) (suc i) j h e = ground (arith, among-get_or l i j)

module _ (glib : MainLoop) (lib : Libdbus) where
  open glib use {find, find_zero}

  -- The requests and the hand-ons touch neither the slots nor the main loop.
  requests_same :
      (answers : Answers) (cb cb' : Option Callback) (w : World glib lib)
      → ((sources (connman_manager_get_technologies glib lib answers cb w).1.manager
            ≡ sources w.manager)
          × ((connman_manager_get_technologies glib lib answers cb w).1.loop ≡ w.loop))
        × ((sources (connman_manager_get_services glib lib answers cb w).1.manager
              ≡ sources w.manager)
            × ((connman_manager_get_services glib lib answers cb w).1.loop ≡ w.loop))
        × ((sources (connman_manager_register_service_signal glib lib answers cb w).1.manager
              ≡ sources w.manager)
            × ((connman_manager_register_service_signal glib lib answers cb w).1.loop ≡ w.loop))
        × ((sources
                (connman_manager_register_technology_signals glib lib answers cb cb' w).1.manager
              ≡ sources w.manager)
            × ((connman_manager_register_technology_signals glib lib answers cb cb' w).1.loop
                ≡ w.loop))
  unfolding connman_manager_get_technologies connman_manager_get_services
      connman_manager_register_service_signal connman_manager_register_technology_signals
  requests_same answers cb cb' w = (ground arith, ground arith, ground arith, ground arith)

  hand_ons_same :
      (pending : PendingCall) (completed : Bool) (args : Option lib.Iter) (w : World glib lib)
      → ((sources (get_technologies_callback glib lib pending completed args w).manager
            ≡ sources w.manager)
          × ((get_technologies_callback glib lib pending completed args w).loop ≡ w.loop))
        × ((sources (get_services_callback glib lib pending completed args w).manager
              ≡ sources w.manager)
            × ((get_services_callback glib lib pending completed args w).loop ≡ w.loop))
  unfolding get_technologies_callback get_services_callback
  hand_ons_same pending completed args w = (ground arith, ground arith)

  signals_same :
      (args : Option lib.Iter) (w : World glib lib)
      → ((sources (technology_added_signal_cb glib lib args w).manager ≡ sources w.manager)
          × ((technology_added_signal_cb glib lib args w).loop ≡ w.loop))
        × ((sources (technology_removed_signal_cb glib lib args w).manager ≡ sources w.manager)
            × ((technology_removed_signal_cb glib lib args w).loop ≡ w.loop))
        × ((sources (services_changed_signal_cb glib lib args w).manager ≡ sources w.manager)
            × ((services_changed_signal_cb glib lib args w).loop ≡ w.loop))
  unfolding technology_added_signal_cb technology_removed_signal_cb services_changed_signal_cb
  signals_same none w = (ground arith, ground arith, ground arith)
  signals_same (some arg) w = (ground arith, ground arith, ground arith)

  messages_same :
      (answers : Answers) (mode : Bool) (path : String) (w : World glib lib)
      → ((sources (connman_manager_set_offlinemode glib lib answers mode w).1.manager
            ≡ sources w.manager)
          × ((connman_manager_set_offlinemode glib lib answers mode w).1.loop ≡ w.loop))
        × ((sources (connman_manager_register_agent glib lib answers path w).manager
              ≡ sources w.manager)
            × ((connman_manager_register_agent glib lib answers path w).loop ≡ w.loop))
        × ((sources (connman_manager_unregister_agent glib lib answers path w).manager
              ≡ sources w.manager)
            × ((connman_manager_unregister_agent glib lib answers path w).loop ≡ w.loop))
  unfolding connman_manager_set_offlinemode connman_manager_register_agent
      connman_manager_unregister_agent
  messages_same answers mode path w = (ground arith, ground arith, ground arith)

  finalize-loop :
      (w : World glib lib) (m : Manager)
      → w.manager ≡ some m
      → (connman_manager_finalize glib lib w).loop
        ≡ (remove_sources glib lib m.source
            (record w { manager = some (record m { property_changed_cb = none }) })).loop
  unfolding connman_manager_finalize
  finalize-loop w m e = ground (arith, e)

  -- Finalizing the manager, while each timeout stands in its slot, leaves no timeout attached.
  finalize_detaches :
      (w : World glib lib) (id : ℕ)
      → IsTracked glib lib w
      → find (connman_manager_finalize glib lib w).loop id ≡ none
  unfolding connman_manager_finalize
  finalize_detaches w id h = known w.manager refl (find w.loop id) refl
    where
      silent : Manager → World glib lib
      silent m = record w { manager = some (record m { property_changed_cb = none }) }

      known :
          (o : Option Manager)
          → w.manager ≡ o
          → (q : Option PropertyChange) → find w.loop id ≡ q
          → find (connman_manager_finalize glib lib w).loop id ≡ none
      known none e q f = rw (e, connman_manager_finalize) (none_tracked glib lib w id e h)
      known (some m) e none f =
          rw (finalize-loop w m e)
            (find-remove_sources glib lib m.source id (silent m) ∙ ground (arith, f))
      known (some m) e (some p) f = rw (finalize-loop w m e) (
          find-remove_sources glib lib m.source id (silent m)
          ∙ ground (arith, e, h.roomy, h.tracked id p f, among-get_or m.source p.index id))

  finalize-IsTracked :
      (w : World glib lib)
      → IsTracked glib lib w
      → IsTracked glib lib (connman_manager_finalize glib lib w)
  unfolding connman_manager_finalize
  finalize-IsTracked w h = record {
    roomy = ground (arith, h.roomy);
    tracked = λ id p e. absurd (cc (e, finalize_detaches w id h));
  }

  -- A manager with free slots, where there was none.
  made-IsTracked :
      (w w' : World glib lib)
      → w.manager ≡ none
      → sources w'.manager ≡ 0 ∷ 0 ∷ []
      → w'.loop ≡ w.loop
      → IsTracked glib lib w
      → IsTracked glib lib w'
  made-IsTracked w w' e f g h = IsTracked-same glib lib w w' (f ∙ ap sources (sym e)) g h

  init-IsTracked :
      (answers : Answers) (cb : Option Callback) (user_data : UserPointer) (w : World glib lib)
      → IsTracked glib lib w
      → IsTracked glib lib (connman_manager_init glib lib answers cb user_data w).1
  unfolding connman_manager_init
  init-IsTracked answers cb user_data w h = known w.manager refl
    where
      result : Ret × World glib lib → Type 0
      result r = IsTracked glib lib r.1

      known :
          (o : Option Manager)
          → w.manager ≡ o
          → IsTracked glib lib (connman_manager_init glib lib answers cb user_data w).1
      known (some m) e =
          let v : World glib lib = record w { manager = some m } in
          let h' = IsTracked-same glib lib w v (ap sources (sym e)) refl h in
          rw (e, connman_manager_init) (if_either result w.connman (ok, w) (einval, v) h h')
      known none e =
          let m : Manager = record new_manager { property_changed_cb = cb } in
          let made : World glib lib =
            emit glib lib ref_connection (record w { manager = some m }) in
          let called : Manager = record m { get_properties_call = answers.call } in
          let sent : World glib lib =
            emit glib lib (send_call "GetProperties" answers.call)
              (record made { manager = some called }) in
          let watching : World glib lib =
            emit glib lib (add_watch "PropertyChanged" answers.watch) (record sent {
              manager = some (record called {
                property_changed_wid = answers.watch;
                property_user_data = user_data;
              });
            }) in
          let none_made : World glib lib = record w { manager = none } in
          let undone = finalize-IsTracked made (made-IsTracked w made e refl refl h) in
          let unsent = finalize-IsTracked sent (made-IsTracked w sent e refl refl h) in
          let done = made-IsTracked w watching e refl refl h in
          let same = made-IsTracked w none_made e refl refl h in
          let failed : Ret × World glib lib = (einval, connman_manager_finalize glib lib sent) in
          let early = connman_manager_finalize glib lib made in
          let watched = if answers.watch == 0 then failed else (ok, watching) in
          let notified = if answers.notified then watched else failed in
          let called' = if answers.sent then notified else (einval, early) in
          let messaged = if answers.message then called' else (enomem, early) in
          let remembered = if answers.memory then messaged else (enomem, w) in
          rw (e, connman_manager_init)
            (if_either result w.connman remembered (einval, none_made)
              (if_either result answers.memory messaged (enomem, w)
                (if_either result answers.message called' (enomem, early)
                  (if_either result answers.sent notified (einval, early)
                    (if_either result answers.notified watched failed
                      (if_either result (answers.watch == 0) failed (ok, watching) unsent done)
                      unsent)
                    undone)
                  undone)
                h)
              same)

  -- In any step the timeouts stay known.
  step-IsTracked :
      (e : Event lib.Iter) (w : World glib lib)
      → IsTracked glib lib w
      → IsTracked glib lib (step glib lib e w)
  unfolding step
  step-IsTracked (init answers cb user_data) w h = init-IsTracked answers cb user_data w h
  step-IsTracked finalize w h = finalize-IsTracked w h
  step-IsTracked (turn id) w h = dispatch-IsTracked glib lib id w h
  step-IsTracked (properties_answered answers pending completed reply) w h =
      get_properties-IsTracked glib lib answers pending completed reply w h
  step-IsTracked (technologies_answered pending completed reply) w h =
      same-IsTracked glib lib w _ (hand_ons_same pending completed reply w).0 h
  step-IsTracked (services_answered pending completed reply) w h =
      same-IsTracked glib lib w _ (hand_ons_same pending completed reply w).1 h
  step-IsTracked (property_changed answers args) w h =
      property_changed-IsTracked glib lib answers args w h
  step-IsTracked (technology_added args) w h = same-IsTracked glib lib w _ (signals_same args w).0 h
  step-IsTracked (technology_removed args) w h =
      same-IsTracked glib lib w _ (signals_same args w).1 h
  step-IsTracked (services_changed args) w h = same-IsTracked glib lib w _ (signals_same args w).2 h
  step-IsTracked (get_technologies answers cb) w h =
      same-IsTracked glib lib w _ (requests_same answers cb none w).0 h
  step-IsTracked (get_services answers cb) w h =
      same-IsTracked glib lib w _ (requests_same answers cb none w).1 h
  step-IsTracked (register_service answers cb) w h =
      same-IsTracked glib lib w _ (requests_same answers cb none w).2 h
  step-IsTracked (register_technology answers added removed) w h =
      same-IsTracked glib lib w _ (requests_same answers added removed w).3 h
  step-IsTracked (set_offlinemode answers mode) w h =
      same-IsTracked glib lib w _ (messages_same answers mode "" w).0 h
  step-IsTracked (register_agent answers path) w h =
      same-IsTracked glib lib w _ (messages_same answers true path w).1 h
  step-IsTracked (unregister_agent answers path) w h =
      same-IsTracked glib lib w _ (messages_same answers true path w).2 h

  run-IsTracked :
      (es : List (Event lib.Iter)) (w : World glib lib)
      → IsTracked glib lib w
      → IsTracked glib lib (run glib lib es w)
  unfolding run
  run-IsTracked [] w h = h
  run-IsTracked (e ∷ es) w h = run-IsTracked es (step glib lib e w) (step-IsTracked e w h)

  -- From the start, with no manager and no timeout, through any calls, answers, signals and turns of the
  -- main loop: when the manager is finalized, no timeout of its is left on the main loop.
  pub run_finalize_detaches :
      (es : List (Event lib.Iter)) (w : World glib lib) (id : ℕ)
      → w.manager ≡ none
      → ((j : ℕ) → find w.loop j ≡ none)
      → find (connman_manager_finalize glib lib (run glib lib es w)).loop id ≡ none
  run_finalize_detaches es w id e free = finalize_detaches (run glib lib es w) id (
      run-IsTracked es w
        (record { roomy = ground (arith, e); tracked = λ j p f. absurd (cc (free j, f)) }))

  -- From the start, with no manager and no timeout, through any calls, answers, signals and turns of the
  -- main loop: two attached timeouts for the same property are one.
  pub run_one_timeout :
      (es : List (Event lib.Iter)) (w : World glib lib) (id id' : ℕ) (p p' : PropertyChange)
      → w.manager ≡ none
      → ((j : ℕ) → find w.loop j ≡ none)
      → find (run glib lib es w).loop id ≡ some p
      → find (run glib lib es w).loop id' ≡ some p'
      → p.index ≡ p'.index
      → id ≡ id'
  run_one_timeout es w id id' p p' e free f f' same =
      let h =
        run-IsTracked es w
          (record { roomy = ground (arith, e); tracked = λ j q k. absurd (cc (free j, k)) }) in
      cc (same, (h.tracked id p f).1, (h.tracked id' p' f').1)
