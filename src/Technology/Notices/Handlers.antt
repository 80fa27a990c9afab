-- ===== src/Technology/Notices/Handlers.antt =====
-- The handlers of ConnMan's messages in lib/technology.c keep the book of the timeouts sound.
use connman_ui.Common.{
  ℕ, zero, suc, replicate, ◌≡◌, refl, ◌∙◌, ap, String, Bool, true, Option, none, some, List, [],
  ◌∷◌, ◌==◌, ltb, str_eq, eq_iff, if◌then◌else◌, get_or, is_ok, arith, if_either, Bool-cases, inl,
  inr,
}
use connman_ui.MainLoop.{MainLoop}
use connman_ui.Dbus.Libdbus.{Libdbus, null, type_string, type_array}
use connman_ui.Dbus.Walk.{while_valid, over, positions, over-positions}
use connman_ui.Dbus.Read.{basic_cell, basic_of, text_of_basic, get_basic, foreach_dict_entry}
use connman_ui.Dbus.Read.Laws.{foreach-keeps}
use connman_ui.Common.Table.{lookup, lookup-insert}
use connman_ui.Technology.State.{
  Technology, Callback, UserPointer, Interface, World, Answers, emit, add_watch, register_signals,
  get_technology, put_technology, new_technology, technology_max,
}
use connman_ui.Technology.Update.{
  update_field, notify_if_updatable, update_technology_property, property_changed_signal_cb,
  create_technology, update_or_create_technology,
}
use connman_ui.Technology.Access.{connman_technology_set_property_changed_callback}
use connman_ui.Technology.Life.{
  get_technologies_cb, technologies_pass, after_technologies, object_path,
}
use connman_ui.Technology.Notices.Slots.{slot, room, room_of, loop-put}
use connman_ui.Technology.Notices.Soundness.{IsSound}
use connman_ui.Technology.Notices.Keeps.{IsSound-same, put-IsSound, property_update-IsSound}

empty_slot : (i : ℕ) → get_or {A = ℕ} (replicate technology_max 0) i 0 ≡ 0
empty_slot zero = refl
empty_slot (suc zero) = refl
empty_slot (suc (suc zero)) = refl
empty_slot (suc (suc (suc zero))) = refl
empty_slot (suc (suc (suc (suc zero)))) = refl
empty_slot (suc (suc (suc (suc (suc i))))) = refl

module _ (lib : Libdbus) where
  open lib use {Iter, arg_type, recurse, next}

  to_update-update_field :
      (stray : Option String) (name : String) (arg : Iter) (t : Technology)
      → (update_field lib stray name arg t).to_update ≡ t.to_update
  unfolding update_field
  to_update-update_field stray name arg t = ground arith

  module _ (glib : MainLoop) where
    notify-IsSound :
        (memory : Bool) (path : String) (t : Technology) (w : World glib)
        → IsSound glib w
        → IsSound glib (notify_if_updatable lib glib memory path t w)
    unfolding notify_if_updatable
    notify-IsSound memory path t w h = elim (Bool-cases (ltb t.update_index technology_max)) [
      | inl e ↦ rw e (property_update-IsSound glib memory path t.update_index w (ground arith) h)
      | inr e ↦ rw e h
    ]

    update-IsSound :
        (answers : Answers) (path : String) (arg : Iter) (w : World glib)
        → IsSound glib w
        → IsSound glib (update_technology_property lib glib answers path arg w).1
    unfolding update_technology_property
    update-IsSound answers path arg w h = known (get_technology glib path w) refl
      where
        updated :
            (t : Technology)
            → get_technology glib path w ≡ some t
            → (n : String)
            → let t' = update_field lib answers.stray n (next arg) t in
              IsSound glib (
                notify_if_updatable lib glib answers.memory path t' (put_technology glib path t' w))
        updated t e n =
            let t' = update_field lib answers.stray n (next arg) t in
            notify-IsSound answers.memory path t' (put_technology glib path t' w) (
              put-IsSound glib path t t' w e (to_update-update_field answers.stray n (next arg) t)
                h)

        known :
            (o : Option Technology)
            → get_technology glib path w ≡ o
            → IsSound glib (update_technology_property lib glib answers path arg w).1
        known none e = rw (e, update_technology_property) h
        known (some t) e =
            let read = get_basic lib arg type_string (some (basic_cell null)) in
            rw (e, update_technology_property)
              (elim (Bool-cases (is_ok read.0)) [
                | inl good ↦ rw good (updated t e (text_of_basic (basic_of read.1)))
                | inr bad ↦ rw bad h
              ])

    -- A PropertyChanged signal keeps the book of the timeouts sound, whatever it carries.
    pub property_changed_signal_cb-IsSound :
        (answers : Answers) (path : String) (args : Option Iter) (w : World glib)
        → IsSound glib w
        → IsSound glib (property_changed_signal_cb lib glib answers path args w)
    unfolding property_changed_signal_cb
    property_changed_signal_cb-IsSound answers path none w h = h
    property_changed_signal_cb-IsSound answers path (some arg) w h =
        known (get_technology glib path w) refl
      where
        known :
            (o : Option Technology)
            → get_technology glib path w ≡ o
            → IsSound glib (property_changed_signal_cb lib glib answers path (some arg) w)
        known none e = rw (e, property_changed_signal_cb) h
        known (some t) e =
            let t' = record t { update_index = technology_max } in
            rw (e, property_changed_signal_cb)
              (update-IsSound answers path arg (put_technology glib path t' w)
                (put-IsSound glib path t t' w e refl h))

    get-put_new :
        (path j : String) (t : Technology) (w : World glib)
        → get_technology glib j (put_technology glib path t w) ≡ elim w.tech_if [
          | none ↦ none
          | some i ↦ if str_eq path j then some t else lookup j i.techs
        ]
    unfolding get_technology put_technology
    get-put_new path j t w = grind (arith, lookup-insert)

    -- A technology that is new has all its slots empty.
    put_new-IsSound :
        (path : String) (wid : ℕ) (w : World glib)
        → get_technology glib path w ≡ none
        → IsSound glib w
        → IsSound glib (put_technology glib path (new_technology wid) w)
    unfolding slot room get_technology
    put_new-IsSound path wid w e h =
        let new = new_technology wid in
        let same_slot : (j : String) (i : ℕ)
            → slot glib (put_technology glib path new w) j i ≡ slot glib w j i =
          λ j i. ground (arith, get-put_new path j new w, e, eq_iff path j, empty_slot i) in
        record {
          roomy = λ j. ground (arith, get-put_new path j new w, e, eq_iff path j, h.roomy j);
          attached = λ j i. ground (arith, same_slot j i, loop-put glib path new w, h.attached j i);
          recorded = λ id p.
              ground (arith, same_slot p.path p.index, loop-put glib path new w, h.recorded id p);
        }

    create-IsSound :
        (answers : Answers) (path : String) (w : World glib)
        → get_technology glib path w ≡ none
        → IsSound glib w
        → IsSound glib (create_technology lib glib answers path w)
    unfolding create_technology get_technology
    create-IsSound answers path w e h =
        put_new-IsSound path answers.watch (emit glib (add_watch path) w) e
          (IsSound-same glib (emit glib (add_watch path) w) w refl refl h)

    update_or_create-IsSound :
        (answers : Answers) (path : String) (dict : Iter) (w : World glib)
        → IsSound glib w
        → IsSound glib (update_or_create_technology lib glib answers path dict w)
    unfolding update_or_create_technology
    update_or_create-IsSound answers path dict w h = known w.tech_if refl
      where
        filled :
            (v : World glib)
            → IsSound glib v
            → IsSound glib
                (foreach_dict_entry lib (update_technology_property lib glib answers path) dict v).1
        filled v k =
            foreach-keeps lib (IsSound glib) (update_technology_property lib glib answers path)
              (update-IsSound answers path) dict v k

        known_table :
            (i : Interface) (o : Option Technology)
            → w.tech_if ≡ some i
            → lookup path i.techs ≡ o
            → IsSound glib (update_or_create_technology lib glib answers path dict w)
        known_table i (some t) e f = rw (e, update_or_create_technology) (rw f (filled w h))
        known_table i none e f =
            rw (e, update_or_create_technology)
              (rw f (
                if_either (IsSound glib) answers.memory _ w
                  (filled (create_technology lib glib answers path w)
                    (create-IsSound answers path w (unfold get_technology in rw e f) h))
                  h))

        known :
            (o : Option Interface)
            → w.tech_if ≡ o
            → IsSound glib (update_or_create_technology lib glib answers path dict w)
        known none e = rw (e, update_or_create_technology) h
        known (some i) e = known_table i (lookup path i.techs) e refl

    after-IsSound :
        (answers : Answers) (w : World glib)
        → IsSound glib w
        → IsSound glib (after_technologies glib lib answers w)
    unfolding after_technologies slot room get_technology
    after-IsSound answers w h = known w.tech_if refl
      where
        known :
            (o : Option Interface)
            → w.tech_if ≡ o
            → IsSound glib (after_technologies glib lib answers w)
        known none e = rw (e, after_technologies) h
        known (some i) e =
            let marked : World glib = record w {
              tech_if = some (record i { signals_set = true });
              effects = register_signals true ∷ w.effects;
            } in
            let alike : (path : String)
                → get_technology glib path marked ≡ get_technology glib path w =
              λ path. rw e in
            let marked_sound : IsSound glib marked = record {
              roomy = λ path. (ap room_of (alike path) ∙ h.roomy path);
              attached = λ path k. ground (arith, alike path, h.attached path k);
              recorded = λ id p. ground (arith, alike p.path, h.recorded id p);
            } in
            let registered : World glib = emit glib (register_signals true) w in
            let chosen =
              if_either (IsSound glib) (is_ok answers.registered) marked registered marked_sound
                (IsSound-same glib registered w refl refl h) in
            rw (e, after_technologies)
              (if_either (IsSound glib) i.signals_set w _ h
                (IsSound-same glib _ _ refl refl chosen))

    over-IsSound :
        (answers : Answers) (ps : List Iter) (w : World glib)
        → IsSound glib w
        → IsSound glib (
            over lib
              (technologies_pass glib lib answers)
              (after_technologies glib lib answers)
              ps
              w)
    unfolding over technologies_pass
    over-IsSound answers [] w h = after-IsSound answers w h
    over-IsSound answers (p ∷ ps) w h = over-IsSound answers ps _ (
        update_or_create-IsSound answers (object_path glib lib answers (recurse p))
          (next (recurse p)) w h)

    -- ConnMan's answer to GetTechnologies keeps the book of the timeouts sound, whatever it carries.
    pub get_technologies_cb-IsSound :
        (answers : Answers) (args : Option Iter) (w : World glib)
        → IsSound glib w
        → IsSound glib (get_technologies_cb glib lib answers args w)
    unfolding get_technologies_cb
    get_technologies_cb-IsSound answers none w h = h
    get_technologies_cb-IsSound answers (some arg) w h = known w.tech_if refl
      where
        walked : IsSound glib (
            while_valid lib
              (technologies_pass glib lib answers)
              (after_technologies glib lib answers)
              (recurse arg)
              w)
        walked =
            rw
              (over-positions lib (technologies_pass glib lib answers)
                (after_technologies glib lib answers))
              (over-IsSound answers (positions lib (recurse arg)) w h)

        known :
            (o : Option Interface)
            → w.tech_if ≡ o
            → IsSound glib (get_technologies_cb glib lib answers (some arg) w)
        known none e = rw (e, get_technologies_cb) h
        known (some i) e =
            rw (e, get_technologies_cb)
              (if_either (IsSound glib) (arg_type arg == type_array) _ w walked h)

-- Without technologies and timeouts the book is sound.
pub start-IsSound :
    (glib : MainLoop) (w : World glib)
    → ((path : String) → get_technology glib path w ≡ none)
    → ((id : ℕ) → glib.find w.loop id ≡ none)
    → IsSound glib w
unfolding slot room
start-IsSound glib w no_technology no_timeout = record {
  roomy = λ path. rw (no_technology path);
  attached = λ path i. ground (arith, no_technology path);
  recorded = λ id p. ground (arith, no_timeout id);
}

-- Setting the callback for changes keeps it sound.
pub set_changed_callback-IsSound :
    (glib : MainLoop) (path : String) (cb : Option Callback) (user : UserPointer) (w : World glib)
    → IsSound glib w
    → IsSound glib (connman_technology_set_property_changed_callback glib path cb user w)
unfolding connman_technology_set_property_changed_callback put_technology
set_changed_callback-IsSound glib path cb user w h = known (get_technology glib path w) refl
  where
    known :
        (o : Option Technology)
        → get_technology glib path w ≡ o
        → IsSound glib (connman_technology_set_property_changed_callback glib path cb user w)
    known none e = rw (e, connman_technology_set_property_changed_callback) h
    known (some t) e =
        rw (e, connman_technology_set_property_changed_callback)
          (put-IsSound glib path t
            (record t { property_changed_cb = cb; property_changed_user_data = user }) w e refl h)
