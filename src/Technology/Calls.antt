-- ===== src/Technology/Calls.antt =====
-- lib/technology.c: one SetProperty call at a time for a property, and what becomes of a failed one.
use connman_ui.Common.{
  ℕ, ◌<◌, ◌≡◌, ◌≢◌, refl, ◌∙◌, sym, String, true, none, some, ==_iff, eq_refl, get_or, set, length,
  is_set, arith, ok, einval,
}
use connman_ui.Common.Arrays.{get_or-set_self, get_or-set_ne}
use connman_ui.MainLoop.{MainLoop, PropertyChange}
use connman_ui.Dbus.Libdbus.{Basic}
use connman_ui.Dbus.Append.{append_value}
use connman_ui.Technology.State.{
  Technology, World, Answers, PendingCall, emit, get_technology, put_technology, send_call, Effect,
}
use connman_ui.Technology.Property.{property, destroy_property, dispatch, property_changed_or_error}
use connman_ui.Technology.Setting.{
  set_technology_property, set_property_cb, report_failure, store_error, error_change,
}
use connman_ui.Technology.Notices.Keeps.{get-same, property_changed_or_error_same}
use connman_ui.Technology.Notices.Slots.{get-put, loop-put, loop-destroy_property}

module _ (glib : MainLoop) where
  open glib use {find, add, remove, add_pos, add_fresh, find-add, find-remove}

  get-put_self :
      (path : String) (t t' : Technology) (w : World glib)
      → get_technology glib path w ≡ some t
      → get_technology glib path (put_technology glib path t' w) ≡ some t'
  get-put_self path t t' w e = get-put glib path path t t' w e ∙ rw (eq_refl path)

  get-effects :
      (path : String) (e : Effect) (w : World glib)
      → get_technology glib path (emit glib e w) ≡ get_technology glib path w
  unfolding get_technology
  get-effects path e w = refl

  -- What a request that succeeds does.
  set_ok :
      (answers : Answers) (path : String) (t : Technology) (index type : ℕ) (v : Basic)
      (w : World glib)
      → (set_technology_property glib answers path t index type v w).0 ≡ ok
      → (set_technology_property glib answers path t index type v w).1
        ≡ put_technology glib path
            (record t { call_modify = set t.call_modify index answers.call })
            (emit glib
              (send_call path "SetProperty" (append_value 0 (some (property index)) type v))
              w)
  unfolding set_technology_property
  set_ok answers path t index type v w o = ground arith

  set_busy :
      (answers : Answers) (path : String) (t : Technology) (index type : ℕ) (v : Basic)
      (w : World glib)
      → is_set (get_or t.call_modify index none) ≡ true
      → set_technology_property glib answers path t index type v w ≡ (einval, w)
  unfolding set_technology_property
  set_busy answers path t index type v w o = ground arith

  module _ (answers again : Answers) (path : String) (t : Technology) (index t1 t2 : ℕ)
      (v1 v2 : Basic) (w : World glib) (found : get_technology glib path w ≡ some t)
      (small : index < length t.call_modify) where
    -- After a request to change a property that succeeded, with a call that waits for ConnMan's answer, a
    -- second request for the same property is refused with -EINVAL, sends nothing and changes nothing.
    pub second_set_refused :
        (c : PendingCall)
        → answers.call ≡ some c
        → (set_technology_property glib answers path t index t1 v1 w).0 ≡ ok
        → let w' = (set_technology_property glib answers path t index t1 v1 w).1 in
          (t' : Technology) × (get_technology glib path w' ≡ some t')
          × (set_technology_property glib again path t' index t2 v2 w' ≡ (einval, w'))
    second_set_refused c e o =
        let t' = record t { call_modify = set t.call_modify index answers.call } in
        let sent : Effect =
          send_call path "SetProperty" (append_value 0 (some (property index)) t1 v1) in
        let busy : is_set (get_or t'.call_modify index none) ≡ true =
          rw (get_or-set_self t.call_modify index answers.call none small) (rw e) in
        (
          t',
          rw (set_ok answers path t index t1 v1 w o)
              (get-put_self path t t' (emit glib sent w) (get-effects path sent w ∙ found)),
          set_busy again path t' index t2 v2 _ busy,
        )

  -- A failed change of a property other than the first.
  module _ (answers : Answers) (path : String) (index : ℕ) (t : Technology) (w : World glib)
      (found : get_technology glib path w ≡ some t) (small : index < length t.to_error)
      (other : index ≢ 0) (memory : answers.memory ≡ true)
      (listens : is_set t.property_set_error_cb ≡ true) (idle : get_or t.to_error index 0 ≡ 0) where
    cleared : Technology
    cleared = record t { call_modify = set t.call_modify index none }

    abbrev before : World glib
    before = put_technology glib path cleared w

    abbrev change : PropertyChange
    change = error_change path index

    abbrev timeout : ℕ
    timeout = (add before.loop change).0

    reported_t : Technology
    unfolding cleared
    reported_t = record cleared { to_error = set t.to_error index timeout }

    abbrev reported : World glib
    reported =
        put_technology glib path reported_t (record before { loop = (add before.loop change).1 })

    before_known :
        get_technology glib path (record before { loop = (add before.loop change).1 })
        ≡ some cleared
    unfolding get_technology
    before_known = get-put_self path t cleared w found

    failure_reported : report_failure glib path cleared index before ≡ reported
    unfolding report_failure cleared reported_t
    failure_reported = rw idle (rw (before_known, store_error))

    set_property_cb_lem : set_property_cb glib answers path index true (some true) w ≡ reported
    unfolding cleared set_property_cb put_technology
    set_property_cb_lem = rw (found, set_property_cb) (rw listens (rw memory failure_reported))

    abbrev after_error : World glib
    after_error = property_changed_or_error glib change reported

    abbrev taken_off : World glib
    taken_off = record after_error { loop = remove after_error.loop timeout }

    last_t : Technology
    unfolding reported_t
    last_t = record reported_t { to_error = set (set t.to_error index timeout) 0 0 }

    there : find reported.loop timeout ≡ some change
    there =
        rw (loop-put glib path reported_t (record before { loop = (add before.loop change).1 }))
          (find-add before.loop change timeout ∙ rw ((==_iff timeout timeout).1 refl))

    taken_off_known : get_technology glib path taken_off ≡ some reported_t
    taken_off_known =
        get-same glib taken_off reported path
          (property_changed_or_error_same glib change reported).0
        ∙ get-put_self path cleared reported_t (record before { loop = (add before.loop change).1 })
            before_known

    destroyed : destroy_property glib change taken_off ≡ put_technology glib path last_t taken_off
    unfolding last_t reported_t destroy_property put_technology
    destroyed = rw (taken_off_known, destroy_property)

    dispatched : dispatch glib timeout reported ≡ destroy_property glib change taken_off
    unfolding dispatch
    dispatched = rw (there, dispatch)

    kept : get_or last_t.to_error index 0 ≡ timeout
    unfolding last_t
    kept =
        get_or-set_ne (set t.to_error index timeout) 0 index 0 0 (λ p. other (sym p))
        ∙ get_or-set_self t.to_error index timeout 0 small

    loop_gone : find (destroy_property glib change taken_off).loop timeout ≡ none
    loop_gone =
        rw (loop-destroy_property glib change taken_off)
          (find-remove after_error.loop timeout timeout ∙ rw ((==_iff timeout timeout).1 refl))

    -- The failure of a change of any property but the first (`Powered`) leaves a stale identifier behind: after
    -- the answer and after the timeout that it starts has called the user interface, the slot of the
    -- property in `to_error` still names that timeout, which is no longer attached.
    pub stale_error :
        let w' = set_property_cb glib answers path index true (some true) w in
        (id : ℕ) × (id ≢ 0)
        × (find w'.loop id ≡ some (error_change path index))
        × (t' : Technology) × (get_technology glib path (dispatch glib id w') ≡ some t')
        × (get_or t'.to_error index 0 ≡ id)
        × (find (dispatch glib id w').loop id ≡ none)
    stale_error =
        let same_world = set_property_cb_lem in
        (
          timeout,
          omega (arith, add_pos before.loop change),
          rw same_world there,
          last_t,
          rw same_world (
              rw dispatched
                (rw destroyed (get-put_self path reported_t last_t taken_off taken_off_known))),
          kept,
          rw same_world (rw dispatched (loop_gone)),
        )
