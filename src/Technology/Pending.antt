-- ===== src/Technology/Pending.antt =====
-- The calls that lib/technology.c has out, through the answer of ConnMan to SetProperty.
use connman_ui.Common.{
  ℕ, ◌≡◌, refl, ◌∙◌, String, Bool, true, Option, none, some, ◌==◌, eq_iff, eq_refl, get_or, set,
  arith, Bool-cases, inl, inr,
}
use connman_ui.Common.Arrays.{get_or-set_default}
use connman_ui.MainLoop.{MainLoop, PropertyChange}
use connman_ui.Technology.State.{
  Technology, World, Answers, PendingCall, get_technology, put_technology,
}
use connman_ui.Technology.Property.{destroy_property, source_remove, source_remove_if_set}
use connman_ui.Technology.Setting.{set_property_cb, report_failure, store_error, error_change}
use connman_ui.Technology.Notices.Slots.{get-put}

-- The call that waits for the answer to the last request for a property.
abbrev call_of : Option Technology → ℕ → Option PendingCall
call_of none i = none
call_of (some t) i = get_or t.call_modify i none

module _ (glib : MainLoop) where
  open glib use {Loop, find, add, remove}

  unfoldable pub pending : World glib → String → ℕ → Option PendingCall
  pending w path i = call_of (get_technology glib path w) i

  pending-loop :
      (w : World glib) (loop : Loop) (path : String) (i : ℕ)
      → pending (record w { loop = loop }) path i ≡ pending w path i
  unfolding pending get_technology
  pending-loop w loop path i = refl

  pending-destroy_property :
      (p : PropertyChange) (w : World glib) (path : String) (i : ℕ)
      → pending (destroy_property glib p w) path i ≡ pending w path i
  unfolding pending destroy_property
  pending-destroy_property p w path i = known (get_technology glib p.path w) refl
    where
      known :
          (o : Option Technology)
          → get_technology glib p.path w ≡ o
          → pending (destroy_property glib p w) path i ≡ pending w path i
      known none e = rw (e, destroy_property) refl
      known (some t) e =
          rw (e, destroy_property)
            (ground (
              arith,
              e,
              eq_iff p.path path,
              get-put glib p.path path t (record t { to_update = set t.to_update p.index 0 }) w e,
              get-put glib p.path path t (record t { to_error = set t.to_error p.index 0 }) w e,
            ))

  pending-source_remove :
      (id : ℕ) (w : World glib) (path : String) (i : ℕ)
      → pending (source_remove_if_set glib id w) path i ≡ pending w path i
  unfolding source_remove pending get_technology
  pending-source_remove id w path i = elim (Bool-cases (id == 0)) [
    | inl e ↦ rw e
    | inr e ↦ rw e (known (find w.loop id) refl)
  ]
    where
      known :
          (o : Option PropertyChange)
          → find w.loop id ≡ o
          → pending (source_remove glib id w) path i ≡ pending w path i
      known none e = rw (e, source_remove) refl
      known (some p) e =
          rw (e, source_remove)
            (pending-destroy_property p (record w { loop = remove w.loop id }) path i
              ∙ pending-loop w (remove w.loop id) path i)

  pending-store_error :
      (path : String) (index id : ℕ) (loop : Loop) (w : World glib) (i : ℕ)
      → pending (store_error glib path index (id, loop) w) path i ≡ pending w path i
  unfolding store_error pending
  pending-store_error path index id loop w i =
      known (get_technology glib path (record w { loop = loop })) refl ∙ pending-loop w loop path i
    where
      known :
          (o : Option Technology)
          → get_technology glib path (record w { loop = loop }) ≡ o
          → pending (store_error glib path index (id, loop) w) path i
            ≡ pending (record w { loop = loop }) path i
      known none e = rw (e, store_error) (rw e)
      known (some t) e =
          rw (e, store_error)
            (ground (
              arith,
              e,
              eq_refl path,
              get-put glib path path t (record t { to_error = set t.to_error index id })
                  (record w { loop = loop }) e,
            ))

  pending-report_failure :
      (path : String) (t : Technology) (index : ℕ) (w : World glib) (i : ℕ)
      → pending (report_failure glib path t index w) path i ≡ pending w path i
  unfolding report_failure
  pending-report_failure path t index w i =
      let w' = source_remove_if_set glib (get_or t.to_error index 0) w in
      let (id, loop) = add w'.loop (error_change path index) in
      pending-store_error path index id loop w' i
      ∙ pending-source_remove (get_or t.to_error index 0) w path i

  -- The completed answer of ConnMan to SetProperty, whether it is an error, none or missing, and
  -- whether the user interface listens or not, leaves no call that waits for the property.
  pub set_property_cb-pending :
      (answers : Answers) (path : String) (index : ℕ) (reply : Option Bool) (w : World glib)
      → pending (set_property_cb glib answers path index true reply w) path index ≡ none
  unfolding set_property_cb pending
  set_property_cb-pending answers path index reply w = known (get_technology glib path w) refl
    where
      freed :
          (t : Technology)
          → get_technology glib path w ≡ some t
          → pending
              (put_technology glib path (record t { call_modify = set t.call_modify index none }) w)
              path
              index
            ≡ none
      freed t e =
          rw
            (get-put glib path path t (record t { call_modify = set t.call_modify index none }) w e)
            (rw (eq_refl path) (get_or-set_default t.call_modify index none))

      known :
          (o : Option Technology)
          → get_technology glib path w ≡ o
          → pending (set_property_cb glib answers path index true reply w) path index ≡ none
      known none e = rw (e, set_property_cb) (rw e)
      known (some t) e =
          let t' = record t { call_modify = set t.call_modify index none } in
          let w' = put_technology glib path t' w in
          rw (e, set_property_cb)
            (ground (arith, freed t e, pending-report_failure path t' index w' index))
