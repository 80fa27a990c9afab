-- ===== src/Technology/Notices/Keeps.antt =====
-- Every step of lib/technology.c on its timeouts keeps the book sound.
use connman_ui.Common.{
  ℕ, ◌<◌, ◌≡◌, refl, ◌∙◌, ap, String, Bool, true, false, Option, none, some, ◌==◌, str_eq, eq_iff,
  ==_iff, eq_refl, if◌then◌else◌, get_or, set, arith, Bool-cases, inl, inr,
}
use connman_ui.MainLoop.{MainLoop, PropertyChange}
use connman_ui.Technology.State.{Technology, World, get_technology, put_technology, technology_max}
use connman_ui.Technology.Property.{
  destroy_property, source_remove, source_remove_if_set, dispatch, property_changed_or_error,
  property_update, update_change,
}
use connman_ui.Technology.Notices.Slots.{
  slot, room, slot_of, room_of, get-put, loop-put, slot-destroy_property,
}
use connman_ui.Technology.Notices.Soundness.{
  IsSound, detached, detached-IsSound, stored, stored-IsSound,
}

module _ (glib : MainLoop) where
  open glib use {Loop, find, add, remove, find_zero, find-remove}

  pub get-same :
      (v w : World glib) (path : String)
      → v.tech_if ≡ w.tech_if
      → get_technology glib path v ≡ get_technology glib path w
  unfolding get_technology
  get-same v w path e = rw e

  pub slot-same :
      (v w : World glib) (path : String) (i : ℕ)
      → v.tech_if ≡ w.tech_if
      → slot glib v path i ≡ slot glib w path i
  unfolding slot
  slot-same v w path i e = ap (λ (o : Option Technology). slot_of o i) (get-same v w path e)

  -- A step that leaves the technologies and the main loop alone.
  pub IsSound-same :
      (v w : World glib) → v.tech_if ≡ w.tech_if → v.loop ≡ w.loop → IsSound glib w → IsSound glib v
  unfolding room
  IsSound-same v w e f h = record {
    roomy = λ path. ap room_of (get-same v w path e) ∙ h.roomy path;
    attached = λ path i. ground (arith, slot-same v w path i e, f, h.attached path i);
    recorded = λ id p. ground (arith, slot-same v w p.path p.index e, f, h.recorded id p);
  }

  abbrev HasTechnology : String → World glib → Type 0
  HasTechnology path w = (t : Technology) × (get_technology glib path w ≡ some t)

  put_there :
      (k path : String) (u u' : Technology) (w : World glib)
      → get_technology glib k w ≡ some u
      → HasTechnology path w
      → HasTechnology path (put_technology glib k u' w)
  put_there k path u u' w e (t, there) = elim (Bool-cases (str_eq k path)) [
    | inl same ↦ (u', get-put glib k path u u' w e ∙ rw same)
    | inr other ↦ (t, get-put glib k path u u' w e ∙ rw other there)
  ]

  destroy_there :
      (p : PropertyChange) (w : World glib) (path : String)
      → HasTechnology path w
      → HasTechnology path (destroy_property glib p w)
  unfolding destroy_property
  destroy_there p w path h = known (get_technology glib p.path w) refl
    where
      known :
          (o : Option Technology)
          → get_technology glib p.path w ≡ o
          → HasTechnology path (destroy_property glib p w)
      known none e = rw (e, destroy_property) h
      known (some u) e =
          rw (e, destroy_property)
            (elim (Bool-cases p.error) [
              | inl failed ↦
                  rw failed (
                    put_there p.path path u (record u { to_error = set u.to_error p.index 0 }) w e
                      h)
              | inr fine ↦ rw fine (
                  put_there p.path path u (record u { to_update = set u.to_update p.index 0 }) w e
                    h)
            ])

  remove_there :
      (id : ℕ) (w : World glib) (path : String)
      → HasTechnology path w
      → HasTechnology path (source_remove glib id w)
  unfolding source_remove get_technology
  remove_there id w path h = known (find w.loop id) refl
    where
      known :
          (o : Option PropertyChange)
          → find w.loop id ≡ o
          → HasTechnology path (source_remove glib id w)
      known none e = rw (e, source_remove) h
      known (some p) e =
          rw (e, source_remove) (destroy_there p (record w { loop = remove w.loop id }) path h)

  pub source_remove-IsSound :
      (id : ℕ) (w : World glib) → IsSound glib w → IsSound glib (source_remove glib id w)
  unfolding source_remove detached
  source_remove-IsSound id w h = known (find w.loop id) refl
    where
      known :
          (o : Option PropertyChange) → find w.loop id ≡ o → IsSound glib (source_remove glib id w)
      known none e = rw (e, source_remove) (IsSound-same _ w refl refl h)
      known (some p) e = rw (e, source_remove) (detached-IsSound glib w h id p e)

  pub property_changed_or_error_same :
      (p : PropertyChange) (w : World glib)
      → ((property_changed_or_error glib p w).tech_if ≡ w.tech_if)
        × ((property_changed_or_error glib p w).loop ≡ w.loop)
  unfolding property_changed_or_error
  property_changed_or_error_same p w = ground arith

  -- A turn of the main loop for a timeout, its callback and its destroy function, keeps the book sound.
  pub dispatch-IsSound :
      (id : ℕ) (w : World glib) → IsSound glib w → IsSound glib (dispatch glib id w)
  unfolding dispatch detached
  dispatch-IsSound id w h = known (find w.loop id) refl
    where
      known : (o : Option PropertyChange) → find w.loop id ≡ o → IsSound glib (dispatch glib id w)
      known none e = rw (e, dispatch) h
      known (some p) e =
          let v = property_changed_or_error glib p w in
          let same = property_changed_or_error_same p w in
          rw (e, dispatch)
            (detached-IsSound glib v (IsSound-same v w same.0 same.1 h) id p
              (ground (arith, same.1, e)))

  -- The slot of a property after the timeout that it names is taken off.
  removed-free :
      (w : World glib) (path : String) (i : ℕ)
      → IsSound glib w
      → slot glib (source_remove_if_set glib (slot glib w path i) w) path i ≡ 0
  unfolding source_remove slot
  removed-free w path i h = elim (Bool-cases (slot glib w path i == 0)) [
    | inl e ↦ rw e ((==_iff _ _).0 e)
    | inr e ↦
        let there = h.attached path i (λ p. cc (e, (==_iff _ _).1 p)) in
        let v : World glib = record w { loop = remove w.loop (slot glib w path i) } in
        rw e (
          rw (there, source_remove)
            (ground
              (arith, slot-destroy_property glib (update_change path i) v path i, eq_refl path)))
  ]

  slot_known :
      (w : World glib) (path : String) (i : ℕ) (t : Technology)
      → get_technology glib path w ≡ some t
      → slot glib w path i ≡ get_or t.to_update i 0
  unfolding slot
  slot_known w path i t e = rw e

  removed_if_set :
      (w : World glib) (path : String) (id : ℕ)
      → IsSound glib w
      → HasTechnology path w
      → IsSound glib (source_remove_if_set glib id w)
        × HasTechnology path (source_remove_if_set glib id w)
  removed_if_set w path id h t = elim (Bool-cases (id == 0)) [
    | inl e ↦ rw e (h, t)
    | inr e ↦ rw e (source_remove-IsSound id w h, remove_there id w path t)
  ]

  -- Announcing a change of one of the five properties keeps the book sound.
  pub property_update-IsSound :
      (memory : Bool) (path : String) (i : ℕ) (w : World glib)
      → i < technology_max
      → IsSound glib w
      → IsSound glib (property_update glib memory path i w)
  unfolding property_update stored
  property_update-IsSound memory path i w small h = known (get_technology glib path w) refl
    where
      replaced :
          (t : Technology)
          → get_technology glib path w ≡ some t
          → let v = source_remove_if_set glib (get_or t.to_update i 0) w in
            IsSound glib (stored glib path i v)
      replaced t e =
          let old : slot glib w path i ≡ get_or t.to_update i 0 = slot_known w path i t e in
          let v = source_remove_if_set glib (get_or t.to_update i 0) w in
          let (sound, (t', there)) = removed_if_set w path (get_or t.to_update i 0) h (t, e) in
          stored-IsSound glib v sound path i t' there small (rw (← old) (removed-free w path i h))

      known :
          (o : Option Technology)
          → get_technology glib path w ≡ o
          → IsSound glib (property_update glib memory path i w)
      known none e = rw (e, property_update) h
      known (some t) e =
          let v = source_remove_if_set glib (get_or t.to_update i 0) w in
          let next = stored glib path i v in
          let stored_if : (b : Bool) → IsSound glib (if b then next else w) = elim [
            | true ↦ replaced t e
            | false ↦ h
          ] in
          rw (e, property_update)
            (elim t.property_changed_cb
              as (λ c. IsSound glib (elim c [ none ↦ w | some _ ↦ if memory then next else w ])) [
                | none ↦ h
                | some _ ↦ stored_if memory
              ])

  -- A write to a technology that leaves `to_update` as it was.
  pub put-IsSound :
      (path : String) (t t' : Technology) (w : World glib)
      → get_technology glib path w ≡ some t
      → t'.to_update ≡ t.to_update
      → IsSound glib w
      → IsSound glib (put_technology glib path t' w)
  unfolding slot room
  put-IsSound path t t' w e kept h =
      let same_slot : (j : String) (i : ℕ)
          → slot glib (put_technology glib path t' w) j i ≡ slot glib w j i =
        λ j i. ground (arith, get-put glib path j t t' w e, e, eq_iff path j, kept) in
      record {
        roomy =
            λ j. ground (arith, get-put glib path j t t' w e, e, eq_iff path j, kept, h.roomy j);
        attached = λ j i. ground (arith, same_slot j i, loop-put glib path t' w, h.attached j i);
        recorded = λ id p.
            ground (arith, same_slot p.path p.index, loop-put glib path t' w, h.recorded id p);
      }
