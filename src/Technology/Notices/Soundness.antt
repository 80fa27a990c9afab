-- ===== src/Technology/Notices/Soundness.antt =====
-- The timeouts of lib/technology.c and the slots of `to_update` always agree.
use connman_ui.Common.{
  ℕ, ◌<◌, ◌≡◌, ◌≢◌, refl, ◌∙◌, String, false, some, eq_iff, eq_refl, length, arith,
}
use connman_ui.MainLoop.{MainLoop, PropertyChange}
use connman_ui.Technology.State.{Technology, World, get_technology}
use connman_ui.Technology.Property.{destroy_property, store_update, update_change}
use connman_ui.Technology.Notices.Slots.{
  slot, room, slot-destroy_property, slot-store_update, room-destroy_property, room-store_update,
  loop-destroy_property, loop-store_update,
}

module _ (glib : MainLoop) where
  open glib use {Loop, find, add, remove, find_zero, add_pos, add_fresh, find-add, find-remove}

  -- Each slot is long enough for all properties, a slot that is not 0 names an attached timeout for
  -- just that property of that technology, and each attached timeout that announces a change stands in
  -- the slot of its property.
  pub record IsSound (w : World glib) : Type 0 where
    pub roomy : (path : String) → room glib w path ≡ 5
    pub attached :
        (path : String) (i : ℕ)
        → slot glib w path i ≢ 0
        → find w.loop (slot glib w path i) ≡ some (update_change path i)
    pub recorded :
        (id : ℕ) (p : PropertyChange)
        → find w.loop id ≡ some p
        → p.error ≡ false
        → slot glib w p.path p.index ≡ id

  pub slot-loop :
      (w : World glib) (loop : Loop) (path : String) (i : ℕ)
      → slot glib (record w { loop = loop }) path i ≡ slot glib w path i
  unfolding slot get_technology
  slot-loop w loop path i = refl

  room-loop :
      (w : World glib) (loop : Loop) (path : String)
      → room glib (record w { loop = loop }) path ≡ room glib w path
  unfolding room get_technology
  room-loop w loop path = refl

  -- A timeout that is taken off the main loop with its destroy function.
  unfoldable pub detached : ℕ → PropertyChange → World glib → World glib
  detached id p w = destroy_property glib p (record w { loop = remove w.loop id })

  module _ (w : World glib) (h : IsSound w) (id : ℕ) (p : PropertyChange)
      (there : find w.loop id ≡ some p) where
    detached-attached :
        (path : String) (i : ℕ)
        → slot glib (detached id p w) path i ≢ 0
        → find (detached id p w).loop (slot glib (detached id p w) path i)
          ≡ some (update_change path i)
    unfolding detached
    detached-attached path i =
        let v : World glib = record w { loop = remove w.loop id } in
        ground (
          arith,
          there,
          loop-destroy_property glib p v,
          slot-destroy_property glib p v path i,
          slot-loop w (remove w.loop id) path i,
          find-remove w.loop id (slot glib w path i),
          h.attached path i,
          eq_iff p.path path,
        )

    detached-recorded :
        (id' : ℕ) (p' : PropertyChange)
        → find (detached id p w).loop id' ≡ some p'
        → p'.error ≡ false
        → slot glib (detached id p w) p'.path p'.index ≡ id'
    unfolding detached
    detached-recorded id' p' =
        let v : World glib = record w { loop = remove w.loop id } in
        ground (
          arith,
          there,
          loop-destroy_property glib p v,
          slot-destroy_property glib p v p'.path p'.index,
          slot-loop w (remove w.loop id) p'.path p'.index,
          find-remove w.loop id id',
          h.recorded id' p',
          h.recorded id p there,
          eq_iff p.path p'.path,
        )

    pub detached-IsSound : IsSound (detached id p w)
    unfolding detached
    detached-IsSound =
        let v : World glib = record w { loop = remove w.loop id } in
        record {
          roomy = λ path.
              room-destroy_property glib p v path
              ∙ room-loop w (remove w.loop id) path
              ∙ h.roomy path;
          attached = detached-attached;
          recorded = detached-recorded;
        }

  -- A timeout that is put on the main loop and stored in an empty slot.
  unfoldable pub stored : String → ℕ → World glib → World glib
  stored path i w = store_update glib path i (add w.loop (update_change path i)) w

  module _ (w : World glib) (h : IsSound w) (path : String) (i : ℕ) (t : Technology)
      (found : get_technology glib path w ≡ some t) (small : i < 5)
      (free : slot glib w path i ≡ 0) where
    abbrev made : ℕ × Loop
    made = add w.loop (update_change path i)

    found_there : get_technology glib path (record w { loop = made.1 }) ≡ some t
    unfolding get_technology
    found_there = found

    wide : i < length t.to_update
    unfolding room
    wide = ground (arith, h.roomy path, found)

    stored-attached :
        (j : String) (k : ℕ)
        → slot glib (stored path i w) j k ≢ 0
        → find (stored path i w).loop (slot glib (stored path i w) j k) ≡ some (update_change j k)
    unfolding stored
    stored-attached j k = ground (
      arith,
      loop-store_update glib path i made.0 made.1 w,
      slot-store_update glib path i made.0 made.1 w j k t found_there wide,
      slot-loop w made.1 j k,
      find-add w.loop (update_change path i) made.0,
      find-add w.loop (update_change path i) (slot glib w j k),
      add_fresh w.loop (update_change path i),
      h.attached j k,
      eq_iff path j,
    )

    stored-recorded :
        (id : ℕ) (p : PropertyChange)
        → find (stored path i w).loop id ≡ some p
        → p.error ≡ false
        → slot glib (stored path i w) p.path p.index ≡ id
    unfolding stored
    stored-recorded id p = ground (
      arith,
      loop-store_update glib path i made.0 made.1 w,
      slot-store_update glib path i made.0 made.1 w p.path p.index t found_there wide,
      slot-loop w made.1 p.path p.index,
      find-add w.loop (update_change path i) id,
      find_zero w.loop,
      h.recorded id p,
      free,
      eq_iff path p.path,
      eq_refl path,
    )

    pub stored-IsSound : IsSound (stored path i w)
    unfolding stored
    stored-IsSound = record {
      roomy = λ j.
          room-store_update glib path i made.0 made.1 w j t found_there
          ∙ room-loop w made.1 j
          ∙ h.roomy j;
      attached = stored-attached;
      recorded = stored-recorded;
    }
