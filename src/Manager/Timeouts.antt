-- ===== src/Manager/Timeouts.antt =====
-- The timeouts of lib/manager.c: each is known to the manager, and none outlives it.
use connman_ui.Common.{
  ℕ, ◌<◌, ◌≡◌, refl, ◌∙◌, ap, Bool, false, ◌||◌, Option, none, some, List, [], ◌∷◌, ◌==◌, ==_iff,
  if◌then◌else◌, length, get_or, set, arith, Bool-cases, inl, inr,
}
use connman_ui.Common.Arrays.{length-set, get_or-set_self, get_or-set_ne}
use connman_ui.MainLoop.{MainLoop, PropertyChange}
use connman_ui.Dbus.Libdbus.{Libdbus}
use connman_ui.Manager.State.{Manager, World}
use connman_ui.Manager.Property.{
  destroy_property, property_changed, source_remove, source_remove_if_set, dispatch, attach,
  manager_change,
}
use connman_ui.Manager.Life.{remove_sources}

-- The slots of the manager; without one they are all free.
abbrev pub sources : Option Manager → List ℕ
sources none = 0 ∷ 0 ∷ []
sources (some m) = m.source

abbrev pub among : ℕ → List ℕ → Bool
among j [] = false
among j (i ∷ is) = i == j || among j is

module _ (glib : MainLoop) (lib : Libdbus) where
  open glib use {Loop, find, add, remove, find_zero, add_pos, add_fresh, find-add, find-remove}

  -- Each attached timeout stands in the slot of its property in the manager.
  pub record IsTracked (w : World glib lib) : Type 0 where
    pub roomy : length (sources w.manager) ≡ 2
    pub tracked :
        (id : ℕ) (p : PropertyChange)
        → find w.loop id ≡ some p
        → (p.index < 2) × (get_or (sources w.manager) p.index 0 ≡ id)

  pub none_tracked :
      (w : World glib lib) (id : ℕ) → w.manager ≡ none → IsTracked w → find w.loop id ≡ none
  none_tracked w id e h = known (find w.loop id) refl
    where
      known : (o : Option PropertyChange) → find w.loop id ≡ o → o ≡ none
      known none f = refl
      known (some p) f = ground (arith, e, h.tracked id p f, find_zero w.loop)

  pub find-source_remove :
      (id j : ℕ) (w : World glib lib)
      → find (source_remove_if_set glib lib id w).loop j ≡ (if id == j then none else find w.loop j)
  unfolding source_remove destroy_property
  find-source_remove id j w = known (find w.loop id) refl
    where
      known :
          (o : Option PropertyChange)
          → find w.loop id ≡ o
          → find (source_remove_if_set glib lib id w).loop j
            ≡ (if id == j then none else find w.loop j)
      known none e = ground (arith, e, find_zero w.loop)
      known (some p) e = ground (arith, e, find_zero w.loop, find-remove w.loop id j)

  pub find-remove_sources :
      (ids : List ℕ) (j : ℕ) (w : World glib lib)
      → find (remove_sources glib lib ids w).loop j ≡ (if among j ids then none else find w.loop j)
  unfolding remove_sources
  find-remove_sources [] j w = refl
  find-remove_sources (id ∷ ids) j w = ground (
    arith,
    find-remove_sources ids j (source_remove_if_set glib lib id w),
    find-source_remove id j w,
  )

  pub IsTracked-same :
      (w w' : World glib lib)
      → sources w'.manager ≡ sources w.manager
      → w'.loop ≡ w.loop
      → IsTracked w
      → IsTracked w'
  IsTracked-same w w' e f h = record {
    roomy = rw e h.roomy;
    tracked = λ id p. ground (arith, e, f, h.tracked id p);
  }

  -- The slots after the slot `i` is written.
  slot-set :
      (l : List ℕ) (i j v : ℕ)
      → i < length l
      → get_or (set l i v) j 0 ≡ (if i == j then v else get_or l j 0)
  slot-set l i j v h = elim (Bool-cases (i == j)) [
    | inl e ↦ rw e (rw (← (==_iff i j).0 e) (get_or-set_self l i v 0 h))
    | inr e ↦ rw e (get_or-set_ne l i j v 0 (λ p. cc (e, (==_iff i j).1 p)))
  ]

  -- A timeout that is taken off the main loop with its destroy function.
  detached-IsTracked :
      (id : ℕ) (p : PropertyChange) (w : World glib lib)
      → find w.loop id ≡ some p
      → IsTracked w
      → IsTracked (destroy_property glib lib p (record w { loop = remove w.loop id }))
  unfolding destroy_property
  detached-IsTracked id p w e h = known w.manager refl
    where
      known :
          (o : Option Manager)
          → w.manager ≡ o
          → IsTracked (destroy_property glib lib p (record w { loop = remove w.loop id }))
      known none m = absurd (cc (e, none_tracked w id m h))
      known (some a) m =
          let small : p.index < length a.source = ground (arith, m, h.roomy, h.tracked id p e) in
          record {
            roomy = ground (arith, m, h.roomy, length-set a.source p.index 0);
            tracked = λ j q. ground (
              arith,
              m,
              h.tracked j q,
              h.tracked id p e,
              find-remove w.loop id j,
              slot-set a.source p.index q.index 0 small,
            );
          }

  pub source_remove-IsTracked :
      (id : ℕ) (w : World glib lib) → IsTracked w → IsTracked (source_remove_if_set glib lib id w)
  unfolding source_remove
  source_remove-IsTracked id w h = elim (Bool-cases (id == 0)) [
    | inl e ↦ rw e h
    | inr e ↦ rw e (known (find w.loop id) refl)
  ]
    where
      known :
          (o : Option PropertyChange) → find w.loop id ≡ o → IsTracked (source_remove glib lib id w)
      known none e = rw (e, source_remove) (IsTracked-same w _ refl refl h)
      known (some p) e = rw (e, source_remove) (detached-IsTracked id p w e h)

  property_changed_same :
      (p : PropertyChange) (w : World glib lib)
      → ((property_changed glib lib p w).manager ≡ w.manager)
        × ((property_changed glib lib p w).loop ≡ w.loop)
  unfolding property_changed
  property_changed_same p w = ground arith

  pub dispatch-IsTracked :
      (id : ℕ) (w : World glib lib) → IsTracked w → IsTracked (dispatch glib lib id w)
  unfolding dispatch
  dispatch-IsTracked id w h = known (find w.loop id) refl
    where
      known : (o : Option PropertyChange) → find w.loop id ≡ o → IsTracked (dispatch glib lib id w)
      known none e = rw (e, dispatch) h
      known (some p) e =
          let v = property_changed glib lib p w in
          let same = property_changed_same p w in
          rw (e, dispatch)
            (detached-IsTracked id p v (ap (λ (l : Loop). find l id) same.1 ∙ e)
              (IsTracked-same w v (ap sources same.0) same.1 h))

  -- A timeout may be attached for a property whose slot names none that is attached.
  pub attach-IsTracked :
      (index : ℕ) (w : World glib lib)
      → index < 2
      → find w.loop (get_or (sources w.manager) index 0) ≡ none
      → IsTracked w
      → IsTracked (attach glib lib index w)
  unfolding attach
  attach-IsTracked index w small free h = known w.manager refl
    where
      known : (o : Option Manager) → w.manager ≡ o → IsTracked (attach glib lib index w)
      known none m = rw (m, attach) (IsTracked-same w _ refl refl h)
      known (some a) m =
          let inside : index < length a.source = ground (arith, m, h.roomy) in
          let (id, loop) = add w.loop (manager_change index) in
          rw (m, attach)
            (record {
              roomy = ground (arith, m, h.roomy, length-set a.source index id);
              tracked = λ j q. ground (
                arith,
                m,
                h.tracked j q,
                free,
                find-add w.loop (manager_change index) j,
                slot-set a.source index q.index id inside,
              );
            })
