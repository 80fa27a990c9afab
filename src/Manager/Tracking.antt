-- ===== src/Manager/Tracking.antt =====
-- Every step of lib/manager.c keeps its timeouts known, and its end takes them all off the main loop.
use connman_ui.Common.{
  ℕ, ◌<◌, ◌≡◌, refl, ◌∙◌, ap, sym, String, Bool, true, false, Option, none, some, List, ◌==◌,
  ==_iff, if◌then◌else◌, get_or, set, arith, Bool-cases, if_either, is_ok, str_eq, ◌⊎◌, inl, inr,
}
use connman_ui.Common.Arrays.{get_or-set_default, get_or-set_ne}
use connman_ui.MainLoop.{MainLoop, PropertyChange}
use connman_ui.Dbus.Libdbus.{Libdbus, null, flag, type_string, type_boolean}
use connman_ui.Dbus.Read.{basic_cell, basic_of, text_of_basic, get_basic, get_basic_variant}
use connman_ui.Dbus.Entries.{basic_of_text, text_of, flag_of, read_text, read_flag}
use connman_ui.Manager.State.{
  Manager, World, Answers, emit, null_dereference, unref_call, manager_state, manager_offlinemode,
  PendingCall,
}
use connman_ui.Manager.Property.{
  string2enum_state, property, destroy_property, source_remove, source_remove_if_set, attach,
  update_manager_property, update_state, update_offlinemode, read_state, read_offlinemode,
  get_properties_callback, property_changed_signal_cb,
}
use connman_ui.Manager.Timeouts.{
  sources, IsTracked, IsTracked-same, source_remove-IsTracked, attach-IsTracked, find-source_remove,
}

-- The branches of property_changed_signal_cb.
branches {ℓ κ} :
    {A : Type ℓ} (P : A → Type κ) (b c d e f : Bool) (x y z : A)
    → P x
    → P y
    → P z
    → P (
        if b
        then (if c then (if d then x else z) else if e then (if f then y else z) else z)
        else z)
branches P b c d e f x y z hx hy hz =
    let first = if_either P d x z hx hz in
    let second = if_either P f y z hy hz in
    let rest = if_either P e (if f then y else z) z second hz in
    if_either P b _ z
      (if_either P c (if d then x else z) (if e then (if f then y else z) else z) first rest) hz

module _ (glib : MainLoop) (lib : Libdbus) where
  open glib use {find, find_zero}
  open lib use {next}

  clear : (l : List ℕ) (i j : ℕ) → get_or (set l i 0) j 0 ≡ (if i == j then 0 else get_or l j 0)
  clear l i j = elim (Bool-cases (i == j)) [
    | inl e ↦ rw e (rw (← (==_iff i j).0 e) (get_or-set_default l i 0))
    | inr e ↦ rw e (get_or-set_ne l i j 0 0 (λ p. cc (e, (==_iff i j).1 p)))
  ]

  -- A removal leaves a slot as it is or clears it.
  slot_after :
      (id i : ℕ) (w : World glib lib)
      → let after = get_or (sources (source_remove_if_set glib lib id w).manager) i 0 in
        (after ≡ 0) ⊎ (after ≡ get_or (sources w.manager) i 0)
  unfolding source_remove destroy_property
  slot_after id i w = known (find w.loop id) refl w.manager refl
    where
      known :
          (o : Option PropertyChange)
          → find w.loop id ≡ o
          → (m : Option Manager) → w.manager ≡ m
          → let after = get_or (sources (source_remove_if_set glib lib id w).manager) i 0 in
            (after ≡ 0) ⊎ (after ≡ get_or (sources w.manager) i 0)
      known none e m f = inr (ground (arith, e))
      known (some p) e none f = inr (ground (arith, e, f))
      known (some p) e (some a) f = elim (Bool-cases (p.index == i)) [
        | inl k ↦ elim (Bool-cases (id == 0)) [
          | inl z ↦ inr (rw z)
          | inr n ↦ inl (rw n (ground (arith, e, f, k, clear a.source p.index i)))
        ]
        | inr k ↦ inr (ground (arith, e, f, k, clear a.source p.index i))
      ]

  -- So a slot names no attached timeout after its timeout was removed.
  slot_free :
      (id i : ℕ) (w : World glib lib)
      → get_or (sources w.manager) i 0 ≡ id
      → let w' = source_remove_if_set glib lib id w in
        find w'.loop (get_or (sources w'.manager) i 0) ≡ none
  slot_free id i w same =
      let w' = source_remove_if_set glib lib id w in
      elim (slot_after id i w) [
        | inl e ↦ rw e (find_zero w'.loop)
        | inr e ↦ rw (e ∙ same) (find-source_remove glib lib id id w ∙ rw ((==_iff id id).1 refl))
      ]

  pub update-IsTracked :
      (answers : Answers) (index : ℕ) (w : World glib lib)
      → index < 2
      → IsTracked glib lib w
      → IsTracked glib lib (update_manager_property glib lib answers index w)
  unfolding update_manager_property
  update-IsTracked answers index w small h =
      if_either (IsTracked glib lib) answers.memory _ _ (known w.manager refl) h
    where
      known :
          (o : Option Manager)
          → w.manager ≡ o
          → IsTracked glib lib (elim w.manager [
            | none ↦ emit glib lib null_dereference w
            | some m ↦
                attach glib lib index (source_remove_if_set glib lib (get_or m.source index 0) w)
          ])
      known none e = rw e (IsTracked-same glib lib w _ refl refl h)
      known (some a) e =
          let id = get_or a.source index 0 in
          let same = ap (λ (o : Option Manager). get_or (sources o) index 0) e in
          rw e (
            attach-IsTracked glib lib index (source_remove_if_set glib lib id w) small
              (slot_free id index w same) (source_remove-IsTracked glib lib id w h))

  -- What changes neither the slots nor the main loop keeps the timeouts known.
  pub same-IsTracked :
      (w w' : World glib lib)
      → (sources w'.manager ≡ sources w.manager) × (w'.loop ≡ w.loop)
      → IsTracked glib lib w
      → IsTracked glib lib w'
  same-IsTracked w w' e h = IsTracked-same glib lib w w' e.0 e.1 h

  module _ (answers : Answers) (a : Manager) (w : World glib lib) (e : w.manager ≡ some a)
      (h : IsTracked glib lib w) where
    update_state-IsTracked :
        (value : Option String) → IsTracked glib lib (update_state glib lib answers value a w)
    unfolding update_state
    update_state-IsTracked value =
        let v : World glib lib = record w {
          manager = some (record a { state = string2enum_state value });
        } in
        update-IsTracked answers manager_state v (omega arith)
          (IsTracked-same glib lib w v (ap sources (sym e)) refl h)

    update_offlinemode-IsTracked :
        (value : Bool) → IsTracked glib lib (update_offlinemode glib lib answers value a w)
    unfolding update_offlinemode
    update_offlinemode-IsTracked value =
        let v : World glib lib = record w { manager = some (record a { offlinemode = value }) } in
        update-IsTracked answers manager_offlinemode v (omega arith)
          (IsTracked-same glib lib w v (ap sources (sym e)) refl h)

  module _ (answers : Answers) (arg : lib.Iter) (w : World glib lib)
      (h : IsTracked glib lib w) where
    read_state-IsTracked : IsTracked glib lib (read_state glib lib answers arg w)
    unfolding read_state
    read_state-IsTracked = known w.manager refl
      where
        known :
            (o : Option Manager)
            → w.manager ≡ o
            → IsTracked glib lib (read_state glib lib answers arg w)
        known none e = rw (e, read_state) (IsTracked-same glib lib w _ refl refl h)
        known (some a) e =
            let value =
              (read_text lib answers.realloc arg (property manager_state) answers.stray).1 in
            rw (e, read_state)
              (if_either (IsTracked glib lib) _ _ _ (update_state-IsTracked answers a w e h value)
                h)

    read_offlinemode-IsTracked : IsTracked glib lib (read_offlinemode glib lib answers arg w)
    unfolding read_offlinemode
    read_offlinemode-IsTracked = known w.manager refl
      where
        known :
            (o : Option Manager)
            → w.manager ≡ o
            → IsTracked glib lib (read_offlinemode glib lib answers arg w)
        known none e = rw (e, read_offlinemode) (IsTracked-same glib lib w _ refl refl h)
        known (some a) e =
            let value =
              (read_flag lib answers.realloc arg (property manager_offlinemode)
                answers.stray_flag).1 in
            rw (e, read_offlinemode)
              (if_either (IsTracked glib lib) _ _ _
                (update_offlinemode-IsTracked answers a w e h value) h)

  pub get_properties-IsTracked :
      (answers : Answers) (pending : PendingCall) (completed : Bool) (reply : Option lib.Iter)
      (w : World glib lib)
      → IsTracked glib lib w
      → IsTracked glib lib (get_properties_callback glib lib answers pending completed reply w)
  unfolding get_properties_callback
  get_properties-IsTracked answers pending false reply w h = h
  get_properties-IsTracked answers pending true reply w h = known reply w.manager refl
    where
      known :
          (r : Option lib.Iter) (o : Option Manager)
          → w.manager ≡ o
          → IsTracked glib lib (get_properties_callback glib lib answers pending true r w)
      known r none e =
          rw (e, get_properties_callback)
            (IsTracked-same glib lib w (emit glib lib null_dereference w) refl refl h)
      known none (some a) e =
          let v : World glib lib = record w {
            manager = some (record a { get_properties_call = none });
          } in
          rw (e, get_properties_callback)
            (IsTracked-same glib lib w (emit glib lib (unref_call pending) v) (ap sources (sym e))
              refl h)
      known (some arg) (some a) e =
          let v : World glib lib = record w {
            manager = some (record a { get_properties_call = none });
          } in
          let v' = read_state glib lib answers arg v in
          let v'' = read_offlinemode glib lib answers arg v' in
          rw (e, get_properties_callback)
            (IsTracked-same glib lib v'' (emit glib lib (unref_call pending) v'') refl refl (
              read_offlinemode-IsTracked answers arg v' (
                read_state-IsTracked answers arg v
                  (IsTracked-same glib lib w v (ap sources (sym e)) refl h))))

  pub property_changed-IsTracked :
      (answers : Answers) (args : Option lib.Iter) (w : World glib lib)
      → IsTracked glib lib w
      → IsTracked glib lib (property_changed_signal_cb glib lib answers args w)
  unfolding property_changed_signal_cb
  property_changed-IsTracked answers none w h = h
  property_changed-IsTracked answers (some arg) w h = known w.manager refl
    where
      known :
          (o : Option Manager)
          → w.manager ≡ o
          → IsTracked glib lib (property_changed_signal_cb glib lib answers (some arg) w)
      known none e = rw (e, property_changed_signal_cb) h
      known (some a) e =
          let (ret, cell) = get_basic lib arg type_string (some (basic_cell null)) in
          let name = text_of_basic (basic_of cell) in
          let (state_ret, state) =
            get_basic_variant lib (next arg) type_string
              (some (basic_cell (basic_of_text answers.stray))) in
          let (mode_ret, mode) =
            get_basic_variant lib (next arg) type_boolean
              (some (basic_cell (flag answers.stray_flag))) in
          let new_state = text_of (basic_of state) in
          let new_mode = flag_of (basic_of mode) in
          rw (e, property_changed_signal_cb)
            (branches (IsTracked glib lib) (is_ok ret) (str_eq name (property manager_state))
              (is_ok state_ret) (str_eq name (property manager_offlinemode)) (is_ok mode_ret)
              (update_state glib lib answers new_state a w)
              (update_offlinemode glib lib answers new_mode a w) w
              (update_state-IsTracked answers a w e h new_state)
              (update_offlinemode-IsTracked answers a w e h new_mode) h)
