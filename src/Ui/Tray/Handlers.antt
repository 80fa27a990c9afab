-- ===== src/Ui/Tray/Handlers.antt =====
-- The status icon has at most one handler of src/tray.c for a signal, and none while it is disabled.
use connman_ui.Common.{
  ℕ, ◌≡◌, ◌==◌, inl, inr, String, List, [], ◌∷◌, none, some, str_eq, if◌then◌else◌, arith, eq_iff,
  Option-cases,
}
use connman_ui.Ui.Tray.{
  Signals, Tray, Event, enable, disable, left_menu_disable, hook_left_menu, hook_right_menu, step,
  run, enable_left, enable_right, drop_handler, cui_tray_disable, cui_tray_left_menu_disable,
  cui_tray_hook_left_menu, cui_tray_hook_right_menu,
}

module _ (signals : Signals) where
  open signals use {Icon, handler}

  -- The identifier that the file keeps for a signal.
  abbrev kept : Tray signals → String → ℕ
  kept t s = if str_eq s "activate" then t.left_menu_handler_id else t.right_menu_handler_id

  -- Each handler of the icon is the one that the file keeps for its signal.
  abbrev IsKept : Tray signals → Type 0
  IsKept t = (j : ℕ) (s : String) → handler t.icon j ≡ some s → j ≡ kept t s

  enable_left-IsKept : (t : Tray signals) → IsKept t → IsKept (enable_left signals t)
  unfolding enable_left
  enable_left-IsKept t h j s f = ground (
    arith,
    h j s,
    signals.handler-connect t.icon "activate" j,
    signals.handler_zero t.icon,
    eq_iff s "activate",
  )

  enable_right-IsKept : (t : Tray signals) → IsKept t → IsKept (enable_right signals t)
  unfolding enable_right
  enable_right-IsKept t h j s f = ground (
    arith,
    h j s,
    signals.handler-connect t.icon "popup-menu" j,
    signals.handler_zero t.icon,
    eq_iff s "activate",
    eq_iff "popup-menu" "activate",
  )

  left_disable-IsKept :
      (t : Tray signals) → IsKept t → IsKept (cui_tray_left_menu_disable signals t)
  unfolding cui_tray_left_menu_disable
  left_disable-IsKept t h j s f = ground (
    arith,
    h j s,
    signals.handler-disconnect t.icon t.left_menu_handler_id j,
    eq_iff s "activate",
  )

  handler-drop :
      (id j : ℕ) (c : Icon)
      → handler (drop_handler signals id c) j ≡ (if id == j then none else handler c j)
  unfolding drop_handler
  handler-drop id j c = ground (arith, signals.handler-disconnect c id j, signals.handler_zero c)

  disable-handler :
      (t : Tray signals) → IsKept t → (j : ℕ) → handler (cui_tray_disable signals t).icon j ≡ none
  unfolding cui_tray_disable
  disable-handler t h j =
      let dropped =
        handler-drop t.right_menu_handler_id j
          (drop_handler signals t.left_menu_handler_id t.icon) in
      let left = handler-drop t.left_menu_handler_id j t.icon in
      elim (Option-cases (handler t.icon j)) [
        | inl e ↦ ground (arith, dropped, left, e)
        | inr (s, e) ↦ ground (arith, dropped, left, e, h j s)
      ]

  disable-IsKept : (t : Tray signals) → IsKept t → IsKept (cui_tray_disable signals t)
  disable-IsKept t h j s f = absurd (cc (disable-handler t h j, f))

  step-IsKept : (e : Event signals) (t : Tray signals) → IsKept t → IsKept (step signals e t)
  unfolding step cui_tray_hook_left_menu cui_tray_hook_right_menu
  step-IsKept enable t h = enable_right-IsKept (enable_left signals t) (enable_left-IsKept t h)
  step-IsKept disable t h = disable-IsKept t h
  step-IsKept left_menu_disable t h = left_disable-IsKept t h
  step-IsKept (hook_left_menu callback) t h = h
  step-IsKept (hook_right_menu callback) t h = h

  run-IsKept : (es : List (Event signals)) (t : Tray signals) → IsKept t → IsKept (run signals es t)
  unfolding run
  run-IsKept [] t h = h
  run-IsKept (e ∷ es) t h = run-IsKept es (step signals e t) (step-IsKept e t h)

  -- From an icon with no handler, through any calls of the file: two handlers of the icon for the same
  -- signal are one, and cui_tray_disable leaves none.
  pub run_handlers :
      (es : List (Event signals)) (t : Tray signals)
      → ((j : ℕ) → handler t.icon j ≡ none)
      → ((j j' : ℕ) (s : String)
          → handler (run signals es t).icon j ≡ some s
          → handler (run signals es t).icon j' ≡ some s
          → j ≡ j')
        × ((j : ℕ) → handler (cui_tray_disable signals (run signals es t)).icon j ≡ none)
  run_handlers es t free =
      let h = run-IsKept es t (λ j s f. absurd (cc (free j, f))) in
      (λ j j' s f f'. cc (h j s f, h j' s f'), disable-handler (run signals es t) h)
