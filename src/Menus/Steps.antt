-- ===== src/Menus/Steps.antt =====
-- The right menu stays in place through its life.
use mathlib.Core.Path.{subst}
use mathlib.Core.List.{append-nil}
use connman_ui.Common.{
  ℕ, ◌+◌, ◌≤◌, ◌≡◌, refl, ◌∙◌, sym, ap, String, Bool, true, false, Option, none, some, List, [],
  ◌∷◌, ◌++◌, eq_refl, length, if_either, arith,
}
use connman_ui.Common.Table.{Table, lookup, insert, remove, lookup-remove}
use connman_ui.MainLoop.{MainLoop}
use connman_ui.Ui.Gtk.{Gtk}
use connman_ui.Technology.State.{World}
use connman_ui.Items.Technology.{
  GtkTechnology, gtk_technology_new, gtk_technology_init, set_technology_name,
}
use connman_ui.Menus.Shell.{MenuShell}
use connman_ui.Menus.Rows.{rows, Lacks, lookup-IsNamed, remove-absent}
use connman_ui.Menus.Right.{
  RightMenu, destroy_item, delete_technology_item, drop_old, insert_item, place_item,
  add_technology, add_all, delete_all, fill_menu, show_offlinemode, technology_added_cb,
  technology_removed_cb, cui_popup_right_menu, cui_popdown_right_menu, cui_enable_item,
  cui_right_menu_enable_all, cui_right_menu_enable_only_quit, Event, popup, popdown, enable_all,
  enable_only_quit, added, removed, step, run,
}
use connman_ui.Menus.Places.{
  name_of, path_of, Placed, Apart, delete-Placed, other-Placed, place-Placed,
}

module _ (gtk : Gtk) (glib : MainLoop) (menus : MenuShell) (head tail : List ℕ) (first : ℕ)
    (apart : Apart gtk glib menus head tail first) where
  abbrev M : Type 0
  M = RightMenu gtk glib menus

  abbrev IsPlaced : Table ℕ → Table ℕ → M → Type 0
  IsPlaced = Placed gtk glib menus head tail first

  -- The items of its table and no others.
  abbrev pub InPlace : M → Type 0
  InPlace m = IsPlaced m.tech_items [] m

  -- The table after a deletion.
  drop-table : (o : Option ℕ) (m : M) → (drop_old gtk glib menus o m).tech_items ≡ m.tech_items
  unfolding drop_old delete_technology_item destroy_item
  drop-table none m = refl
  drop-table (some v) m = ground arith

  abbrev LacksOld : Option ℕ → List ℕ → Type 0
  LacksOld none xs = Unit
  LacksOld (some v) xs = Lacks v xs

  no_new : (o : Option ℕ) → LacksOld o (rows [])
  unfolding rows
  no_new none = tt
  no_new (some v) = tt

  drop-IsPlaced :
      (k : String) (o : Option ℕ) (t xs : Table ℕ) (m : M)
      → IsPlaced t xs m
      → lookup k t ≡ o
      → LacksOld o (rows xs)
      → IsPlaced (remove k t) xs (drop_old gtk glib menus o m)
  unfolding drop_old
  drop-IsPlaced k none t xs m p e lacks =
      subst (λ t'. IsPlaced t' xs m) (sym (remove-absent k t e)) p
  drop-IsPlaced k (some v) t xs m p e lacks =
      delete-Placed gtk glib menus head tail first apart k v t xs m p e lacks

  -- New items become items of the table.
  settle :
      (k : String) (v : ℕ) (t : Table ℕ) (m : M)
      → lookup k t ≡ none
      → IsPlaced t ((k, v) ∷ []) m
      → IsPlaced ((k, v) ∷ t) [] m
  unfolding rows
  settle k v t m free p = record {
    placed = p.placed ∙ ap (λ ys. head ++ (ys ++ tail)) (sym (append-nil (rows t ++ v ∷ [])));
    tethers = p.tethers ∙ sym (append-nil (rows t ++ v ∷ []));
    counted = omega (arith, p.counted);
    named = (p.new.0, free, p.named);
    new = tt;
    fresh = p.fresh;
    low = p.low;
    above = p.above;
  }

  -- An item that is in the table is not the one that is new.
  new-Lacks :
      (k j : String) (o : Option ℕ) (m : M)
      → InPlace m
      → lookup j m.tech_items ≡ o
      → LacksOld o (rows ((k, m.top) ∷ []))
  unfolding rows
  new-Lacks k j none m p e = tt
  new-Lacks k j (some v) m p e = (
    λ same. cc (
      lookup-IsNamed (name_of gtk glib menus m.items) j v m.tech_items p.named e,
      ap (name_of gtk glib menus m.items) same,
      ap (path_of gtk glib menus) (p.fresh m.top (omega arith)),
    ),
    tt,
  )

  insert-InPlace :
      (item : GtkTechnology) (w : World glib) (m : M)
      → InPlace m
      → InPlace (insert_item gtk glib menus item.path m.top (place_item gtk glib menus item w m))
  unfolding insert_item insert place_item
  insert-InPlace item w m p =
      let k = item.path in
      let o = lookup k m.tech_items in
      let m1 = place_item gtk glib menus item w m in
      let table : Table ℕ = (k, m.top) ∷ remove k m.tech_items in
      let m2 : M = record m1 { tech_items = table } in
      let p1 = place-Placed gtk glib menus head tail first apart item w m.tech_items m p in
      let p2 =
        other-Placed gtk glib menus head tail first apart m1 m1.ui table m1.disabled m1.dead
          m1.technologies p1 in
      let p3 =
        drop-IsPlaced k o m.tech_items ((k, m.top) ∷ []) m2 p2 refl (new-Lacks k k o m p refl) in
      subst (λ t. IsPlaced t [] (drop_old gtk glib menus o m2)) (sym (drop-table o m2))
        (settle k m.top (remove k m.tech_items) (drop_old gtk glib menus o m2)
          (lookup-remove k k m.tech_items ∙ rw (eq_refl k) refl) p3)

  add-InPlace :
      (made : Bool) (path : String) (m : M)
      → InPlace m
      → InPlace (add_technology gtk glib menus made path m)
  unfolding add_technology gtk_technology_new gtk_technology_init set_technology_name
  add-InPlace false path m p =
      other-Placed gtk glib menus head tail first apart m m.ui m.tech_items m.disabled true
        m.technologies p
  add-InPlace true path m p = insert-InPlace _ _ m p

  add_all-InPlace :
      (made : List Bool) (paths : List String) (m : M)
      → InPlace m
      → InPlace (add_all gtk glib menus made paths m)
  unfolding add_all
  add_all-InPlace made [] m p = p
  add_all-InPlace [] (path ∷ paths) m p = add_all-InPlace [] paths _ (add-InPlace true path m p)
  add_all-InPlace (made ∷ rest) (path ∷ paths) m p =
      add_all-InPlace rest paths _ (add-InPlace made path m p)

  removed-InPlace :
      (path : String) (m : M) → InPlace m → InPlace (technology_removed_cb gtk glib menus path m)
  unfolding technology_removed_cb
  removed-InPlace path m p =
      let o = lookup path m.tech_items in
      let table = remove path m.tech_items in
      let m1 : M = record m { tech_items = table } in
      let p1 =
        other-Placed gtk glib menus head tail first apart m m.ui table m.disabled m.dead
          m.technologies p in
      subst (λ t. IsPlaced t [] (drop_old gtk glib menus o m1)) (sym (drop-table o m1))
        (drop-IsPlaced path o m.tech_items [] m1 p1 refl (no_new o))

  delete_all-table :
      (t : Table ℕ) (m : M) → (delete_all gtk glib menus t m).tech_items ≡ m.tech_items
  unfolding delete_all drop_old
  delete_all-table [] m = refl
  delete_all-table ((path, v) ∷ t) m = delete_all-table t _ ∙ drop-table (some v) m

  delete_all-IsPlaced :
      (t : Table ℕ) (m : M) → IsPlaced t [] m → IsPlaced [] [] (delete_all gtk glib menus t m)
  unfolding delete_all lookup remove rows
  delete_all-IsPlaced [] m p = p
  delete_all-IsPlaced ((path, v) ∷ t) m p = delete_all-IsPlaced t _ (
      subst (λ t'. IsPlaced t' [] (delete_technology_item gtk glib menus v m))
        (rw (eq_refl path) (remove-absent path t p.named.1))
        (delete-Placed gtk glib menus head tail first apart path v ((path, v) ∷ t) [] m p
          (rw (eq_refl path) refl) tt))

  popdown-InPlace : (m : M) → InPlace m → InPlace (cui_popdown_right_menu gtk glib menus m)
  unfolding cui_popdown_right_menu
  popdown-InPlace m p =
      subst (λ t. IsPlaced t [] (cui_popdown_right_menu gtk glib menus m))
        (sym (delete_all-table m.tech_items _))
        (delete_all-IsPlaced m.tech_items _
          (other-Placed gtk glib menus head tail first apart m m.ui [] m.disabled m.dead _ p))

  fill-InPlace :
      (made : List Bool) (ui : gtk.Ui) (m : M)
      → InPlace m
      → InPlace (fill_menu gtk glib menus made ui m)
  unfolding fill_menu
  fill-InPlace made ui m p = if_either InPlace m.disabled m _ p (
      add_all-InPlace made _ _ (
        other-Placed gtk glib menus head tail first apart m ui m.tech_items m.disabled m.dead
          m.technologies p))

  popup-InPlace :
      (offlinemode : Bool) (made : List Bool) (m : M)
      → InPlace m
      → InPlace (cui_popup_right_menu gtk glib menus offlinemode made m)
  unfolding cui_popup_right_menu
  popup-InPlace offlinemode made m p =
      let filled =
        fill_menu gtk glib menus made (show_offlinemode gtk glib menus offlinemode m.ui) m in
      other-Placed gtk glib menus head tail first apart filled filled.ui filled.tech_items
        filled.disabled filled.dead _
        (fill-InPlace made (show_offlinemode gtk glib menus offlinemode m.ui) m p)

  step-InPlace : (e : Event gtk glib menus) (m : M) → InPlace m → InPlace (step gtk glib menus e m)
  unfolding step cui_right_menu_enable_all cui_right_menu_enable_only_quit cui_enable_item
      technology_added_cb
  step-InPlace (popup offlinemode made) m p = popup-InPlace offlinemode made m p
  step-InPlace popdown m p = popdown-InPlace m p
  step-InPlace enable_all m p =
      other-Placed gtk glib menus head tail first apart m _ m.tech_items false m.dead m.technologies
        p
  step-InPlace enable_only_quit m p =
      other-Placed gtk glib menus head tail first apart m _ m.tech_items true m.dead m.technologies
        p
  step-InPlace (added made path) m p = add-InPlace made path m p
  step-InPlace (removed path) m p = removed-InPlace path m p

  run-InPlace :
      (es : List (Event gtk glib menus)) (m : M) → InPlace m → InPlace (run gtk glib menus es m)
  unfolding run
  run-InPlace [] m p = p
  run-InPlace (e ∷ es) m p = run-InPlace es _ (step-InPlace e m p)

  -- A menu that starts with no items and an empty table, its own widgets, whose numbers new items do
  -- not get, around the place of the first item and an empty tethering menu shows, whatever happens to
  -- it, the items of its table between its own widgets and in its tethering menu, the oldest first, and
  -- the next position is the one behind them.
  pub run-rows :
      (es : List (Event gtk glib menus)) (m : M)
      → menus.items m.right ≡ head ++ tail
      → menus.items m.tethering ≡ []
      → m.item_position ≡ length head
      → m.tech_items ≡ []
      → ((u : ℕ) → m.items u ≡ none)
      → first ≤ m.top
      → (menus.items (run gtk glib menus es m).right
          ≡ head ++ (rows (run gtk glib menus es m).tech_items ++ tail))
        × (menus.items (run gtk glib menus es m).tethering
            ≡ rows (run gtk glib menus es m).tech_items)
        × ((run gtk glib menus es m).item_position
            ≡ length head + length (run gtk glib menus es m).tech_items)
  unfolding rows
  run-rows es m right tethering position table none_made below =
      let start : InPlace m =
        subst (λ t. IsPlaced t [] m) (sym table)
          (record {
            placed = right;
            tethers = tethering;
            counted = omega (arith, position);
            named = tt;
            new = tt;
            fresh = λ u h. none_made u;
            low = λ u h. none_made u;
            above = below;
          }) in
      let p = run-InPlace es m start in
      let nil = append-nil (rows (run gtk glib menus es m).tech_items) in
      (p.placed ∙ ap (λ ys. head ++ (ys ++ tail)) nil, p.tethers ∙ nil, omega (arith, p.counted))
