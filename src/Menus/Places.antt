-- ===== src/Menus/Places.antt =====
-- The right menu shows the items of its table, and the next item goes behind them.
use mathlib.Core.Path.{subst}
use mathlib.Core.List.{append-nil, append_assoc}
use connman_ui.Common.{
  ℕ, ◌+◌, ◌-◌, ◌≤◌, ◌<◌, ◌≡◌, refl, ◌∙◌, sym, ap, String, Bool, Option, none, some, List, [], ◌∷◌,
  ◌++◌, ◌==◌, ==_iff, Bool-cases, Option-cases, inl, inr, length, arith,
}
use connman_ui.Common.Table.{Table, lookup, remove}
use connman_ui.MainLoop.{MainLoop}
use connman_ui.Technology.State.{World}
use connman_ui.Ui.Gtk.{Gtk}
use connman_ui.Items.Technology.{GtkTechnology, gtk_technology_destroy}
use connman_ui.Menus.Shell.{MenuShell, without}
use connman_ui.Menus.Rows.{
  rows, IsNamed, Lacks, without-append, without-Lacks, rows-remove, length-remove, remove-IsNamed,
  lookup-IsNamed, length-append, length-rows, keep-IsNamed,
}
use connman_ui.Menus.Right.{RightMenu, write_item, destroy_item, delete_technology_item, place_item}

module _ (gtk : Gtk) (glib : MainLoop) (menus : MenuShell) where
  abbrev M : Type 0
  M = RightMenu gtk glib menus

  -- The path of an item.
  abbrev pub path_of : Option GtkTechnology → Option String
  path_of none = none
  path_of (some t) = some t.path

  abbrev pub name_of : (ℕ → Option GtkTechnology) → ℕ → Option String
  name_of items u = path_of (items u)

  -- A menu after the deletion of an item.
  abbrev after : ℕ → GtkTechnology → M → M
  after v item m = record m {
    items =
        write_item gtk glib menus v (gtk_technology_destroy glib v item m.technologies).0 m.items;
    tethering = menus.destroy m.tethering v;
    technologies = (gtk_technology_destroy glib v item m.technologies).1;
    right = menus.destroy m.right v;
    item_position = m.item_position - 1;
  }

  delete-after :
      (v : ℕ) (item : GtkTechnology) (m : M)
      → m.items v ≡ some item
      → delete_technology_item gtk glib menus v m ≡ after v item m
  unfolding delete_technology_item destroy_item
  delete-after v item m here = ground (arith, here)

  -- The names stay.
  write-names :
      (v : ℕ) (item item' : GtkTechnology) (items : ℕ → Option GtkTechnology) (u : ℕ) (k : String)
      → items v ≡ some item
      → item'.path ≡ item.path
      → name_of items u ≡ some k
      → name_of (write_item gtk glib menus v item' items) u ≡ some k
  write-names v item item' items u k here same e = ground (arith, ==_iff v u, here, same, e)

  write-none :
      (v u : ℕ) (item item' : GtkTechnology) (items : ℕ → Option GtkTechnology)
      → items v ≡ some item
      → items u ≡ none
      → write_item gtk glib menus v item' items u ≡ none
  write-none v u item item' items here gone = elim (Bool-cases (v == u)) [
    | inl same ↦ absurd (cc (here, gone, ap items ((==_iff v u).0 same)))
    | inr other ↦ rw other gone
  ]

  -- The menu has the items of a table, then new ones, between widgets of its own below `first`.
  module _ (head tail : List ℕ) (first : ℕ) where
    pub record Placed (t xs : Table ℕ) (m : M) : Type 0 where
      pub placed : menus.items m.right ≡ head ++ ((rows t ++ rows xs) ++ tail)
      pub tethers : menus.items m.tethering ≡ rows t ++ rows xs
      pub counted : m.item_position ≡ length head + (length t + length xs)
      pub named : IsNamed (name_of m.items) t
      pub new : IsNamed (name_of m.items) xs
      pub fresh : (u : ℕ) → m.top ≤ u → m.items u ≡ none
      pub low : (u : ℕ) → u < first → m.items u ≡ none
      pub above : first ≤ m.top

    -- The widgets of its own are no items.
    abbrev pub Apart : Type 0
    Apart = (v : ℕ) → first ≤ v → Lacks v head × Lacks v tail

    without-middle :
        (v : ℕ) (ys : List ℕ)
        → Lacks v head × Lacks v tail
        → without v (head ++ (ys ++ tail)) ≡ head ++ (without v ys ++ tail)
    without-middle v ys (h, t) =
        without-append v head (ys ++ tail)
        ∙ rw (without-append, without-Lacks v head h, without-Lacks v tail t) refl

    module _ (apart : Apart) where
      pub delete-Placed :
          (k : String) (v : ℕ) (t xs : Table ℕ) (m : M)
          → Placed t xs m
          → lookup k t ≡ some v
          → Lacks v (rows xs)
          → Placed (remove k t) xs (delete_technology_item gtk glib menus v m)
      unfolding gtk_technology_destroy
      delete-Placed k v t xs m p f lacks =
          let e = lookup-IsNamed (name_of m.items) k v t p.named f in
          let shorter = length-remove (name_of m.items) k v t p.named f in
          let kept : without v (rows t ++ rows xs) ≡ rows (remove k t) ++ rows xs =
            without-append v (rows t) (rows xs)
            ∙ rw (rows-remove (name_of m.items) k v t p.named f e, without-Lacks v (rows xs) lacks)
                refl in
          elim (Option-cases (m.items v)) [
            | inl gone ↦ absurd (ground (arith, e, gone))
            | inr (item, here) ↦
                subst (Placed (remove k t) xs) (sym (delete-after v item m here)) (record {
                  placed =
                      menus.items-destroy m.right v
                      ∙ ap (without v) p.placed
                      ∙ without-middle v (rows t ++ rows xs)
                          (apart v (ground (arith, p.low v, here)))
                      ∙ ap (λ ys. head ++ (ys ++ tail)) kept;
                  tethers = menus.items-destroy m.tethering v ∙ ap (without v) p.tethers ∙ kept;
                  counted = omega (arith, p.counted, shorter);
                  named = remove-IsNamed (name_of (after v item m).items) k t (
                      keep-IsNamed (name_of m.items) (name_of (after v item m).items) t
                        (λ u j. write-names v item _ m.items u j here refl) p.named);
                  new =
                      keep-IsNamed (name_of m.items) (name_of (after v item m).items) xs
                        (λ u j. write-names v item _ m.items u j here refl) p.new;
                  fresh = λ u h. write-none v u item _ m.items here (p.fresh u h);
                  low = λ u h. write-none v u item _ m.items here (p.low u h);
                  above = p.above;
                })
          ]

      -- The other variables do not matter.
      pub other-Placed :
          {t xs : Table ℕ} (m : M) (ui : gtk.Ui) (table : Table ℕ) (disabled dead : Bool)
          (technologies : World glib)
          → Placed t xs m
          → Placed t xs (record m {
            ui = ui;
            tech_items = table;
            disabled = disabled;
            dead = dead;
            technologies = technologies;
          })
      other-Placed m ui table disabled dead technologies p = record {
        placed = p.placed;
        tethers = p.tethers;
        counted = p.counted;
        named = p.named;
        new = p.new;
        fresh = p.fresh;
        low = p.low;
        above = p.above;
      }

      -- The new item is written where there was none.
      new-names :
          (item : GtkTechnology) (items : ℕ → Option GtkTechnology) (top u : ℕ) (k : String)
          → items top ≡ none
          → name_of items u ≡ some k
          → name_of (write_item gtk glib menus top item items) u ≡ some k
      new-names item items top u k free e = elim (Bool-cases (top == u)) [
        | inl same ↦ absurd (ground (arith, e, ap items ((==_iff top u).0 same), free))
        | inr different ↦ rw different e
      ]

      pub place-Placed :
          (item : GtkTechnology) (w : World glib) (t : Table ℕ) (m : M)
          → Placed t [] m
          → Placed t ((item.path, m.top) ∷ []) (place_item gtk glib menus item w m)
      unfolding place_item rows lookup
      place-Placed item w t m p =
          let behind : m.item_position ≡ length (head ++ rows t) =
            omega (arith, p.counted, length-append head (rows t), length-rows t) in
          let written = write_item gtk glib menus m.top item m.items in
          record {
            placed =
                subst
                  (λ n.
                    menus.items (menus.insert m.right m.top n)
                    ≡ head ++ ((rows t ++ m.top ∷ []) ++ tail))
                  (sym behind)
                  (menus.items-insert m.right m.top (head ++ rows t) tail
                      (p.placed ∙ simp (append-nil, append_assoc))
                    ∙ simp append_assoc);
            tethers =
                menus.items-append m.tethering m.top
                ∙ ap (λ ys. ys ++ m.top ∷ []) (p.tethers ∙ append-nil (rows t));
            counted = omega (arith, p.counted);
            named =
                keep-IsNamed (name_of m.items) (name_of written) t
                  (λ u k. new-names item m.items m.top u k (p.fresh m.top (omega arith))) p.named;
            new = (rw ((==_iff m.top m.top).1 refl) refl, refl, tt);
            fresh = λ u h. ground (arith, p.fresh u, ==_iff m.top u);
            low = λ u h. ground (arith, p.low u h, p.above, ==_iff m.top u);
            above = omega (arith, p.above);
          }
