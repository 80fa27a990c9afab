-- ===== src/Menus/Filling.antt =====
-- How get_services_cb fills the left menu.
use mathlib.Core.Path.{subst}
use mathlib.Core.List.{append-nil, append_assoc}
use connman_ui.Common.{
  ℕ, zero, suc, ◌+◌, ◌≤◌, ◌<◌, ◌≡◌, refl, ◌∙◌, sym, ap, String, true, Option, some, Option-cases,
  inl, inr, List, [], ◌∷◌, ◌++◌, length, map, if◌then◌else◌, ltb, arith,
}
use connman_ui.MainLoop.{MainLoop}
use connman_ui.Service.State.{Pointer}
use connman_ui.Service.Life.{connman_service_get_services}
use connman_ui.Service.Paths.{path_at, Shows, Shows-mono}
use connman_ui.Ui.Gtk.{Gtk, show, hide}
use connman_ui.Items.Service.{GtkService}
use connman_ui.Menus.Shell.{MenuShell}
use connman_ui.Menus.Rows.{length-append}
use connman_ui.Menus.Split.{
  take, drop, take-zero, drop-zero, numbers, Absent, Unlike, Differ, insert-Absent, nil-Absent,
}
use connman_ui.Menus.Adding.{path_of, name_of, Added, add-Added}
use connman_ui.Menus.Left.{
  LeftMenu, add_or_update_service, add_services, show_more, get_services_cb,
}

module _ (gtk : Gtk) (glib : MainLoop) (menus : MenuShell) where
  abbrev M : Type 0
  M = LeftMenu gtk glib menus

  -- The widgets of the left menu before and behind its items.
  module _ (tail : List ℕ) where
    -- There is room for `room` more items behind `pre`.
    abbrev Room : ℕ → ℕ → List ℕ → Type 0
    Room zero position pre = 10 ≤ position
    Room (suc room) position pre = (suc room + position ≡ 10) × (length pre ≡ position)

    -- The loop, from a position on.
    record Filled (room position : ℕ) (pre : List ℕ) (ps : List Pointer) (ss : List String) (m : M)
        (r : ℕ × M) : Type 0 where
      left : menus.items r.1.left ≡ pre ++ (take room (numbers m.top ps) ++ tail)
      more : menus.items r.1.more ≡ menus.items m.more ++ drop room (numbers m.top ps)
      named : map (name_of gtk glib menus r.1) (numbers m.top ps) ≡ map some ss
      older : (u : ℕ) → u < m.top → name_of gtk glib menus r.1 u ≡ name_of gtk glib menus m u
      ui : r.1.ui ≡ m.ui
      alive : r.1.dead ≡ m.dead
      position_after : r.0 ≡ position + length ps

    named_step :
        (position : ℕ) (ps : List Pointer) (s : String) (ss : List String) (m m' r : M)
        → Added gtk glib menus s position m m'
        → map (name_of gtk glib menus r) (numbers m'.top ps) ≡ map some ss
        → ((u : ℕ) → u < m'.top → name_of gtk glib menus r u ≡ name_of gtk glib menus m' u)
        → map (name_of gtk glib menus r) (m.top ∷ numbers (suc m.top) ps) ≡ some s ∷ map some ss
    named_step position ps s ss m m' r a named older =
        rw (older m.top (omega (arith, a.top)), a.named)
          (ap (λ ns. some s ∷ ns)
            (ap (λ v. map (name_of gtk glib menus r) (numbers v ps)) (sym a.top) ∙ named))

    -- A service that goes to the second menu.
    far-Filled :
        (position : ℕ) (pre : List ℕ) (p : Pointer) (ps : List Pointer) (s : String)
        (ss : List String) (m m' : M) (r : ℕ × M)
        → 10 ≤ position
        → Added gtk glib menus s position m m'
        → Filled zero (position + 1) pre ps ss m' r
        → Filled zero position pre (p ∷ ps) (s ∷ ss) m r
    unfolding take drop numbers
    far-Filled position pre p ps s ss m m' r far a f =
        let appended : menus.items m'.more ≡ menus.items m.more ++ m.top ∷ [] =
          ap menus.items (ground (arith, a.more, far)) ∙ menus.items-append m.more m.top in
        record {
          left = f.left ∙ ap (λ ys. pre ++ (ys ++ tail)) (take-zero (numbers m'.top ps));
          more =
              f.more
              ∙ ap (λ ys. menus.items m'.more ++ ys)
                  (drop-zero (numbers m'.top ps) ∙ ap (λ v. numbers v ps) a.top)
              ∙ ap (λ xs. xs ++ numbers (suc m.top) ps) appended
              ∙ append_assoc (menus.items m.more) (m.top ∷ []) (numbers (suc m.top) ps);
          named = named_step position ps s ss m m' r.1 a f.named f.older;
          older = λ u less. f.older u (omega (arith, less, a.top)) ∙ a.older u less;
          ui = f.ui ∙ a.ui;
          alive = f.alive ∙ a.alive;
          position_after = omega (arith, f.position_after);
        }

    -- A service that goes to the first.
    near-Filled :
        (room position : ℕ) (pre : List ℕ) (p : Pointer) (ps : List Pointer) (s : String)
        (ss : List String) (m m' : M) (r : ℕ × M)
        → position ≤ 9
        → Added gtk glib menus s position m m'
        → Filled room (position + 1) (pre ++ m.top ∷ []) ps ss m' r
        → Filled (suc room) position pre (p ∷ ps) (s ∷ ss) m r
    unfolding take drop numbers
    near-Filled room position pre p ps s ss m m' r near a f =
        let same : m'.more ≡ m.more = ground (arith, a.more, near) in
        record {
          left =
              f.left
              ∙ ap (λ v. (pre ++ m.top ∷ []) ++ (take room (numbers v ps) ++ tail)) a.top
              ∙ append_assoc pre (m.top ∷ []) (take room (numbers (suc m.top) ps) ++ tail);
          more =
              f.more
              ∙ ap (λ v. menus.items m'.more ++ drop room (numbers v ps)) a.top
              ∙ ap (λ n. menus.items n ++ drop room (numbers (suc m.top) ps)) same;
          named = named_step position ps s ss m m' r.1 a f.named f.older;
          older = λ u less. f.older u (omega (arith, less, a.top)) ∙ a.older u less;
          ui = f.ui ∙ a.ui;
          alive = f.alive ∙ a.alive;
          position_after = omega (arith, f.position_after);
        }

    next_service :
        (p : Pointer) (ps : List Pointer) (s : String) (position : ℕ) (m : M)
        → path_at glib m.services p ≡ some s
        → add_services gtk glib menus [] (p ∷ ps) position m
          ≡ add_services gtk glib menus [] ps
              (position + 1)
              (add_or_update_service gtk glib menus true s position m)
    unfolding add_services path_at
    next_service p ps s position m e = elim (Option-cases (m.services.heap p)) [
      | inl gone ↦ absurd (ground (arith, gone, e))
      | inr (srv, found) ↦
          let same : srv.path ≡ s = ground (arith, found, e) in rw (found, same, add_services) refl
    ]

    after-Room :
        (room position v : ℕ) (pre : List ℕ)
        → Room (suc room) position pre
        → Room room (position + 1) (pre ++ v ∷ [])
    after-Room zero position v pre (sum, size) = omega (arith, sum)
    after-Room (suc room) position v pre (sum, size) =
        (omega (arith, sum), length-append pre (v ∷ []) ∙ omega (arith, size))

    inserted :
        (room position : ℕ) (pre : List ℕ) (s : String) (m m' : M)
        → Added gtk glib menus s position m m'
        → Room (suc room) position pre
        → menus.items m.left ≡ pre ++ tail
        → menus.items m'.left ≡ (pre ++ m.top ∷ []) ++ tail
    inserted room position pre s m m' a (sum, size) e =
        let near : position ≤ 9 = omega (arith, sum) in
        let here : m'.left ≡ menus.insert m.left m.top (length pre) =
          rw size (ground (arith, a.left, near)) in
        ap menus.items here
        ∙ menus.items-insert m.left m.top pre tail e
        ∙ sym (append_assoc pre (m.top ∷ []) tail)

    next-Absent :
        (s : String) (ss : List String) (position : ℕ) (m m' : M)
        → Added gtk glib menus s position m m'
        → Unlike s ss
        → Absent ss m.service_items
        → Absent ss m'.service_items
    next-Absent s ss position m m' a unlike absent =
        subst (Absent ss) (sym a.table) (insert-Absent s m.top ss m.service_items unlike absent)

    next-Shows :
        (s : String) (ps : List Pointer) (ss : List String) (position : ℕ) (m m' : M)
        → Added gtk glib menus s position m m'
        → Shows glib m.services ps ss
        → Shows glib m'.services ps ss
    next-Shows s ps ss position m m' a shows =
        Shows-mono glib m.services m'.services ps ss (λ q t e. a.paths q ∙ e) shows

    add_services-Filled :
        (room position : ℕ) (pre : List ℕ) (ps : List Pointer) (ss : List String) (m : M)
        → Shows glib m.services ps ss
        → Absent ss m.service_items
        → Differ ss
        → Room room position pre
        → menus.items m.left ≡ pre ++ tail
        → Filled room position pre ps ss m (add_services gtk glib menus [] ps position m)
    unfolding add_services numbers take drop
    add_services-Filled room position pre [] [] m shows absent differ fits e = record {
      left = e;
      more = sym (append-nil (menus.items m.more));
      named = refl;
      older = λ u less. refl;
      ui = refl;
      alive = refl;
      position_after = omega arith;
    }
    add_services-Filled room position pre [] (s ∷ ss) m shows absent differ fits e = absurd shows
    add_services-Filled room position pre (p ∷ ps) [] m shows absent differ fits e = absurd shows
    add_services-Filled zero position pre (p ∷ ps) (s ∷ ss) m (shown, shows) (new, absent)
          (unlike, differ) fits e =
        let m' = add_or_update_service gtk glib menus true s position m in
        let a = add-Added gtk glib menus s position m new in
        subst (Filled zero position pre (p ∷ ps) (s ∷ ss) m)
          (sym (next_service p ps s position m shown))
          (far-Filled position pre p ps s ss m m' _ fits a (
            add_services-Filled zero (position + 1) pre ps ss m'
              (next-Shows s ps ss position m m' a shows)
              (next-Absent s ss position m m' a unlike absent) differ (omega (arith, fits))
              (ap menus.items (ground (arith, a.left, fits)) ∙ e)))
    add_services-Filled (suc room) position pre (p ∷ ps) (s ∷ ss) m (shown, shows) (new, absent)
          (unlike, differ) fits e =
        let m' = add_or_update_service gtk glib menus true s position m in
        let a = add-Added gtk glib menus s position m new in
        subst (Filled (suc room) position pre (p ∷ ps) (s ∷ ss) m)
          (sym (next_service p ps s position m shown))
          (near-Filled room position pre p ps s ss m m' _ (omega (arith, fits.0)) a (
            add_services-Filled room (position + 1) (pre ++ m.top ∷ []) ps ss m'
              (next-Shows s ps ss position m m' a shows)
              (next-Absent s ss position m m' a unlike absent) differ
              (after-Room room position m.top pre fits)
              (inserted room position pre s m m' a fits e)))

    shown-left : (r : ℕ × M) → (show_more gtk glib menus r).left ≡ r.1.left
    unfolding show_more
    shown-left (position, m) = ground arith

    shown-more : (r : ℕ × M) → (show_more gtk glib menus r).more ≡ r.1.more
    unfolding show_more
    shown-more (position, m) = ground arith

    shown-items : (r : ℕ × M) → (show_more gtk glib menus r).items ≡ r.1.items
    unfolding show_more
    shown-items (position, m) = ground arith

    shown-dead : (r : ℕ × M) → (show_more gtk glib menus r).dead ≡ r.1.dead
    unfolding show_more
    shown-dead (position, m) = ground arith

    shown-ui :
        (r : ℕ × M) (ui : gtk.Ui) (n : ℕ)
        → r.0 ≡ 2 + n
        → r.1.ui ≡ ui
        → (show_more gtk glib menus r).ui
          ≡ (if ltb 8 n then gtk.act "cui_list_more_item" show ui else ui)
    unfolding show_more
    shown-ui (position, m) ui n e same = ground (arith, e, same)

    -- An empty left menu that is told of services whose paths differ, with memory for their items, has
    -- the items of the first eight, in their order, in the menu behind its two widgets and those of the
    -- others in the second menu; the item that leads to the second menu is shown if there are more than
    -- eight services and hidden otherwise; and no member was read of a freed service.
    pub get_services-split :
        (v w : ℕ) (p : Pointer) (ps : List Pointer) (ss : List String) (m : M)
        → connman_service_get_services glib m.services ≡ p ∷ ps
        → Shows glib m.services (p ∷ ps) ss
        → Differ ss
        → m.service_items ≡ []
        → menus.items m.left ≡ v ∷ w ∷ tail
        → menus.items m.more ≡ []
        → let r = get_services_cb gtk glib menus [] m in
          let new = numbers m.top (p ∷ ps) in
          let hidden = gtk.act "cui_list_more_item" hide m.ui in
          (menus.items r.left ≡ v ∷ w ∷ (take 8 new ++ tail))
          × (menus.items r.more ≡ drop 8 new)
          × (map (name_of gtk glib menus r) new ≡ map some ss)
          × (r.ui ≡ (
              if ltb 8 (length (p ∷ ps)) then gtk.act "cui_list_more_item" show hidden else hidden))
          × (r.dead ≡ m.dead)
    unfolding get_services_cb
    get_services-split v w p ps ss m listed shows differ table left more =
        let m1 : M = record m { ui = gtk.act "cui_list_more_item" hide m.ui } in
        let f =
          add_services-Filled 8 2 (v ∷ w ∷ []) (p ∷ ps) ss m1 shows
            (subst (Absent ss) (sym table) (nil-Absent ss)) differ (refl, refl) left in
        let r = add_services gtk glib menus [] (p ∷ ps) 2 m1 in
        let new = numbers m.top (p ∷ ps) in
        let result : get_services_cb gtk glib menus [] m ≡ show_more gtk glib menus r =
          rw (listed, get_services_cb) refl in
        (
          ap (λ n. menus.items n.left) result ∙ ap menus.items (shown-left r) ∙ f.left,
          ap (λ n. menus.items n.more) result
              ∙ ap menus.items (shown-more r)
              ∙ f.more
              ∙ ap (λ xs. xs ++ drop 8 new) more,
          ap (λ n. map (name_of gtk glib menus n) new) result
              ∙ ap
                  (λ (items : ℕ → Option (GtkService gtk glib)).
                    map (λ u. path_of gtk glib menus (items u)) new)
                  (shown-items r)
              ∙ f.named,
          ap (λ n. n.ui) result ∙ shown-ui r m1.ui (length (p ∷ ps)) f.position_after f.ui,
          ap (λ n. n.dead) result ∙ shown-dead r ∙ f.alive,
        )
