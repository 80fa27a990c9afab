-- ===== src/Menus/Adding.antt =====
-- What a new item does to the left menu.
use connman_ui.Common.{
  ℕ, suc, ◌<◌, ◌≡◌, refl, String, true, Option, none, some, Option-cases, inl, inr, ==_iff,
  if◌then◌else◌, ltb, arith,
}
use connman_ui.Common.Table.{lookup, insert}
use connman_ui.MainLoop.{MainLoop}
use connman_ui.Service.State.{World, Pointer, get_service}
use connman_ui.Service.Paths.{path_at, path_at-modify}
use connman_ui.Ui.Gtk.{Gtk}
use connman_ui.Service.Access.{modify_at, connman_service_set_property_changed_callback}
use connman_ui.Items.Service.{
  GtkService, gtk_service_new, changed_cb, gtk_service_init, service_set_name, service_set_state,
  service_set_signal,
}
use connman_ui.Menus.Shell.{MenuShell}
use connman_ui.Menus.Left.{
  LeftMenu, write_item, drop_old, place_item, insert_item, add_or_update_service,
}

module _ (gtk : Gtk) (glib : MainLoop) (menus : MenuShell) where
  abbrev M : Type 0
  M = LeftMenu gtk glib menus

  -- The path of an item.
  abbrev pub path_of : Option (GtkService gtk glib) → Option String
  path_of none = none
  path_of (some s) = some s.path

  abbrev pub name_of : M → ℕ → Option String
  name_of m u = path_of (m.items u)

  changed-path_at :
      (path : String) (v : ℕ) (w : World glib) (q : Pointer)
      → path_at glib
          (connman_service_set_property_changed_callback glib path (some changed_cb) v w)
          q
        ≡ path_at glib w q
  unfolding connman_service_set_property_changed_callback modify_at
  changed-path_at path v w q = elim (Option-cases (get_service glib path w)) [
    | inl gone ↦ rw (gone, connman_service_set_property_changed_callback, modify_at) refl
    | inr (p, found) ↦
        rw (found, connman_service_set_property_changed_callback, modify_at)
          (path_at-modify glib p q _ w (λ s. refl))
  ]

  set_state-path :
      (w : World glib) (s : GtkService gtk glib) → (service_set_state gtk glib w s).path ≡ s.path
  unfolding service_set_state
  set_state-path w s = ground arith

  written-name :
      (v : ℕ) (s : GtkService gtk glib) (path : String) (items : ℕ → Option (GtkService gtk glib))
      → s.path ≡ path
      → path_of (write_item gtk glib menus v s items v) ≡ some path
  written-name v s path items same = ground (arith, ==_iff v v, same)

  kept-name :
      (v u : ℕ) (s : GtkService gtk glib) (items : ℕ → Option (GtkService gtk glib))
      → u < v
      → path_of (write_item gtk glib menus v s items u) ≡ path_of (items u)
  kept-name v u s items less = ground (arith, ==_iff v u, less)

  -- What a new item leaves alone, and what it makes of the rest, where its path is new.
  pub record Added (path : String) (position : ℕ) (m m' : M) : Type 0 where
    pub ui : m'.ui ≡ m.ui
    pub top : m'.top ≡ suc m.top
    pub left : m'.left ≡ (if ltb 9 position then m.left else menus.insert m.left m.top position)
    pub more : m'.more ≡ (if ltb 9 position then menus.append m.more m.top else m.more)
    pub table : m'.service_items ≡ insert path m.top m.service_items
    pub named : name_of m' m.top ≡ some path
    pub older : (u : ℕ) → u < m.top → name_of m' u ≡ name_of m u
    pub alive : m'.dead ≡ m.dead
    pub paths : (q : Pointer) → path_at glib m'.services q ≡ path_at glib m.services q

  place-Added :
      (s : GtkService gtk glib) (w : World glib) (path : String) (position : ℕ) (m : M)
      → s.path ≡ path
      → ((q : Pointer) → path_at glib w q ≡ path_at glib m.services q)
      → Added path position m (record (place_item gtk glib menus s w position m) {
        service_items = insert path m.top m.service_items;
      })
  unfolding place_item
  place-Added s w path position m same shown = record {
    ui = refl;
    top = refl;
    left = refl;
    more = refl;
    table = refl;
    named = written-name m.top s path m.items same;
    older = λ u. kept-name m.top u s m.items;
    alive = refl;
    paths = shown;
  }

  pub add-Added :
      (path : String) (position : ℕ) (m : M)
      → lookup path m.service_items ≡ none
      → Added path position m (add_or_update_service gtk glib menus true path position m)
  unfolding add_or_update_service insert_item place_item gtk_service_new drop_old service_set_signal
      service_set_name gtk_service_init
  add-Added path position m new =
      let w =
        connman_service_set_property_changed_callback glib path (some changed_cb) m.top
          m.services in
      let s = service_set_name gtk glib w (gtk_service_init gtk glib path) in
      rw new (
        place-Added (service_set_signal gtk glib w (service_set_state gtk glib w s)) w path position
          m (set_state-path w s) (changed-path_at path m.top m.services))
