-- ===== src/Menus/Left.antt =====
-- src/left-menu.c: the menu of the services.
use connman_ui.Common.{
  ℕ, suc, ◌+◌, String, Bool, true, false, Option, none, some, List, [], ◌∷◌, ltb, ◌==◌,
  if◌then◌else◌,
}
use connman_ui.Common.Table.{Table, lookup, insert, remove}
use connman_ui.MainLoop.{MainLoop}
use connman_ui.Technology.State
use connman_ui.Service.State.{World, Pointer}
use connman_ui.Service.Life.{
  connman_service_get_services, connman_service_free_services_list,
  connman_service_refresh_services_list,
}
use connman_ui.Service.Access.{connman_service_set_removed_callback}
use connman_ui.Ui.Gtk.{Gtk, show, hide}
use connman_ui.Items.Service.{GtkService, gtk_service_new, gtk_service_destroy}
use connman_ui.Menus.Shell.{MenuShell}

-- The callbacks of the file that lib/service.c may hold.
abbrev removed_cb : ℕ
removed_cb = 41

abbrev refreshed_cb : ℕ
refreshed_cb = 42

abbrev scanned_cb : ℕ
scanned_cb = 43

module _ (gtk : Gtk) (glib : MainLoop) (menus : MenuShell) where
  open menus use {Menu}

  -- The variables of the file. `items` has the items that were made, all below `top`; `spinning` is what
  -- gtk_spinner_start and gtk_spinner_stop set. `dead` is a member read through NULL or of a freed
  -- service.
  pub record LeftMenu : Type 0 where
    pub ui : gtk.Ui
    pub left : Menu
    pub more : Menu
    pub service_items : Table ℕ
    pub spinning : Bool
    pub items : ℕ → Option (GtkService gtk glib)
    pub top : ℕ
    pub dead : Bool
    pub services : World glib
    pub technologies : State.World glib

  abbrev pub write_item :
      ℕ
      → GtkService gtk glib
      → (ℕ → Option (GtkService gtk glib))
      → ℕ
      → Option (GtkService gtk glib)
  write_item v s items u = if v == u then some s else items u

  unfoldable pub delete_service_item : ℕ → LeftMenu → LeftMenu
  unfolding gtk_service_destroy
  delete_service_item v m = elim (m.items v) [
    | none ↦ m
    | some s ↦
        let (w, t) = gtk_service_destroy gtk glib v s m.services m.technologies in
        record m {
          left = menus.destroy m.left v;
          more = menus.destroy m.more v;
          services = w;
          technologies = t;
        }
  ]

  -- What g_hash_table_insert and g_hash_table_remove do with the item that the path had.
  unfoldable pub drop_old : Option ℕ → LeftMenu → LeftMenu
  unfolding delete_service_item
  drop_old none m = m
  drop_old (some old) m = delete_service_item old m

  -- The new item in one of the menus.
  unfoldable pub place_item : GtkService gtk glib → World glib → ℕ → LeftMenu → LeftMenu
  place_item s w position m =
      let far = ltb 9 position in
      record m {
        items = write_item m.top s m.items;
        top = suc m.top;
        services = w;
        left = if far then m.left else menus.insert m.left m.top position;
        more = if far then menus.append m.more m.top else m.more;
      }

  unfoldable pub insert_item : String → ℕ → LeftMenu → LeftMenu
  unfolding insert lookup drop_old
  insert_item path v m =
      drop_old (lookup path m.service_items)
        (record m { service_items = insert path v m.service_items })

  -- `made` is whether there is memory for the item.
  unfoldable pub add_or_update_service : Bool → String → ℕ → LeftMenu → LeftMenu
  unfolding gtk_service_new place_item insert_item
  add_or_update_service made path position m =
      let (item, w) = gtk_service_new gtk glib made path m.top m.services in
      elim item [
        | none ↦ record m { dead = true }
        | some s ↦ insert_item path m.top (place_item s w position m)
      ]

  unfoldable pub remove_service_cb : String → LeftMenu → LeftMenu
  unfolding lookup remove drop_old
  remove_service_cb path m =
      drop_old (lookup path m.service_items)
        (record m { service_items = remove path m.service_items })

  -- The loop over the services, whose paths are read through the pointers to them. It ends where it reads
  -- a freed one. The position goes with it.
  unfoldable pub add_services : List Bool → List Pointer → ℕ → LeftMenu → ℕ × LeftMenu
  unfolding add_or_update_service
  add_services made [] position m = (position, m)
  add_services [] (p ∷ ps) position m = elim (m.services.heap p) [
    | none ↦ (position, record m { dead = true })
    | some s ↦ add_services [] ps (position + 1) (add_or_update_service true s.path position m)
  ]
  add_services (made ∷ rest) (p ∷ ps) position m = elim (m.services.heap p) [
    | none ↦ (position, record m { dead = true })
    | some s ↦ add_services rest ps (position + 1) (add_or_update_service made s.path position m)
  ]

  unfoldable pub show_more : ℕ × LeftMenu → LeftMenu
  show_more (position, m) =
      if ltb 10 position then record m { ui = gtk.act "cui_list_more_item" show m.ui } else m

  unfoldable pub get_services_cb : List Bool → LeftMenu → LeftMenu
  unfolding connman_service_get_services add_services show_more
  get_services_cb made m = elim (connman_service_get_services glib m.services) [
    | [] ↦ m
    | p ∷ ps ↦
        show_more
          (add_services made (p ∷ ps) 2 (record m { ui = gtk.act "cui_list_more_item" hide m.ui }))
  ]

  -- `spin` is the child of the item, which has no name of its own.
  unfoldable pub scanning_cb : LeftMenu → LeftMenu
  scanning_cb m = record m {
    spinning = false;
    ui = gtk.act "spin" hide (gtk.act "cui_scan_spinner" hide m.ui);
  }

  unfoldable pub cui_popup_left_menu : ℕ → LeftMenu → LeftMenu
  unfolding connman_service_set_removed_callback connman_service_refresh_services_list
  cui_popup_left_menu user_data m = record m {
    ui =
        gtk.act "spin" show
          (gtk.act "cui_scan_spinner" show (gtk.act "cui_list_more_item" hide m.ui));
    spinning = true;
    services =
        (connman_service_refresh_services_list glib m.technologies (some refreshed_cb)
          (some scanned_cb) user_data
          (connman_service_set_removed_callback glib (some removed_cb) m.services)).1;
  }

  unfoldable pub delete_all : Table ℕ → LeftMenu → LeftMenu
  unfolding delete_service_item
  delete_all [] m = m
  delete_all ((path, v) ∷ rest) m = delete_all rest (delete_service_item v m)

  unfoldable pub cui_popdown_left_menu : LeftMenu → LeftMenu
  unfolding delete_all connman_service_set_removed_callback connman_service_free_services_list
  cui_popdown_left_menu m =
      let emptied = delete_all m.service_items (record m {
        services = connman_service_set_removed_callback glib none m.services;
        service_items = [];
      }) in
      record emptied { services = connman_service_free_services_list glib emptied.services }
