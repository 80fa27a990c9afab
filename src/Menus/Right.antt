-- ===== src/Menus/Right.antt =====
-- src/right-menu.c: the menu of the technologies.
use connman_ui.Common.{
  ℕ, suc, ◌-◌, ◌+◌, String, Bool, true, false, Option, none, some, List, [], ◌∷◌, ◌==◌,
  if◌then◌else◌,
}
use connman_ui.Common.Table.{Table, lookup, insert, remove}
use connman_ui.MainLoop.{MainLoop}
use connman_ui.Technology.State.{World}
use connman_ui.Technology.Access.{
  connman_technology_get_technologies, connman_technology_set_removed_callback,
  connman_technology_set_added_callback,
}
use connman_ui.Ui.Gtk.{Gtk, show, hide}
use connman_ui.Ui.Utils.{set_widget_hidden}
use connman_ui.Items.Technology.{GtkTechnology, gtk_technology_new, gtk_technology_destroy}
use connman_ui.Menus.Shell.{MenuShell}

-- The callbacks of the file that lib/technology.c may hold.
abbrev removed_cb : ℕ
removed_cb = 21

abbrev added_cb : ℕ
added_cb = 22

module _ (gtk : Gtk) (glib : MainLoop) (menus : MenuShell) where
  open menus use {Menu}

  -- The variables of the file. `items` has the items that were made, all below `top`; the item of the
  -- tethering menu goes by the number of its technology's. `dead` is a member read through NULL.
  pub record RightMenu : Type 0 where
    pub ui : gtk.Ui
    pub right : Menu
    pub tethering : Menu
    pub tech_items : Table ℕ
    pub item_position : ℕ
    pub disabled : Bool
    pub items : ℕ → Option GtkTechnology
    pub top : ℕ
    pub dead : Bool
    pub technologies : World glib

  abbrev pub write_item : ℕ → GtkTechnology → (ℕ → Option GtkTechnology) → ℕ → Option GtkTechnology
  write_item v t items u = if v == u then some t else items u

  -- gtk_widget_destroy of an item, whose own destroy function takes its tethering item with it.
  unfoldable pub destroy_item : ℕ → RightMenu → RightMenu
  unfolding gtk_technology_destroy
  destroy_item v m = elim (m.items v) [
    | none ↦ m
    | some t ↦
        let (t', w) = gtk_technology_destroy glib v t m.technologies in
        record m {
          items = write_item v t' m.items;
          tethering = menus.destroy m.tethering v;
          technologies = w;
        }
  ]

  unfoldable pub delete_technology_item : ℕ → RightMenu → RightMenu
  unfolding destroy_item
  delete_technology_item v m =
      let m' = destroy_item v m in
      record m' { right = menus.destroy m'.right v; item_position = m'.item_position - 1 }

  -- What g_hash_table_insert and g_hash_table_remove do with the item that the path had.
  unfoldable pub drop_old : Option ℕ → RightMenu → RightMenu
  unfolding delete_technology_item
  drop_old none m = m
  drop_old (some old) m = delete_technology_item old m

  unfoldable pub insert_item : String → ℕ → RightMenu → RightMenu
  unfolding insert lookup drop_old
  insert_item path v m =
      drop_old (lookup path m.tech_items) (record m { tech_items = insert path v m.tech_items })

  -- The new item in the two menus.
  unfoldable pub place_item : GtkTechnology → World glib → RightMenu → RightMenu
  place_item t w m = record m {
    items = write_item m.top t m.items;
    top = suc m.top;
    technologies = w;
    right = menus.insert m.right m.top m.item_position;
    tethering = menus.append m.tethering m.top;
    item_position = m.item_position + 1;
  }

  -- `made` is whether there is memory for the item.
  unfoldable pub add_technology : Bool → String → RightMenu → RightMenu
  unfolding gtk_technology_new insert_item place_item
  add_technology made path m =
      let (item, w) = gtk_technology_new glib gtk.gettext made path m.top m.technologies in
      elim item [
        | none ↦ record m { dead = true }
        | some t ↦ insert_item path m.top (place_item t w m)
      ]

  unfoldable pub technology_added_cb : Bool → String → RightMenu → RightMenu
  unfolding add_technology
  technology_added_cb = add_technology

  unfoldable pub technology_removed_cb : String → RightMenu → RightMenu
  unfolding lookup remove drop_old
  technology_removed_cb path m =
      drop_old (lookup path m.tech_items) (record m { tech_items = remove path m.tech_items })

  unfoldable pub add_all : List Bool → List String → RightMenu → RightMenu
  unfolding add_technology
  add_all _ [] m = m
  add_all [] (path ∷ paths) m = add_all [] paths (add_technology true path m)
  add_all (made ∷ rest) (path ∷ paths) m = add_all rest paths (add_technology made path m)

  -- `offlinemode` is what connman_manager_get_offlinemode gives, `made` the memory for the items.
  unfoldable pub show_offlinemode : Bool → gtk.Ui → gtk.Ui
  show_offlinemode offlinemode ui =
      let on : String = "cui_item_offlinemode_on" in
      let off : String = "cui_item_offlinemode_off" in
      let shown = if offlinemode then on else off in
      let hidden = if offlinemode then off else on in gtk.act hidden hide (gtk.act shown show ui)

  -- The part that a disabled menu skips.
  unfoldable pub fill_menu : List Bool → gtk.Ui → RightMenu → RightMenu
  unfolding add_all connman_technology_get_technologies
  fill_menu made ui m =
      if m.disabled
      then m
      else add_all made (connman_technology_get_technologies glib m.technologies)
          (record m { ui = ui })

  unfoldable pub cui_popup_right_menu : Bool → List Bool → RightMenu → RightMenu
  unfolding fill_menu show_offlinemode connman_technology_set_removed_callback
      connman_technology_set_added_callback
  cui_popup_right_menu offlinemode made m =
      let filled = fill_menu made (show_offlinemode offlinemode m.ui) m in
      record filled {
        technologies =
            connman_technology_set_added_callback glib (some added_cb)
              (connman_technology_set_removed_callback glib (some removed_cb) filled.technologies);
      }

  unfoldable pub delete_all : Table ℕ → RightMenu → RightMenu
  unfolding delete_technology_item
  delete_all [] m = m
  delete_all ((path, v) ∷ rest) m = delete_all rest (delete_technology_item v m)

  -- g_hash_table_remove_all at the end.
  unfoldable pub cui_popdown_right_menu : RightMenu → RightMenu
  unfolding delete_all connman_technology_set_removed_callback connman_technology_set_added_callback
  cui_popdown_right_menu m = delete_all m.tech_items (record m {
    technologies =
        connman_technology_set_added_callback glib none
          (connman_technology_set_removed_callback glib none m.technologies);
    tech_items = [];
  })

  unfoldable pub cui_enable_item : Bool → RightMenu → RightMenu
  unfolding set_widget_hidden
  cui_enable_item enable m =
      let set = λ (name : String) (u : gtk.Ui). set_widget_hidden gtk name enable u in
      record m {
        ui = set_widget_hidden gtk "cui_item_quit" false (
            set "cui_sep_tethering" (
              set "cui_item_tethering" (
                set "cui_sep_technology_down" (
                  set "cui_sep_technology_up"
                    (set "cui_item_offlinemode_off" (set "cui_item_offlinemode_on" m.ui))))));
        disabled = enable;
      }

  unfoldable pub cui_right_menu_enable_only_quit : RightMenu → RightMenu
  unfolding cui_enable_item
  cui_right_menu_enable_only_quit = cui_enable_item true

  unfoldable pub cui_right_menu_enable_all : RightMenu → RightMenu
  unfolding cui_enable_item
  cui_right_menu_enable_all = cui_enable_item false

  -- What happens to the menu: it opens and closes, and lib/technology.c tells of technologies.
  pub data Event : Type 0 where
    popup : Bool → List Bool → Event
    popdown enable_all enable_only_quit : Event
    added : Bool → String → Event
    removed : String → Event

  unfoldable pub step : Event → RightMenu → RightMenu
  unfolding cui_popup_right_menu cui_popdown_right_menu cui_right_menu_enable_all
      cui_right_menu_enable_only_quit technology_added_cb technology_removed_cb
  step (popup offlinemode made) m = cui_popup_right_menu offlinemode made m
  step popdown m = cui_popdown_right_menu m
  step enable_all m = cui_right_menu_enable_all m
  step enable_only_quit m = cui_right_menu_enable_only_quit m
  step (added made path) m = technology_added_cb made path m
  step (removed path) m = technology_removed_cb path m

  unfoldable pub run : List Event → RightMenu → RightMenu
  unfolding step
  run [] m = m
  run (e ∷ es) m = run es (step e m)
