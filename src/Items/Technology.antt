-- ===== src/Items/Technology.antt =====
-- src/gtktechnology.c: the item of a technology in the right menu.
use connman_ui.Common.{
  ℕ, String, Bool, true, false, not, ◌==◌, Option, none, some, is_ok, str_eq, if◌then◌else◌,
}
use connman_ui.MainLoop.{MainLoop}
use connman_ui.Technology.State.{World, Answers}
use connman_ui.Technology.Access.{
  connman_technology_set_property_changed_callback, connman_technology_set_property_error_callback,
  connman_technology_get_name, connman_technology_get_type, connman_technology_is_enabled,
  connman_technology_is_tethering,
}
use connman_ui.Technology.Setting.{connman_technology_enable, connman_technology_tether}
use connman_ui.Ui.Gtk.{Gtk}
use connman_ui.Ui.Tray.{Signals}
use connman_ui.Ui.Theme.{is_text}
use connman_ui.Dialogs.State.{Dialogs}
use connman_ui.Dialogs.Tethering.{cui_agent_set_wifi_tethering_settings}

-- The callbacks of the file that lib/technology.c may hold.
abbrev pub changed_cb : ℕ
changed_cb = 11

abbrev pub error_cb : ℕ
error_cb = 12

-- The check item of the tethering menu, with the name in "via: %s".
pub record CheckItem : Type 0 where
  pub label : Option String
  pub active : Bool
  pub sensitive : Bool

-- struct _GtkTechnology and its private part: the properties of its widgets that the file sets. `bold` is
-- the markup "<b>%s</b>" of the name.
pub record GtkTechnology : Type 0 where
  pub path : String
  pub enabler_active : Bool
  pub enabler_sensitive : Bool
  pub name : Option String
  pub bold : Bool
  pub hint : String
  pub tethering : Option CheckItem

-- gtk_technology_init, after which the path is written.
unfoldable pub gtk_technology_init : String → GtkTechnology
gtk_technology_init path = record {
  path = path;
  enabler_active = false;
  enabler_sensitive = true;
  name = none;
  bold = false;
  hint = "";
  tethering = none;
}

abbrev on_check : (CheckItem → CheckItem) → GtkTechnology → GtkTechnology
on_check f t = record t { tethering = elim t.tethering [ none ↦ none | some c ↦ some (f c) ] }

module _ (glib : MainLoop) where
  unfoldable pub set_technology_name : World glib → Bool → GtkTechnology → GtkTechnology
  unfolding connman_technology_get_name
  set_technology_name w enabled t = record t {
    name = connman_technology_get_name glib t.path w;
    bold = enabled;
  }

  unfoldable pub technology_property_changed_cb :
      World glib → String → String → GtkTechnology → GtkTechnology
  unfolding set_technology_name connman_technology_is_enabled connman_technology_is_tethering
  technology_property_changed_cb w path property t =
      let enabled = connman_technology_is_enabled glib path w in
      if str_eq property "Powered"
      then set_technology_name w enabled (
          on_check (λ c. record c { sensitive = enabled })
            (record t { enabler_active = enabled; enabler_sensitive = true }))
      else if str_eq property "Tethering"
      then on_check
          (λ c. record c {
            active = connman_technology_is_tethering glib path w;
            sensitive = enabled;
          })
          t
      else t

  -- `widget` is the new item, `made` whether there is memory for it.
  unfoldable pub gtk_technology_new :
      (String → String) → Bool → String → ℕ → World glib → Option GtkTechnology × World glib
  unfolding gtk_technology_init set_technology_name connman_technology_set_property_changed_callback
      connman_technology_set_property_error_callback connman_technology_get_type
      connman_technology_get_name connman_technology_is_enabled connman_technology_is_tethering
  gtk_technology_new gettext false path widget w = (none, w)
  gtk_technology_new gettext true path widget w =
      let w' =
        connman_technology_set_property_error_callback glib path (some error_cb) widget
          (connman_technology_set_property_changed_callback glib path (some changed_cb) widget w) in
      let hint =
        if is_text (connman_technology_get_type glib path w') "wifi"
        then gettext "Left click to enable/disable\nRight click to set tethering information"
        else gettext "Left to enable/disable" in
      let enabled = connman_technology_is_enabled glib path w' in
      let check : CheckItem = record {
        label = connman_technology_get_name glib path w';
        active = connman_technology_is_tethering glib path w';
        sensitive = enabled;
      } in
      let t : GtkTechnology = record (gtk_technology_init path) {
        hint = hint;
        enabler_active = enabled;
        tethering = some check;
      } in
      (some (set_technology_name w' enabled t), w')

  unfoldable pub gtk_technology_destroy :
      ℕ → GtkTechnology → World glib → GtkTechnology × World glib
  unfolding connman_technology_set_property_changed_callback
      connman_technology_set_property_error_callback
  gtk_technology_destroy widget t w = (
    record t { tethering = none },
    connman_technology_set_property_error_callback glib t.path none widget
        (connman_technology_set_property_changed_callback glib t.path none widget w),
  )

  unfoldable pub gtk_technology_tethering_button :
      Answers → ℕ → GtkTechnology → World glib → GtkTechnology × World glib
  unfolding connman_technology_tether
  gtk_technology_tethering_button answers button t w = elim t.tethering [
    | none ↦ (t, w)
    | some c ↦
        if button == 1
        then (
          record t { tethering = some (record c { sensitive = false; active = not c.active }) },
          (connman_technology_tether glib answers t.path (not c.active) w).1,
        )
        else (t, w)
  ]

  -- The third button also activates the item in its menu, which is left to GTK.
  unfoldable pub gtk_technology_button_release_event :
      (gtk : Gtk) (signals : Signals)
      → Answers
      → ℕ
      → GtkTechnology
      → Dialogs gtk glib signals
      → GtkTechnology × Dialogs gtk glib signals
  unfolding connman_technology_enable connman_technology_get_type
      cui_agent_set_wifi_tethering_settings
  gtk_technology_button_release_event gtk signals answers button t d =
      if button == 3
      then (
        t,
        if is_text (connman_technology_get_type glib t.path d.technologies) "wifi"
            then cui_agent_set_wifi_tethering_settings gtk glib signals answers (some t.path) t.path
                false d
            else d,
      )
      else if button == 1
      then (let (ret, w) =
            connman_technology_enable glib answers t.path (not t.enabler_active) d.technologies in
          (
            if is_ok ret then record t { enabler_sensitive = false } else t,
            record d { technologies = w },
          ))
      else (t, d)
