-- ===== src/Ui/Utils.antt =====
-- src/utils.c. A widget that the builder has not is left alone.
use connman_ui.Common.{
  String, Bool, true, false, Option, none, some, List, [], ◌≡◌, str_eq, if◌then◌else◌, arith, refl,
}
use connman_ui.Ui.Gtk.{
  Gtk, Act, is_set_text, set_text, label_text, tooltip, no_tooltip, sensitive, visible, pixbuf,
  connect, show, hide,
}

-- `if (value == NULL) value = default_value;`
abbrev pub or_default : Option String → String → String
or_default none d = d
or_default (some s) d = s

module _ (gtk : Gtk) where
  open gtk use {Ui, Pixbuf, exists, act, entry_text}

  abbrev with_object : String → Act Pixbuf → Ui → Ui
  with_object name a u = if exists name then act name a u else u

  unfoldable pub set_label : String → Option String → String → Ui → Ui
  set_label name value default_value =
      with_object name (label_text (or_default value default_value))

  unfoldable pub set_entry : String → Option String → String → Ui → Ui
  set_entry name value default_value = with_object name (set_text (or_default value default_value))

  unfoldable pub set_widget_sensitive : String → Bool → Ui → Ui
  set_widget_sensitive name value = with_object name (sensitive value)

  unfoldable pub set_widget_hidden : String → Bool → Ui → Ui
  set_widget_hidden name value u =
      with_object name (if value then hide else show) (with_object name (visible value) u)

  -- The signals that it emits, and the widgets.
  unfoldable pub set_button_toggle : String → Bool → Ui → List (String × Bool) × Ui
  set_button_toggle name active u = if exists name then gtk.set_active name active u else ([], u)

  abbrev info_text : Option String → Act Pixbuf
  info_text none = no_tooltip
  info_text (some s) = tooltip s

  unfoldable pub set_image : String → Option Pixbuf → Option String → Ui → Ui
  set_image name none info u = with_object name (visible false) u
  set_image name (some image) info u =
      with_object name (pixbuf image)
        (with_object name (info_text info) (with_object name (visible true) u))

  unfoldable pub set_signal_callback : String → String → String → String → Ui → Ui
  set_signal_callback name signal_name handler user_data =
      with_object name (connect signal_name handler user_data)

  unfoldable pub get_entry_text : String → Ui → Option String
  get_entry_text name u = if exists name then some (entry_text name u) else none

  -- What these do to the texts of the entries.
  text-with_object :
      (m n : String) (a : Act Pixbuf) (u : Ui)
      → is_set_text a ≡ false
      → entry_text n (with_object m a u) ≡ entry_text n u
  text-with_object m n a u h = ground (arith, gtk.text-act m n a u h)

  pub text-set_entry :
      (m n : String) (value : Option String) (d : String) (u : Ui)
      → exists m ≡ true
      → entry_text n (set_entry m value d u)
        ≡ (if str_eq m n then or_default value d else entry_text n u)
  unfolding set_entry
  text-set_entry m n value d u h = ground (arith, h, gtk.text-set_text m n (or_default value d) u)

  pub text-set_label :
      (m n : String) (value : Option String) (d : String) (u : Ui)
      → entry_text n (set_label m value d u) ≡ entry_text n u
  unfolding set_label
  text-set_label m n value d u = text-with_object m n (label_text (or_default value d)) u refl

  pub text-set_widget_sensitive :
      (m n : String) (b : Bool) (u : Ui)
      → entry_text n (set_widget_sensitive m b u) ≡ entry_text n u
  unfolding set_widget_sensitive
  text-set_widget_sensitive m n b u = text-with_object m n (sensitive b) u refl

  pub text-set_button_toggle :
      (m n : String) (b : Bool) (u : Ui) → entry_text n (set_button_toggle m b u).1 ≡ entry_text n u
  unfolding set_button_toggle
  text-set_button_toggle m n b u = ground (arith, gtk.text-set_active m n b u)
