-- ===== src/Ui/Gtk.antt =====
-- What the files under src/ use of GTK, which is not part of the repository, behind an interface.
use connman_ui.Common.{ℕ, String, Bool, false, true, Option, List, str_eq, ◌≡◌, if◌then◌else◌}

-- A call of GTK on a widget; a connected handler is named by its function and its user data.
pub data Act (Pixbuf : Type 0) : Type 0 where
  set_text label_text tooltip : String → Act Pixbuf
  no_tooltip : Act Pixbuf
  sensitive visible visibility : Bool → Act Pixbuf
  pixbuf : Pixbuf → Act Pixbuf
  connect : String → String → String → Act Pixbuf
  show hide destroy : Act Pixbuf

-- gtk_entry_set_text
abbrev pub is_set_text : {Pixbuf : Type 0} → Act Pixbuf → Bool
is_set_text (set_text _) = true
is_set_text _ = false

-- The widgets of a loaded GtkBuilder, by name. Setting a toggle button gives the `toggled` signals that it
-- emits, each with the state of its button. A text that is set is the text of that entry; nothing else
-- changes the text of an entry.
pub record Gtk : Type 1 where
  pub Ui : Type 0
  pub Pixbuf : Type 0
  pub exists : String → Bool
  pub entry_text : String → Ui → String
  pub is_active : String → Ui → Bool
  pub act : String → Act Pixbuf → Ui → Ui
  pub set_active : String → Bool → Ui → List (String × Bool) × Ui
  pub load_icon : String → ℕ → Option Pixbuf
  pub gettext : String → String
  pub text-set_text :
      (m n s : String) (u : Ui)
      → entry_text n (act m (set_text s) u) ≡ (if str_eq m n then s else entry_text n u)
  pub text-act :
      (m n : String) (a : Act Pixbuf) (u : Ui)
      → is_set_text a ≡ false
      → entry_text n (act m a u) ≡ entry_text n u
  pub text-set_active :
      (m n : String) (b : Bool) (u : Ui) → entry_text n (set_active m b u).1 ≡ entry_text n u
