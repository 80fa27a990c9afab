-- ===== src/Examples/Widgets.antt =====
-- Widgets whose entries are a function from names to texts, and a status icon that keeps its handlers as
-- Examples.Timeouts keeps timeouts.
use connman_ui.Common.{
  ℕ, ◌≡◌, refl, ◌∙◌, ap, String, Bool, true, false, Option, none, some, [], ◌==◌, str_eq,
  if◌then◌else◌,
}
use connman_ui.MainLoop.{PropertyChange}
use connman_ui.Examples.Timeouts.{Timeouts, timeouts}
use connman_ui.Ui.Gtk.{Gtk, Act, is_set_text, set_text}
use connman_ui.Ui.Gtk
use connman_ui.Ui.Tray.{Signals, Tray}

abbrev pub Texts : Type 0
Texts = String → String

abbrev act : String → Act ℕ → Texts → Texts
act m (set_text s) u n = if str_eq m n then s else u n
act m _ u n = u n

pub text-act : (m n : String) (a : Act ℕ) (u : Texts) → is_set_text a ≡ false → act m a u n ≡ u n
text-act m n (set_text s) u h = absurd (cc h)
text-act m n (Gtk.label_text s) u h = refl
text-act m n (Gtk.tooltip s) u h = refl
text-act m n Gtk.no_tooltip u h = refl
text-act m n (Gtk.sensitive b) u h = refl
text-act m n (Gtk.visible b) u h = refl
text-act m n (Gtk.visibility b) u h = refl
text-act m n (Gtk.pixbuf p) u h = refl
text-act m n (Gtk.connect s f x) u h = refl
text-act m n Gtk.show u h = refl
text-act m n Gtk.hide u h = refl
text-act m n Gtk.destroy u h = refl

-- The passphrase button is the one that is pressed.
abbrev pub widgets : Gtk
widgets = record {
  Ui = Texts;
  Pixbuf = ℕ;
  exists = λ n. true;
  entry_text = λ n u. u n;
  is_active = λ n u. str_eq n "passphrase_button";
  act = act;
  set_active = λ n b u. ([], u);
  load_icon = λ name size. none;
  gettext = λ s. s;
  text-set_text = λ m n s u. refl;
  text-act = text-act;
  text-set_active = λ m n b u. refl;
}

abbrev handler_of : Option PropertyChange → Option String
handler_of none = none
handler_of (some p) = some p.name

abbrev named : String → PropertyChange
named s = record { index = 0; path = ""; name = s; error = false }

handler_of-if :
    (b : Bool) (o o' : Option PropertyChange)
    → handler_of (if b then o else o') ≡ (if b then handler_of o else handler_of o')
handler_of-if true o o' = refl
handler_of-if false o o' = refl

pub handler-connect :
    (c : Timeouts) (s : String) (i : ℕ)
    → handler_of (timeouts.find (timeouts.add c (named s)).1 i)
      ≡ (if (timeouts.add c (named s)).0 == i then some s else handler_of (timeouts.find c i))
handler-connect c s i =
    ap handler_of (timeouts.find-add c (named s) i)
    ∙ handler_of-if ((timeouts.add c (named s)).0 == i) (some (named s)) (timeouts.find c i)

pub handler-disconnect :
    (c : Timeouts) (i j : ℕ)
    → handler_of (timeouts.find (timeouts.remove c i) j)
      ≡ (if i == j then none else handler_of (timeouts.find c j))
handler-disconnect c i j =
    ap handler_of (timeouts.find-remove c i j) ∙ handler_of-if (i == j) none (timeouts.find c j)

abbrev pub icon_signals : Signals
icon_signals = record {
  Icon = Timeouts;
  handler = λ c i. handler_of (timeouts.find c i);
  connect = λ c s. timeouts.add c (named s);
  disconnect = timeouts.remove;
  handler_zero = λ c. ap handler_of (timeouts.find_zero c);
  connect_pos = λ c s. timeouts.add_pos c (named s);
  connect_fresh = λ c s. ap handler_of (timeouts.add_fresh c (named s));
  handler-connect = handler-connect;
  handler-disconnect = handler-disconnect;
}

abbrev pub fresh_tray : Tray icon_signals
fresh_tray = record {
  icon = [];
  popup_left_menu_f = some "cui_popup_left_menu";
  popup_rigt_menu_f = some "cui_popup_right_menu";
  left_menu_handler_id = 0;
  right_menu_handler_id = 0;
}
