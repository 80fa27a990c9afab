-- ===== src/Ui/Theme.antt =====
-- src/theme.c: the icon of a state, a type or a signal strength, and its text. Where the caller wants but
-- one of the two it drops the other.
use connman_ui.Common.{
  ℕ, String, Bool, false, Option, none, some, not, ◌&&◌, ltb, str_eq, if◌then◌else◌,
}
use connman_ui.Manager.State.{ConnmanState, unknown, ready, online}
use connman_ui.Ui.Gtk.{Gtk}

-- g_strcmp0(text, literal) == 0
abbrev pub is_text : Option String → String → Bool
is_text none literal = false
is_text (some s) literal = str_eq s literal

module _ (gtk : Gtk) where
  open gtk use {Pixbuf, load_icon, gettext}

  abbrev pub Look : Type 0
  Look = Option Pixbuf × Option String

  abbrev look : String → ℕ → String → Look
  look icon size info = (load_icon icon size, some (gettext info))

  unfoldable pub cui_theme_get_type_icone_and_info : Option String → Look
  cui_theme_get_type_icone_and_info type =
      if is_text type "ethernet"
      then look "network-wired-symbolic" 22 "Ethernet"
      else if is_text type "cellular"
      then look "gsm-3g-full" 22 "Cellular"
      else (none, none)

  unfoldable pub cui_theme_get_signal_icone_and_info : ℕ → Look
  cui_theme_get_signal_icone_and_info signal_strength =
      if not (ltb signal_strength 80)
      then look "network-wireless-signal-excellent-symbolic" 22 "Very good signal"
      else if not (ltb signal_strength 60) && ltb signal_strength 80
      then look "network-wireless-signal-good-symbolic" 22 "Good signal"
      else if not (ltb signal_strength 40) && ltb signal_strength 60
      then look "network-wireless-signal-ok-symbolic" 22 "Low signal"
      else look "network-wireless-signal-weak-symbolic" 22 "Very low signal"

  unfoldable pub cui_theme_get_state_icone_and_info : ConnmanState → Look
  cui_theme_get_state_icone_and_info unknown =
      look "network-offline-symbolic" 24 "Connman is not running"
  cui_theme_get_state_icone_and_info ready = look "network-idle-symbolic" 24 "Connected"
  cui_theme_get_state_icone_and_info online = look "network-transmit-receive-symbolic" 24 "Online"
  cui_theme_get_state_icone_and_info _ = look "network-offline-symbolic" 24 "Disconnected"
