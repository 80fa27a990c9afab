-- ===== src/Settings/RoundTrip.antt =====
-- src/settings.c shows the configuration of IPv6 so that it can be read back.
use connman_ui.Common.{◌<◌, ◌≡◌, ◌∙◌, String, true, Option, none, some}
use mathlib.Core.Path.{sym, subst}
use connman_ui.MainLoop.{MainLoop}
use connman_ui.Service.State.{Answers, Ipv6}
use connman_ui.Service.Access.{connman_service_get_ipv6, connman_service_get_ipv6_config}
use connman_ui.Ui.Gtk.{Gtk}
use connman_ui.Ui.Tray.{Signals}
use connman_ui.Ui.Decimal.{snprintf_6}
use connman_ui.Ui.Decimal.RoundTrip.{atoi-snprintf}
use connman_ui.Ui.Utils.{set_entry, get_entry_text, or_default, text-set_entry}
use connman_ui.Settings.State.{Dialog, ask}
use connman_ui.Settings.Show.{config_ipv6, show_ipv6, update_ipv6}
use connman_ui.Settings.Edit.{get_ipv6_configuration}
use connman_ui.Settings.Texts.{privacy-texts}

module _ (gtk : Gtk) (glib : MainLoop) (signals : Signals) (answers : Answers) where
  open gtk use {Ui, entry_text, exists}

  abbrev D : Type 0
  D = Dialog gtk glib signals

  -- The three entries hold the configuration.
  abbrev Holds : Ipv6 → Ui → Type 0
  Holds c u =
      (entry_text "ipv6_conf_address" u ≡ or_default c.address "")
      × (entry_text "ipv6_conf_prefix_length" u ≡ snprintf_6 c.prefix)
      × (entry_text "ipv6_conf_gateway" u ≡ or_default c.gateway "")

  -- The widgets that the three entries are.
  abbrev HasEntries : Type 0
  HasEntries =
      (exists "ipv6_conf_address" ≡ true)
      × (exists "ipv6_conf_prefix_length" ≡ true)
      × (exists "ipv6_conf_gateway" ≡ true)

  entries-Holds :
      (c : Ipv6) (u : Ui)
      → HasEntries
      → Holds c (
          set_entry gtk "ipv6_conf_gateway" c.gateway "" (
            set_entry gtk "ipv6_conf_prefix_length"
              (some (snprintf_6 c.prefix))
              ""
              (set_entry gtk "ipv6_conf_address" c.address "" u)))
  entries-Holds c u (a, p, g) = (
    text-set_entry gtk "ipv6_conf_gateway" "ipv6_conf_address" c.gateway "" _ g
        ∙ text-set_entry gtk "ipv6_conf_prefix_length" "ipv6_conf_address"
            (some (snprintf_6 c.prefix)) "" _ p
        ∙ text-set_entry gtk "ipv6_conf_address" "ipv6_conf_address" c.address "" u a,
    text-set_entry gtk "ipv6_conf_gateway" "ipv6_conf_prefix_length" c.gateway "" _ g
        ∙ text-set_entry gtk "ipv6_conf_prefix_length" "ipv6_conf_prefix_length"
            (some (snprintf_6 c.prefix)) "" _ p,
    text-set_entry gtk "ipv6_conf_gateway" "ipv6_conf_gateway" c.gateway "" _ g,
  )

  -- What another dialog with the same texts holds.
  same-Holds :
      (c : Ipv6) (u v : Ui)
      → ((n : String) → entry_text n v ≡ entry_text n u)
      → Holds c u
      → Holds c v
  same-Holds c u v e (a, p, g) =
      (e "ipv6_conf_address" ∙ a, e "ipv6_conf_prefix_length" ∙ p, e "ipv6_conf_gateway" ∙ g)

  show-Holds :
      (now : Option Ipv6) (c : Ipv6) (d : D)
      → HasEntries
      → Holds c (show_ipv6 gtk glib signals answers now (some c) d).ui
  unfolding show_ipv6 config_ipv6
  show-Holds none c d h =
      same-Holds c _ _ (privacy-texts gtk glib signals answers c.privacy _) (entries-Holds c _ h)
  show-Holds (some now) c d h = entries-Holds c _ h

  update_ipv6-Holds :
      (c : Ipv6) (d : D)
      → HasEntries
      → ask gtk glib signals none (connman_service_get_ipv6_config glib) d ≡ some c
      → Holds c (update_ipv6 gtk glib signals answers d).ui
  unfolding update_ipv6
  update_ipv6-Holds c d h e =
      let now = ask gtk glib signals none (connman_service_get_ipv6 glib) d in
      subst (λ conf. Holds c (show_ipv6 gtk glib signals answers now conf d).ui) (sym e)
        (show-Holds now c d h)

  -- Where the builder has the three entries and the service has a configuration of IPv6: what the button OK
  -- would send after update_ipv6 has its address, its gateway (both empty where there is none) and its
  -- prefix.
  pub get_ipv6_configuration-update_ipv6 :
      (c : Ipv6) (d : D)
      → HasEntries
      → ask gtk glib signals none (connman_service_get_ipv6_config glib) d ≡ some c
      → c.prefix < 256
      → let c' = get_ipv6_configuration gtk glib signals (update_ipv6 gtk glib signals answers d) in
        (c'.address ≡ some (or_default c.address ""))
        × (c'.prefix ≡ c.prefix)
        × (c'.gateway ≡ some (or_default c.gateway ""))
  unfolding get_ipv6_configuration get_entry_text
  get_ipv6_configuration-update_ipv6 c d h e small =
      let (a, p, g) = update_ipv6-Holds c d h e in
      (rw (h.0, a), rw (h.1, p) (atoi-snprintf c.prefix small), rw (h.2, g))
