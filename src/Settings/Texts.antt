-- ===== src/Settings/Texts.antt =====
-- The toggle buttons of src/settings.c leave the texts of the entries alone.
use connman_ui.Common.{
  ℕ, zero, suc, ◌≡◌, refl, ◌∙◌, ap, String, Bool, true, false, Option, List, [], ◌∷◌, str_eq,
  if◌then◌else◌, if_either, arith,
}
use connman_ui.MainLoop.{MainLoop}
use connman_ui.Service.State.{Answers}
use connman_ui.Ui.Gtk.{Gtk}
use connman_ui.Ui.Tray.{Signals}
use connman_ui.Ui.Theme.{is_text}
use connman_ui.Ui.Utils.{
  set_widget_sensitive, set_button_toggle, text-set_widget_sensitive, text-set_button_toggle,
}
use connman_ui.Settings.State.{Dialog}
use connman_ui.Settings.Method.{
  enable_ipv4_config, enable_ipv6_config, enable_proxy_config, toggled_ipv4_method_cb,
  toggled_ipv6_method_cb, toggled_ipv6_privacy_cb, toggled_proxy_method_cb, favorite_button_toggled,
  autoconnect_button_toggled, times, toggled, all_toggled, toggle, toggle_button, set_ipv6_privacy,
}

module _ (gtk : Gtk) (glib : MainLoop) (signals : Signals) (answers : Answers) where
  open gtk use {Ui, entry_text}

  abbrev D : Type 0
  D = Dialog gtk glib signals

  -- The texts of the second dialog are those of the first.
  abbrev pub SameTexts : D → D → Type 0
  SameTexts d d' = (n : String) → entry_text n d'.ui ≡ entry_text n d.ui

  text-three :
      (a b c n : String) (enable : Bool) (u : Ui)
      → entry_text n (
          set_widget_sensitive gtk c enable
            (set_widget_sensitive gtk b enable (set_widget_sensitive gtk a enable u)))
        ≡ entry_text n u
  text-three a b c n enable u = simp (text-set_widget_sensitive gtk)

  toggled_ipv4-texts :
      (name : String) (b : Bool) (d : D)
      → SameTexts d (toggled_ipv4_method_cb gtk glib signals answers name b d)
  unfolding toggled_ipv4_method_cb enable_ipv4_config
  toggled_ipv4-texts name false d n = refl
  toggled_ipv4-texts name true d n = text-three _ _ _ n (str_eq name "ipv4_manual") d.ui

  toggled_proxy-texts :
      (name : String) (b : Bool) (d : D)
      → SameTexts d (toggled_proxy_method_cb gtk glib signals answers name b d)
  unfolding toggled_proxy_method_cb enable_proxy_config
  toggled_proxy-texts name false d n = refl
  toggled_proxy-texts name true d n = text-three _ _ _ n (str_eq name "proxy_manual") d.ui

  toggled_ipv6-texts :
      (name : String) (b : Bool) (d : D)
      → SameTexts d (toggled_ipv6_method_cb gtk glib signals answers name b d)
  unfolding toggled_ipv6_method_cb enable_ipv6_config
  toggled_ipv6-texts name false d n = refl
  toggled_ipv6-texts name true d n =
      text-set_widget_sensitive gtk _ n _ _ ∙ text-three _ _ _ n (str_eq name "ipv6_manual") d.ui

  times-ui :
      (k : ℕ) (f : D → D) (d : D)
      → ((e : D) → (f e).ui ≡ e.ui)
      → (times gtk glib signals answers k f d).ui ≡ d.ui
  unfolding times
  times-ui zero f d h = refl
  times-ui (suc k) f d h = times-ui k f (f d) h ∙ h d

  favorite-ui :
      (b : Bool) (d : D) → (favorite_button_toggled gtk glib signals answers b d).ui ≡ d.ui
  unfolding favorite_button_toggled
  favorite-ui true d = refl
  favorite-ui false d = ground arith

  autoconnect-ui :
      (b : Bool) (d : D) → (autoconnect_button_toggled gtk glib signals answers b d).ui ≡ d.ui
  unfolding autoconnect_button_toggled
  autoconnect-ui b d = ground arith

  abbrev Same : String → D → D → Type 0
  Same n d e = entry_text n e.ui ≡ entry_text n d.ui

  header-texts :
      (n name : String) (b : Bool) (d : D)
      → Same n d (
          if str_eq name "service_favorite"
          then times gtk glib signals answers d.favorite_handlers
              (favorite_button_toggled gtk glib signals answers b)
              d
          else if str_eq name "service_autoconnect"
          then times gtk glib signals answers d.autoconnect_handlers
              (autoconnect_button_toggled gtk glib signals answers b)
              d
          else d)
  header-texts n name b d =
      let f = favorite_button_toggled gtk glib signals answers b in
      let g = autoconnect_button_toggled gtk glib signals answers b in
      if_either (Same n d) (str_eq name "service_favorite") _ _
        (ap (entry_text n) (times-ui d.favorite_handlers f d (favorite-ui b)))
        (if_either (Same n d) (str_eq name "service_autoconnect") _ _
          (ap (entry_text n) (times-ui d.autoconnect_handlers g d (autoconnect-ui b))) refl)

  toggled-texts :
      (name : String) (b : Bool) (d : D) → SameTexts d (toggled gtk glib signals answers name b d)
  unfolding toggled toggled_ipv6_privacy_cb
  toggled-texts name b d n = if_either (Same n d) _ _ _ (toggled_ipv4-texts name b d n) (
      if_either (Same n d) _ _ _ (toggled_ipv6-texts name b d n) (
        if_either (Same n d) _ _ _ refl
          (if_either (Same n d) _ _ _ (toggled_proxy-texts name b d n) (header-texts n name b d))))

  all_toggled-texts :
      (es : List (String × Bool)) (d : D) → SameTexts d (all_toggled gtk glib signals answers es d)
  unfolding all_toggled
  all_toggled-texts [] d n = refl
  all_toggled-texts ((name, b) ∷ es) d n =
      all_toggled-texts es (toggled gtk glib signals answers name b d) n ∙ toggled-texts name b d n

  pub toggle-texts :
      (name : String) (b : Bool) (d : D) → SameTexts d (toggle gtk glib signals answers name b d)
  unfolding toggle
  toggle-texts name b d n =
      all_toggled-texts (set_button_toggle gtk name b d.ui).0
        (record d { ui = (set_button_toggle gtk name b d.ui).1 }) n
      ∙ text-set_button_toggle gtk name n b d.ui

  pub privacy-texts :
      (p : Option String) (d : D) → SameTexts d (set_ipv6_privacy gtk glib signals answers p d)
  unfolding set_ipv6_privacy toggle_button
  privacy-texts p d n =
      if_either (Same n d) (is_text p "enabled") _ _ (toggle-texts "ipv6_priv_enabled" true d n) (
        if_either (Same n d) (is_text p "prefered") _ _ (toggle-texts "ipv6_priv_prefered" true d n)
          (toggle-texts "ipv6_priv_disabled" true d n))
