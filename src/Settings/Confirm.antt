-- ===== src/Settings/Confirm.antt =====
-- src/settings.c sends one change at a time, and a confirmation drops the others.
use connman_ui.Common.{
  ℕ, suc, ◌≡◌, refl, ◌∙◌, ap, String, true, false, Option, none, some, List, [], ◌∷◌, get_or, arith,
}
use connman_ui.Common.Table.{lookup}
use connman_ui.MainLoop.{MainLoop}
use connman_ui.Service.State
use connman_ui.Service.State.{
  Answers, Service, Pointer, Interface, Ipv4, Effect, send_call, get_service,
  service_ipv4_configuration,
}
use connman_ui.Service.Config.{append_setting, ipv4_setting}
use connman_ui.Service.Access.{connman_service_set_property_changed_callback}
use connman_ui.Service.Setting.{same_ipv4, connman_service_set_ipv4_config, set_service_property}
use connman_ui.Ui.Gtk.{Gtk}
use connman_ui.Ui.Tray.{Signals}
use connman_ui.Settings.State.{Dialog, set_cb, changed_cb}
use connman_ui.Settings.Edit.{send_change, settings_ok_callback, get_ipv4_configuration}
use connman_ui.Settings.Popup.{service_property_set_cb, no_changes, update_all}

-- How many requests have left lib/service.c.
unfoldable pub requests : List Effect → ℕ
requests [] = 0
requests (send_call _ _ _ ∷ es) = suc (requests es)
requests (_ ∷ es) = requests es

module _ (glib : MainLoop) where
  -- lib/service.c can send a change of IPv4 for the path: the table leads to a service, for which no such
  -- call waits and whose configuration is not this one already.
  pub record CanSend (path : String) (s : Service) (config : Ipv4) (w : State.World glib)
      : Type 0 where
    pub interface : Interface
    pub pointer : Pointer
    pub connected : w.connman ≡ true
    pub initialised : w.service_if ≡ some interface
    pub known : lookup path interface.services ≡ some pointer
    pub there : w.heap pointer ≡ some s
    pub idle : get_or s.call_modify service_ipv4_configuration none ≡ none
    pub differs : (orig : Ipv4) → s.ipv4_conf ≡ some orig → same_ipv4 glib orig config ≡ false

  set_ipv4-sends :
      (answers : Answers) (path : String) (s : Service) (config : Ipv4) (w : State.World glib)
      → (answers.message ≡ true) × (answers.memory ≡ true) × (answers.sent ≡ true)
      → CanSend path s config w
      → (connman_service_set_ipv4_config glib answers path (some config) w).1.effects
        ≡ send_call s.path "SetProperty"
            (append_setting answers service_ipv4_configuration 0 (ipv4_setting config))
          ∷ w.effects
  unfolding connman_service_set_ipv4_config get_service set_service_property
  set_ipv4-sends answers path s config w (m, y, t) c = known s.ipv4_conf refl
    where
      known :
          (o : Option Ipv4)
          → s.ipv4_conf ≡ o
          → (connman_service_set_ipv4_config glib answers path (some config) w).1.effects
            ≡ send_call s.path "SetProperty"
                (append_setting answers service_ipv4_configuration 0 (ipv4_setting config))
              ∷ w.effects
      known none e =
          ground (arith, c.connected, c.initialised, c.known, c.there, c.idle, m, y, t, e)
      known (some orig) e = ground (
        arith,
        c.connected,
        c.initialised,
        c.known,
        c.there,
        c.idle,
        c.differs orig e,
        m,
        y,
        t,
        e,
      )

  -- Setting the callback for changes keeps all that.
  abbrev heard : Service → Service
  heard s = record s { property_changed_cb = some set_cb; property_changed_user_data = 0 }

  listened :
      (path : String) (s : Service) (config : Ipv4) (w : State.World glib)
      → CanSend path s config w
      → let w' = connman_service_set_property_changed_callback glib path (some set_cb) 0 w in
        CanSend path (heard s) config w' × (w'.effects ≡ w.effects)
  unfolding connman_service_set_property_changed_callback get_service
  listened path s config w c = (
    record {
      interface = c.interface;
      pointer = c.pointer;
      connected = ground (arith, c.initialised, c.known, c.there, c.connected);
      initialised = ground (arith, c.initialised, c.known, c.there);
      known = c.known;
      there = ground (arith, c.initialised, c.known, c.there);
      idle = c.idle;
      differs = c.differs;
    },
    ground (arith, c.initialised, c.known, c.there),
  )

  callback-requests :
      (path : String) (cb : Option ℕ) (w : State.World glib)
      → requests (connman_service_set_property_changed_callback glib path cb 0 w).effects
        ≡ requests w.effects
  unfolding connman_service_set_property_changed_callback requests
  callback-requests path cb w = known (get_service glib path w) refl
    where
      known :
          (o : Option Pointer)
          → get_service glib path w ≡ o
          → requests (connman_service_set_property_changed_callback glib path cb 0 w).effects
            ≡ requests w.effects
      known none e = ground (arith, e)
      known (some p) e = ground (arith, e)

module _ (gtk : Gtk) (glib : MainLoop) (signals : Signals) where
  abbrev D : Type 0
  D = Dialog gtk glib signals

  ok-sends :
      (answers : Answers) (d : D) (path : String) (s : Service)
      → d.path ≡ some path
      → d.ipv4_changed ≡ true
      → (answers.message ≡ true) × (answers.memory ≡ true) × (answers.sent ≡ true)
      → CanSend glib path s (get_ipv4_configuration gtk glib signals d) d.service
      → (settings_ok_callback gtk glib signals answers d).service.effects
        ≡ send_call s.path "SetProperty" (
            append_setting answers service_ipv4_configuration 0
              (ipv4_setting (get_ipv4_configuration gtk glib signals d)))
          ∷ d.service.effects
  unfolding settings_ok_callback send_change get_ipv4_configuration
  ok-sends answers d path s e f a c =
      let config = get_ipv4_configuration gtk glib signals d in
      let (c', same) = listened glib path s config d.service c in
      let w = connman_service_set_property_changed_callback glib path (some set_cb) 0 d.service in
      rw (e, settings_ok_callback)
        (rw f (
          set_ipv4-sends glib answers path (heard glib s) config w a c'
          ∙ ap
              (λ (es : List Effect).
                send_call s.path "SetProperty"
                  (append_setting answers service_ipv4_configuration 0 (ipv4_setting config))
                ∷ es)
              same))

  -- With no flag set the button OK sends nothing.
  nothing-sent :
      (answers : Answers) (d : D)
      → requests
          (settings_ok_callback gtk glib signals answers
            (no_changes gtk glib signals answers d)).service.effects
        ≡ requests d.service.effects
  unfolding settings_ok_callback send_change no_changes
  nothing-sent answers d = known d.path refl
    where
      known :
          (o : Option String)
          → d.path ≡ o
          → requests
              (settings_ok_callback gtk glib signals answers
                (no_changes gtk glib signals answers d)).service.effects
            ≡ requests d.service.effects
      known none e = rw (e, settings_ok_callback)
      known (some path) e =
          rw (e, settings_ok_callback) (callback-requests glib path (some set_cb) d.service)

  -- With a change of IPv4, the button OK sends one message: SetProperty for the configuration of IPv4 of the service, as
  -- the entries show it, whatever else the user had changed; the service is in the table, has another configuration
  -- and no such call that waits, and the message can be made and sent. And after the callback for a changed property
  -- the button sends nothing, whatever the user had changed before that.
  pub confirm_drops_changes :
      (answers again : Answers) (d d' : D) (path : String) (s : Service) (changed : Option String)
      → d.path ≡ some path
      → d.ipv4_changed ≡ true
      → (answers.message ≡ true) × (answers.memory ≡ true) × (answers.sent ≡ true)
      → CanSend glib path s (get_ipv4_configuration gtk glib signals d) d.service
      → let confirmed = service_property_set_cb gtk glib signals again changed d' in
        ((settings_ok_callback gtk glib signals answers d).service.effects
          ≡ send_call s.path "SetProperty" (
              append_setting answers service_ipv4_configuration 0
                (ipv4_setting (get_ipv4_configuration gtk glib signals d)))
            ∷ d.service.effects)
        × (requests (settings_ok_callback gtk glib signals again confirmed).service.effects
            ≡ requests confirmed.service.effects)
  unfolding service_property_set_cb no_changes
  confirm_drops_changes answers again d d' path s none e f a c =
      (ok-sends answers d path s e f a c, nothing-sent again (update_all gtk glib signals again d'))
  confirm_drops_changes answers again d d' path s (some q) e f a c = (
    ok-sends answers d path s e f a c,
    let shown = update_all gtk glib signals again d' in
        nothing-sent again (record shown {
          service =
              connman_service_set_property_changed_callback glib q (some changed_cb) 0
                shown.service;
        }),
  )
