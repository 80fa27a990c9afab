-- ===== src/Examples/Ui.antt =====
-- A dialog with settings, a dialog for a passphrase, and a tray.
use connman_ui.Common.{
  ℕ, zero, suc, ◌&&◌, ◌||◌, ◌≤◌, ◌≡◌, refl, String, true, false, none, some, [], ◌∷◌, arith, ◌==◌,
  if◌then◌else◌,
}
use connman_ui.Agent.State.{Agent, InputData}
use connman_ui.Agent.Replies.{fresh_agent, pending_of}
use connman_ui.Examples.Timeouts.{timeouts, find, add, remove}
use connman_ui.Examples.Widgets.{widgets, icon_signals, fresh_tray, Texts}
use connman_ui.Service.State.{Ipv6, Service, new_service, Interface, Answers}
use connman_ui.Service.State.{World, get_service, send_call, service_ipv4_configuration}
use connman_ui.Ui.Gtk
use connman_ui.Service.Access.{connman_service_get_ipv6_config}
use connman_ui.Common.Table.{lookup}
use connman_ui.Ui.Decimal.{decimal, size, snprintf_6}
use connman_ui.Ui.Decimal.RoundTrip.{snprintf_whole}
use connman_ui.Ui.Tray.{Tray, step, enable, left_menu_disable, cui_tray_disable, run}
use connman_ui.Ui.Tray.Handlers.{run_handlers}
use connman_ui.Settings.State.{Dialog}
use connman_ui.Settings.Show.{update_ipv6}
use connman_ui.Settings.Edit.{get_ipv6_configuration, get_ipv4_configuration, settings_ok_callback}
use connman_ui.Settings.Popup.{service_property_set_cb}
use connman_ui.Settings.RoundTrip.{get_ipv6_configuration-update_ipv6}
use connman_ui.Settings.Confirm.{CanSend, requests, confirm_drops_changes}
use connman_ui.Service.Config.{append_setting, ipv4_setting}
use connman_ui.Dialogs.State.{Dialogs}
use connman_ui.Dialogs.Show.{same, agent_input_cb}
use connman_ui.Dialogs.Reply.{agent_cancel, agent_ok_input, agent_ok_login}
use connman_ui.Dialogs.Answering.{Answered, Pressed, input-Answered, empty_login_unanswered}

snprintf_whole_example :
    (snprintf_6 1500 ≡ decimal (suc 1500) 1500 "") × (size (snprintf_6 1500) ≤ 5)
snprintf_whole_example = snprintf_whole 1500 (omega arith)

mtu : snprintf_6 1500 ≡ "1500"
unfolding snprintf_6
mtu = refl

no_handler : (j : ℕ) → icon_signals.handler [] j ≡ none
unfolding find
no_handler zero = refl
no_handler (suc j) = refl

abbrev used_tray : Tray icon_signals
used_tray = run icon_signals (enable ∷ left_menu_disable ∷ enable ∷ []) fresh_tray

run_handlers_example :
    ((j j' : ℕ) (s : String)
      → icon_signals.handler used_tray.icon j ≡ some s
      → icon_signals.handler used_tray.icon j' ≡ some s
      → j ≡ j')
    × ((j : ℕ) → icon_signals.handler (cui_tray_disable icon_signals used_tray).icon j ≡ none)
run_handlers_example =
    run_handlers icon_signals (enable ∷ left_menu_disable ∷ enable ∷ []) fresh_tray no_handler

popup_again : icon_signals.handler used_tray.icon 3 ≡ some "activate"
unfolding run step find add remove
popup_again = refl

abbrev answers : Answers
answers = record {
  memory = true;
  realloc = λ n. true;
  watch = 7;
  message = true;
  sent = true;
  call = some 9;
  notified = true;
  timeout = 3;
  join = λ ss. "";
  split = λ s. s ∷ [];
  stray = none;
  stray_flag = false;
  stray_number = 0;
}

abbrev ipv6 : Ipv6
ipv6 = record {
  method = some "manual";
  address = some "2001:db8::7";
  prefix = 64;
  gateway = none;
  privacy = none;
}

abbrev home : Service
home = record (new_service "/home" 7) { ipv6_conf = some ipv6 }

abbrev services : Interface
services = record {
  refreshed = true;
  services = ("/home", 0) ∷ [];
  ordered_services = 0 ∷ [];
  removed_cb = none;
  refresh_services_cb = none;
  scan_services_cb = none;
  to_refresh = 0;
  refresh_user_data = 0;
  selected_service = some 0;
}

abbrev world : World timeouts
world = record {
  connman = true;
  service_if = some services;
  heap = λ p. if p == 0 then some home else none;
  top = 1;
  loop = [];
  effects = [];
}

abbrev dialog : Dialog widgets timeouts icon_signals
dialog = record {
  ui = λ n. "";
  opened = true;
  path = some "/home";
  ipv4_changed = true;
  ipv4_method = some "dhcp";
  ipv6_changed = true;
  ipv6_method = some "manual";
  ipv6_privacy = none;
  proxy_changed = false;
  proxy_method = none;
  nameservers_changed = false;
  domains_changed = false;
  timeservers_changed = false;
  favorite_handlers = 0;
  autoconnect_handlers = 0;
  service = world;
  tray = fresh_tray;
}

home_ipv6 : connman_service_get_ipv6_config timeouts "/home" world ≡ some ipv6
unfolding connman_service_get_ipv6_config get_service lookup
home_ipv6 = refl

abbrev read_back : Ipv6
read_back =
    get_ipv6_configuration widgets timeouts icon_signals
      (update_ipv6 widgets timeouts icon_signals answers dialog)

get_ipv6_configuration-update_ipv6_example :
    (read_back.address ≡ some "2001:db8::7")
    × (read_back.prefix ≡ 64)
    × (read_back.gateway ≡ some "")
get_ipv6_configuration-update_ipv6_example =
    get_ipv6_configuration-update_ipv6 widgets timeouts icon_signals answers ipv6 dialog
      (refl, refl, refl) home_ipv6 (omega arith)

home_sends :
    CanSend timeouts "/home" home
      (get_ipv4_configuration widgets timeouts icon_signals dialog)
      world
unfolding lookup
home_sends = record {
  interface = services;
  pointer = 0;
  connected = refl;
  initialised = refl;
  known = refl;
  there = refl;
  idle = refl;
  differs = λ orig e. absurd (cc e);
}

confirm_drops_changes_example :
    ((settings_ok_callback widgets timeouts icon_signals answers dialog).service.effects
      ≡ send_call "/home" "SetProperty" (
          append_setting answers service_ipv4_configuration 0
            (ipv4_setting (get_ipv4_configuration widgets timeouts icon_signals dialog)))
        ∷ [])
    × (requests
          (settings_ok_callback widgets timeouts icon_signals answers (
            service_property_set_cb widgets timeouts icon_signals answers
              (some "/home")
              dialog)).service.effects
        ≡ requests
            (service_property_set_cb widgets timeouts icon_signals answers
              (some "/home")
              dialog).service.effects)
confirm_drops_changes_example =
    confirm_drops_changes widgets timeouts icon_signals answers answers dialog dialog "/home" home
      (some "/home") refl refl (refl, refl, refl) home_sends

abbrev waiting : Agent
waiting = record fresh_agent { pending_reply = some 11; input_cb = some 3 }

abbrev asked : InputData
asked = record {
  hidden = false;
  identity = false;
  passphrase = true;
  wpspin = false;
  login = false;
  previous_passphrase = none;
  previous_wpspin = none;
}

abbrev dialogs : Dialogs widgets timeouts icon_signals
dialogs = record {
  ui = λ n. "";
  service = some "/home";
  name = some "Home";
  technology = none;
  tethering = false;
  agent = some waiting;
  effects = [];
  technologies = record { connman = true; tech_if = none; loop = []; effects = [] };
  tray = fresh_tray;
}

abbrev asking : Dialogs widgets timeouts icon_signals
asking =
    agent_input_cb widgets timeouts icon_signals (λ s. s) (λ u. u) true (some "/home") asked dialogs

input-Answered_example :
    (same (some "/home") dialogs.service && (asked.passphrase || (asked.hidden || asked.login))
        ≡ false
      → Answered widgets timeouts icon_signals 11 dialogs asking)
    × (same (some "/home") dialogs.service && (asked.passphrase || asked.hidden) ≡ true
        → (u : Texts) → Pressed widgets timeouts icon_signals u
        → Answered widgets timeouts icon_signals 11 dialogs
            (agent_ok_input widgets timeouts icon_signals true true (record asking { ui = u }))
          × Answered widgets timeouts icon_signals 11 dialogs (
              agent_cancel widgets timeouts icon_signals true "input_dbox"
                (record asking { ui = u })))
input-Answered_example =
    input-Answered widgets timeouts icon_signals (λ s. s) (λ u. u) (some "/home") asked waiting 11
      dialogs refl

abbrev logged : Dialogs widgets timeouts icon_signals
logged = agent_ok_login widgets timeouts icon_signals true true dialogs

empty_login_unanswered_example :
    (pending_of logged.agent ≡ some (waiting, 11))
    × (logged.effects ≡ [])
    × (logged.ui ≡ widgets.act "login_dbox" Gtk.hide dialogs.ui)
empty_login_unanswered_example =
    empty_login_unanswered widgets timeouts icon_signals true true waiting 11 dialogs refl refl refl
