-- ===== src/Service/Setting.antt =====
-- lib/service.c: what the user interface asks ConnMan to change, and the answers.
use connman_ui.Common.{
  ℕ, String, Bool, true, false, ◌&&◌, Option, none, some, [], ◌==◌, str_eq, if◌then◌else◌, get_or,
  set, is_set, Ret, ok, einval, enomem, undefined,
}
use connman_ui.MainLoop.{MainLoop, PropertyChange}
use connman_ui.Dbus.Libdbus.{flag, type_boolean, type_string}
use connman_ui.Service.State.{
  Service, Pointer, World, Answers, emit, get_service, property, Ipv4, Ipv6, Proxy, send_call,
  dangling, null_dereference, service_autoconnect, service_ipv4_configuration,
  service_ipv6_configuration, service_proxy_configuration, service_nameservers_configuration,
  service_domains_configuration, service_timeservers_configuration,
}
use connman_ui.Service.Property.{modify, source_remove, source_remove_if_set}
use connman_ui.Service.Config.{
  Setting, ipv4_setting, ipv6_setting, proxy_setting, list_setting, basic_setting, append_setting,
  reads_null,
}

-- `g_strcmp0(a, b) == 0`
abbrev pub same_text : Option String → Option String → Bool
same_text none none = true
same_text (some a) (some b) = str_eq a b
same_text _ _ = false

-- The property change that set_property_cb makes; `index` keeps the 0 of g_try_malloc0.
abbrev pub error_change : String → ℕ → PropertyChange
error_change path index = record { index = 0; path = path; name = property index; error = true }

module _ (glib : MainLoop) where
  open glib use {Loop, add}

  -- get_service, with the pointer and what it points to; -EINVAL without a service, and nothing known where the
  -- service is freed.
  abbrev pub with_service :
      String → World glib → (Pointer → Service → Ret × World glib) → Ret × World glib
  with_service path w f = elim (get_service glib path w) [
    | none ↦ (einval, w)
    | some p ↦ elim (w.heap p) [ none ↦ (undefined, emit glib dangling w) | some s ↦ f p s ]
  ]

  unfoldable pub call_empty_method : Answers → String → String → World glib → Ret × World glib
  unfolding get_service
  call_empty_method answers path method w = with_service path w (λ p s.
      if answers.message
      then (if answers.sent then (ok, emit glib (send_call s.path method []) w) else (einval, w))
      else (enomem, w))

  unfoldable pub connman_service_connect : Answers → String → World glib → Ret × World glib
  unfolding call_empty_method
  connman_service_connect answers path = call_empty_method answers path "Connect"

  unfoldable pub connman_service_disconnect : Answers → String → World glib → Ret × World glib
  unfolding call_empty_method
  connman_service_disconnect answers path = call_empty_method answers path "Disconnect"

  unfoldable pub connman_service_remove : Answers → String → World glib → Ret × World glib
  unfolding call_empty_method
  connman_service_remove answers path = call_empty_method answers path "Remove"

  unfoldable pub store_error : Pointer → ℕ → ℕ × Loop → World glib → World glib
  store_error p index (id, loop) w =
      modify glib p (λ s. record s { to_error = set s.to_error index id })
        (record w { loop = loop })

  unfoldable pub report_failure : Pointer → Service → ℕ → World glib → World glib
  unfolding store_error source_remove property
  report_failure p s index w =
      let w' = source_remove_if_set glib (get_or s.to_error index 0) w in
      store_error p index (add w'.loop (error_change s.path index)) w'

  -- The answer of ConnMan to SetProperty, for the property `index` of the service at `p`. `completed` is
  -- dbus_pending_call_get_completed, `reply` whether the answer is an error, none for a NULL answer.
  unfoldable pub set_property_cb :
      Answers → Pointer → ℕ → Bool → Option Bool → World glib → World glib
  unfolding report_failure
  set_property_cb answers p index completed reply w =
      let w' = modify glib p (λ s. record s { call_modify = set s.call_modify index none }) w in
      if completed
      then elim (w.heap p) [
        | none ↦ w'
        | some s ↦
            if is_set s.property_set_error_cb
            then (if answers.memory
                then elim reply [
                  | none ↦ w'
                  | some failed ↦ if failed then report_failure p s index w' else w'
                ]
                else w')
            else w'
      ]
      else w

  -- set_service_property after its guards. A call that is sent is stored in `call_modify`.
  send_setting : Answers → Pointer → Service → ℕ → ℕ → Setting → World glib → Ret × World glib
  unfolding append_setting reads_null
  send_setting answers p s index dbus_type value w =
      let sent : World glib =
        modify glib p (λ t. record t { call_modify = set t.call_modify index answers.call })
          (emit glib (send_call s.path "SetProperty" (append_setting answers index dbus_type value))
            w) in
      if answers.message
      then (if answers.memory
          then (if reads_null value
              then (undefined, emit glib null_dereference w)
              else if answers.sent
              then (if answers.notified then (ok, sent) else (einval, sent))
              else (einval, w))
          else (enomem, w))
      else (enomem, w)

  unfoldable pub set_service_property :
      Answers → Pointer → Service → ℕ → ℕ → Setting → World glib → Ret × World glib
  unfolding send_setting
  set_service_property answers p s index dbus_type value w =
      if w.connman
      then (if is_set (get_or s.call_modify index none)
          then (einval, w)
          else send_setting answers p s index dbus_type value w)
      else (einval, w)

  unfoldable pub connman_service_set_autoconnectable :
      Answers → String → Bool → World glib → Ret × World glib
  unfolding get_service set_service_property
  connman_service_set_autoconnectable answers path enable w = with_service path w (λ p s.
      set_service_property answers p s service_autoconnect type_boolean
        (basic_setting (flag enable)) w)

  abbrev pub same_ipv4 : Ipv4 → Ipv4 → Bool
  same_ipv4 orig config =
      same_text orig.method config.method
      && (same_text orig.address config.address
          && (same_text orig.netmask config.netmask && (same_text orig.gateway config.gateway)))

  unfoldable pub connman_service_set_ipv4_config :
      Answers → String → Option Ipv4 → World glib → Ret × World glib
  unfolding get_service set_service_property
  connman_service_set_ipv4_config answers path none w = (einval, w)
  connman_service_set_ipv4_config answers path (some config) w = with_service path w (λ p s.
      let set =
        set_service_property answers p s service_ipv4_configuration 0 (ipv4_setting config) w in
      elim s.ipv4_conf [ none ↦ set | some orig ↦ if same_ipv4 orig config then (ok, w) else set ])

  abbrev pub same_ipv6 : Ipv6 → Ipv6 → Bool
  same_ipv6 orig config =
      same_text orig.method config.method
      && (same_text orig.address config.address
          && (same_text orig.gateway config.gateway
              && (same_text orig.privacy config.privacy && (orig.prefix == config.prefix))))

  unfoldable pub connman_service_set_ipv6_config :
      Answers → String → Option Ipv6 → World glib → Ret × World glib
  unfolding get_service set_service_property
  connman_service_set_ipv6_config answers path none w = (einval, w)
  connman_service_set_ipv6_config answers path (some config) w = with_service path w (λ p s.
      let set =
        set_service_property answers p s service_ipv6_configuration 0 (ipv6_setting config) w in
      elim s.ipv6_conf [ none ↦ set | some orig ↦ if same_ipv6 orig config then (ok, w) else set ])

  abbrev pub same_proxy : Proxy → Proxy → Bool
  same_proxy orig config =
      same_text orig.method config.method
      && (same_text orig.url config.url
          && (same_text orig.servers config.servers && (same_text orig.excludes config.excludes)))

  unfoldable pub connman_service_set_proxy_config :
      Answers → String → Option Proxy → World glib → Ret × World glib
  unfolding get_service set_service_property
  connman_service_set_proxy_config answers path none w = (einval, w)
  connman_service_set_proxy_config answers path (some config) w = with_service path w (λ p s.
      let set =
        set_service_property answers p s service_proxy_configuration 0 (proxy_setting config) w in
      elim s.proxy_conf [
        | none ↦ set
        | some orig ↦ if same_proxy orig config then (ok, w) else set
      ])

  unfoldable pub connman_service_set_nameservers_config :
      Answers → String → Option String → World glib → Ret × World glib
  unfolding get_service set_service_property
  connman_service_set_nameservers_config answers path config w = with_service path w (λ p s.
      if same_text s.nameservers_conf config then (ok, w) else elim config [
        | none ↦ (enomem, w)
        | some c ↦
            set_service_property answers p s service_nameservers_configuration type_string
              (list_setting (answers.split c)) w
      ])

  unfoldable pub connman_service_set_domains_config :
      Answers → String → Option String → World glib → Ret × World glib
  unfolding get_service set_service_property
  connman_service_set_domains_config answers path config w = with_service path w (λ p s.
      if same_text s.domains_conf config then (ok, w) else elim config [
        | none ↦ (enomem, w)
        | some c ↦
            set_service_property answers p s service_domains_configuration type_string
              (list_setting (answers.split c)) w
      ])

  unfoldable pub connman_service_set_timeservers_config :
      Answers → String → Option String → World glib → Ret × World glib
  unfolding get_service set_service_property
  connman_service_set_timeservers_config answers path config w = with_service path w (λ p s.
      if same_text s.timeservers_conf config then (ok, w) else elim config [
        | none ↦ (enomem, w)
        | some c ↦
            set_service_property answers p s service_timeservers_configuration type_string
              (list_setting (answers.split c)) w
      ])
