-- ===== src/Technology/Setting.antt =====
-- lib/technology.c: what the user interface asks ConnMan to change, and the answers.
use connman_ui.Common.{
  ℕ, String, Bool, true, false, not, Option, none, some, [], if◌then◌else◌, get_or, set, is_set,
  Ret, ok, einval, enomem,
}
use connman_ui.MainLoop.{MainLoop, PropertyChange}
use connman_ui.Dbus.Libdbus.{Basic, text, flag, type_boolean, type_string}
use connman_ui.Dbus.Append.{append_value}
use connman_ui.Technology.State.{
  Technology, World, Answers, emit, get_technology, put_technology, Callback, UserPointer,
  technology_powered, technology_tethering, technology_tethering_identifier,
  technology_tethering_passphrase, unref_call, call_scanned, send_call,
}
use connman_ui.Technology.Property.{property, source_remove, source_remove_if_set}

-- `==` on gboolean
abbrev same : Bool → Bool → Bool
same true b = b
same false b = not b

-- The property change that set_property_cb makes; `index` keeps the 0 of g_try_malloc0.
abbrev pub error_change : String → ℕ → PropertyChange
error_change path index = record { index = 0; path = path; name = property index; error = true }

module _ (glib : MainLoop) where
  open glib use {Loop, add}

  -- set_technology_property after its guards. A call that is sent is stored in `call_modify`.
  send_property : Answers → String → Technology → ℕ → ℕ → Basic → World glib → Ret × World glib
  unfolding append_value property
  send_property answers path t index dbus_type value w =
      let arguments = append_value 0 (some (property index)) dbus_type value in
      let sent : World glib =
        put_technology glib path (record t { call_modify = set t.call_modify index answers.call })
          (emit glib (send_call path "SetProperty" arguments) w) in
      if answers.message
      then (if answers.memory
          then (if answers.sent
              then (if answers.notified then (ok, sent) else (einval, sent))
              else (einval, w))
          else (enomem, w))
      else (enomem, w)

  unfoldable pub set_technology_property :
      Answers → String → Technology → ℕ → ℕ → Basic → World glib → Ret × World glib
  unfolding send_property
  set_technology_property answers path t index dbus_type value w =
      if w.connman
      then (if is_set (get_or t.call_modify index none)
          then (einval, w)
          else send_property answers path t index dbus_type value w)
      else (einval, w)

  unfoldable pub store_error : String → ℕ → ℕ × Loop → World glib → World glib
  store_error path index (id, loop) w =
      let w' : World glib = record w { loop = loop } in
      elim (get_technology glib path w') [
        | none ↦ w'
        | some t ↦ put_technology glib path (record t { to_error = set t.to_error index id }) w'
      ]

  unfoldable pub report_failure : String → Technology → ℕ → World glib → World glib
  unfolding store_error source_remove property
  report_failure path t index w =
      let w' = source_remove_if_set glib (get_or t.to_error index 0) w in
      store_error path index (add w'.loop (error_change path index)) w'

  -- The answer of ConnMan to SetProperty, for the property `index` of the technology at `path`.
  -- `completed` is dbus_pending_call_get_completed, `reply` whether the answer is an error, none for a
  -- NULL answer.
  unfoldable pub set_property_cb :
      Answers → String → ℕ → Bool → Option Bool → World glib → World glib
  unfolding report_failure
  set_property_cb answers path index completed reply w = elim (get_technology glib path w) [
    | none ↦ w
    | some t ↦
        let t' = record t { call_modify = set t.call_modify index none } in
        let w' = put_technology glib path t' w in
        if completed
        then (if is_set t.property_set_error_cb
            then (if answers.memory
                then elim reply [
                  | none ↦ w'
                  | some failed ↦ if failed then report_failure path t' index w' else w'
                ]
                else w')
            else w')
        else w
  ]

  unfoldable pub connman_technology_enable : Answers → String → Bool → World glib → Ret × World glib
  unfolding set_technology_property
  connman_technology_enable answers path enable w = elim (get_technology glib path w) [
    | none ↦ (einval, w)
    | some t ↦
        if same t.powered enable
        then (ok, w)
        else set_technology_property answers path t technology_powered type_boolean (flag enable) w
  ]

  unfoldable pub connman_technology_tether : Answers → String → Bool → World glib → Ret × World glib
  unfolding set_technology_property
  connman_technology_tether answers path tethering w = elim (get_technology glib path w) [
    | none ↦ (einval, w)
    | some t ↦
        if same t.tethering tethering
        then (ok, w)
        else set_technology_property answers path t technology_tethering type_boolean
            (flag tethering) w
  ]

  unfoldable pub connman_technology_set_tethering_identifier :
      Answers → String → String → World glib → Ret × World glib
  unfolding set_technology_property
  connman_technology_set_tethering_identifier answers path identifier w =
      elim (get_technology glib path w) [
        | none ↦ (einval, w)
        | some t ↦
            set_technology_property answers path t technology_tethering_identifier type_string
              (text identifier) w
      ]

  unfoldable pub connman_technology_set_tethering_passphrase :
      Answers → String → String → World glib → Ret × World glib
  unfolding set_technology_property
  connman_technology_set_tethering_passphrase answers path passphrase w =
      elim (get_technology glib path w) [
        | none ↦ (einval, w)
        | some t ↦
            set_technology_property answers path t technology_tethering_passphrase type_string
              (text passphrase) w
      ]

  unfoldable pub connman_technology_scan :
      Answers → String → Option Callback → UserPointer → World glib → Ret × World glib
  connman_technology_scan answers path callback user_data w = elim (get_technology glib path w) [
    | none ↦ (einval, w)
    | some t ↦
        let sent : World glib = emit glib (send_call path "Scan" []) w in
        let called = record t { scan_call = answers.call } in
        if answers.message
        then (if answers.sent
            then (if answers.notified
                then (
                  ok,
                  put_technology glib path
                      (record called { scan_cb = callback; scan_user_data = user_data }) sent,
                )
                else (einval, put_technology glib path (record called { scan_cb = none }) sent))
            else (einval, put_technology glib path (record t { scan_cb = none }) w))
        else (enomem, w)
  ]

  -- The answer of ConnMan to Scan.
  unfoldable pub scan_callback : String → ℕ → Bool → World glib → World glib
  scan_callback path pending completed w = elim (get_technology glib path w) [
    | none ↦ w
    | some t ↦
        let w' =
          put_technology glib path (record t { scan_call = none })
            (emit glib (unref_call pending) w) in
        if completed
        then elim t.scan_cb [
          | none ↦ w'
          | some cb ↦ emit glib (call_scanned cb t.scan_user_data) w'
        ]
        else w
  ]
