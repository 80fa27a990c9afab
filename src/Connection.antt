-- ===== src/Connection.antt =====
-- lib/interface.c, the connections to the two buses and the watch for ConnMan.
use connman_ui.Common.{
  ℕ, ◌≡◌, Bool, true, Option, none, some, List, [], ◌∷◌, ◌++◌, ◌==◌, if◌then◌else◌, Ret, ok, einval,
  enomem, ealready, arith,
}

abbrev Callback : Type 0
Callback = ℕ

abbrev Bus : Type 0
Bus = ℕ

-- struct connman_interface of lib/connman-private.h
pub record Connman : Type 0 where
  pub dbus_cnx : Bus
  pub interface_watch_id : ℕ
  pub interface_connected_cb : Option Callback
  pub interface_disconnected_cb : Option Callback
  pub user_data : ℕ

-- The global `connman`: NULL, a struct, or the address of a struct that was freed.
pub data Pointer : Type 0 where
  null freed : Pointer
  at : Connman → Pointer

-- The calls that leave the file. A callback is called with the user data, NULL being 0.
pub data Effect : Type 0 where
  open_bus unref_bus : Bus → Effect
  request_name add_watch remove_all_watches : Bus → Effect
  call_back : Callback → ℕ → Effect
  use_after_free : Effect

pub record Globals : Type 0 where
  pub connman : Pointer
  pub dbus_cnx_session : Option Bus

-- The two buses that g_dbus_setup_bus gives, whether the name is granted, whether memory is, and the
-- watch that g_dbus_add_service_watch gives, 0 if it fails.
pub record Answers : Type 0 where
  pub system : Option Bus
  pub session : Option Bus
  pub named : Bool
  pub memory : Bool
  pub watch : ℕ

unfoldable pub connman_watch_interface_connected : Globals → List Effect
connman_watch_interface_connected g = elim g.connman [
  | null ↦ []
  | freed ↦ use_after_free ∷ []
  | at c ↦ elim c.interface_connected_cb [ none ↦ [] | some cb ↦ call_back cb c.user_data ∷ [] ]
]

unfoldable pub connman_watch_interface_disconnected : Globals → List Effect
connman_watch_interface_disconnected g = elim g.connman [
  | null ↦ []
  | freed ↦ use_after_free ∷ []
  | at c ↦ elim c.interface_disconnected_cb [ none ↦ [] | some cb ↦ call_back cb c.user_data ∷ [] ]
]

-- connman_interface_init once both buses are there.
connected : Answers → Callback → Callback → ℕ → Bus → Bus → Ret × Globals × List Effect
unfolding connman_watch_interface_disconnected
connected answers connected_cb disconnected_cb user_data system session =
    let made : Connman = record {
      dbus_cnx = system;
      interface_watch_id = answers.watch;
      interface_connected_cb = some connected_cb;
      interface_disconnected_cb = some disconnected_cb;
      user_data = 0;
    } in
    let opened = open_bus system ∷ open_bus session ∷ request_name session ∷ [] in
    let closed = opened ++ unref_bus system ∷ unref_bus session ∷ [] in
    let g : Globals = record { connman = null; dbus_cnx_session = some session } in
    let watching : Globals = record g { connman = at made } in
    if answers.named
    then (if answers.memory
        then (if answers.watch == 0 then (einval, record g { connman = freed }, closed) else (
          ok,
          record g { connman = at (record made { user_data = user_data }) },
          opened ++ (add_watch system ∷ connman_watch_interface_disconnected watching),
        ))
        else (enomem, g, closed))
    else (ealready, g, closed)

unfoldable pub connman_interface_init :
    Answers → Option Callback → Option Callback → ℕ → Globals → Ret × Globals × List Effect
unfolding connected
connman_interface_init answers connected_cb disconnected_cb user_data g = elim g.connman [
  | at _ ↦ (ok, g, [])
  | freed ↦ (ok, g, [])
  | null ↦ elim connected_cb [
    | none ↦ (einval, g, [])
    | some cb ↦ elim disconnected_cb [
      | none ↦ (einval, g, [])
      | some cb' ↦ elim answers.system [
        | none ↦ (enomem, g, [])
        | some system ↦ elim answers.session [
          | none ↦ (
            enomem,
            record g { dbus_cnx_session = none },
            open_bus system ∷ unref_bus system ∷ [],
          )
          | some session ↦ connected answers cb cb' user_data system session
        ]
      ]
    ]
  ]
]

unfoldable pub connman_interface_finalize : Globals → Globals × List Effect
connman_interface_finalize g = elim g.connman [
  | null ↦ (g, [])
  | freed ↦ (g, use_after_free ∷ [])
  | at c ↦ (
    record { connman = null; dbus_cnx_session = none },
    remove_all_watches c.dbus_cnx
        ∷ unref_bus c.dbus_cnx
        ∷ elim g.dbus_cnx_session [ none ↦ [] | some session ↦ unref_bus session ∷ [] ],
  )
]

-- When the watch for ConnMan cannot be added, the first init fails, and a second call of it reports
-- success, whatever is asked of it, though there is no struct any more.
pub second_init_deceives :
    (answers again : Answers) (cb cb' : Callback) (c c' : Option Callback) (user_data d : ℕ)
    (system session : Bus) (g : Globals)
    → g.connman ≡ null
    → answers.system ≡ some system
    → answers.session ≡ some session
    → answers.named ≡ true
    → answers.memory ≡ true
    → answers.watch ≡ 0
    → let r = connman_interface_init answers (some cb) (some cb') user_data g in
      (r.0 ≡ einval) × (r.1.connman ≡ freed) × ((connman_interface_init again c c' d r.1).0 ≡ ok)
unfolding connman_interface_init
second_init_deceives answers again cb cb' c c' user_data d system session g n s t m k z =
    (ground arith, ground arith, ground arith)
