-- ===== src/Examples/Connection.antt =====
-- An init whose watch for ConnMan fails, and a second one.
use connman_ui.Common.{◌≡◌, refl, true, none, some, ok, einval}
use connman_ui.Connection.{
  Answers, Globals, null, freed, connman_interface_init, second_init_deceives,
}

abbrev unwatched : Answers
unwatched = record { system = some 1; session = some 2; named = true; memory = true; watch = 0 }

abbrev start : Globals
start = record { connman = null; dbus_cnx_session = none }

second_init_deceives_example :
    let r = connman_interface_init unwatched (some 3) (some 4) 0 start in
    (r.0 ≡ einval)
    × (r.1.connman ≡ freed)
    × ((connman_interface_init unwatched (some 3) (some 4) 0 r.1).0 ≡ ok)
second_init_deceives_example =
    second_init_deceives unwatched unwatched 3 4 (some 3) (some 4) 0 0 1 2 start refl refl refl refl
      refl refl
