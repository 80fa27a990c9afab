-- ===== src/Examples/LeftMenu.antt =====
-- A left menu that is told of nine services.
use connman_ui.Common.{
  ◌≡◌, refl, String, Bool, true, false, not, ◌&&◌, str_eq, eq_iff, none, some, List, [], ◌∷◌, ◌++◌,
  map, ltb, get_or, arith, if◌then◌else◌,
}
use connman_ui.Service.State.{World, new_service, Pointer}
use connman_ui.Service.Life.{connman_service_get_services}
use connman_ui.Service.Paths.{path_at, Shows}
use connman_ui.Ui.Gtk.{show, hide}
use connman_ui.Menus.Left.{LeftMenu, get_services_cb}
use connman_ui.Menus.Split.{take, drop, numbers, Unlike, Differ}
use connman_ui.Menus.Adding.{name_of}
use connman_ui.Menus.Filling.{get_services-split}
use connman_ui.Examples.Timeouts.{timeouts}
use connman_ui.Examples.Widgets.{widgets}
use connman_ui.Examples.Technology
use connman_ui.Examples.Service
use connman_ui.Examples.Menus.{lists}

abbrev names : List String
names = "/a" ∷ "/b" ∷ "/c" ∷ "/d" ∷ "/e" ∷ "/f" ∷ "/g" ∷ "/h" ∷ "/i" ∷ []

abbrev pointers : List Pointer
pointers = 1 ∷ 2 ∷ 3 ∷ 4 ∷ 5 ∷ 6 ∷ 7 ∷ 8 ∷ []

abbrev listed : World timeouts
listed = record Service.start {
  service_if = some (record Service.empty { ordered_services = 0 ∷ pointers });
  heap = λ p. if ltb p 9 then some (new_service (get_or names p "") 0) else none;
  top = 9;
}

abbrev Left : Type 0
Left = LeftMenu widgets timeouts lists

abbrev fresh_left : Left
fresh_left = record {
  ui = λ n. "";
  left = 100 ∷ 101 ∷ 102 ∷ [];
  more = [];
  service_items = [];
  spinning = true;
  items = λ u. none;
  top = 200;
  dead = false;
  services = listed;
  technologies = Technology.start;
}

unfoldable all_unlike : String → List String → Bool
all_unlike k [] = true
all_unlike k (s ∷ ss) = not (str_eq k s) && all_unlike k ss

unfoldable all_differ : List String → Bool
all_differ [] = true
all_differ (s ∷ ss) = all_unlike s ss && all_differ ss

all_unlike-Unlike : (k : String) (ss : List String) → all_unlike k ss ≡ true → Unlike k ss
unfolding all_unlike
all_unlike-Unlike k [] e = tt
all_unlike-Unlike k (s ∷ ss) e =
    (ground (arith, e, eq_iff k s), all_unlike-Unlike k ss (ground (arith, e)))

all_differ-Differ : (ss : List String) → all_differ ss ≡ true → Differ ss
unfolding all_differ
all_differ-Differ [] e = tt
all_differ-Differ (s ∷ ss) e =
    (all_unlike-Unlike s ss (ground (arith, e)), all_differ-Differ ss (ground (arith, e)))

names-Differ : Differ names
unfolding all_differ all_unlike
names-Differ = all_differ-Differ names refl

listed-Shows : Shows timeouts listed (0 ∷ pointers) names
unfolding path_at
listed-Shows = (refl, (refl, (refl, (refl, (refl, (refl, (refl, (refl, (refl, tt)))))))))

services_listed : connman_service_get_services timeouts listed ≡ 0 ∷ pointers
unfolding connman_service_get_services
services_listed = refl

get_services-split_example :
    let r = get_services_cb widgets timeouts lists [] fresh_left in
    let new = numbers 200 (0 ∷ pointers) in
    (r.left ≡ 100 ∷ 101 ∷ (take 8 new ++ 102 ∷ []))
    × (r.more ≡ drop 8 new)
    × (map (name_of widgets timeouts lists r) new ≡ map some names)
    × (r.ui
        ≡ widgets.act "cui_list_more_item" show
            (widgets.act "cui_list_more_item" hide fresh_left.ui))
    × (r.dead ≡ false)
get_services-split_example =
    get_services-split widgets timeouts lists (102 ∷ []) 100 101 0 pointers names fresh_left
      services_listed listed-Shows names-Differ refl refl refl
