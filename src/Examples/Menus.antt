-- ===== src/Examples/Menus.antt =====
-- Menus as lists of widgets, and a right menu through which two technologies go.
use connman_ui.Common.{
  ℕ, zero, suc, ◌<◌, ◌≢◌, ◌≡◌, refl, ap, true, false, none, List, [], ◌∷◌, ◌++◌, ◌+◌, length, arith,
}
use connman_ui.Menus.Shell.{MenuShell, without}
use connman_ui.Menus.Rows.{rows}
use connman_ui.Menus.Right.{RightMenu, Event, popup, enable_all, added, removed, run}
use connman_ui.Menus.Places.{Apart}
use connman_ui.Menus.Steps.{run-rows}
use connman_ui.Examples.Timeouts.{timeouts}
use connman_ui.Examples.Widgets.{widgets}
use connman_ui.Examples.Technology.{start}

unfoldable pub insert_at : List ℕ → ℕ → ℕ → List ℕ
insert_at ws w zero = w ∷ ws
insert_at [] w (suc n) = w ∷ []
insert_at (v ∷ ws) w (suc n) = v ∷ insert_at ws w n

pub insert_at-length :
    (m : List ℕ) (w : ℕ) (xs ys : List ℕ)
    → m ≡ xs ++ ys
    → insert_at m w (length xs) ≡ xs ++ (w ∷ ys)
unfolding insert_at
insert_at-length m w [] ys e = ap (λ l. w ∷ l) e
insert_at-length m w (x ∷ xs) ys e =
    rw e (ap (λ l. x ∷ l) (insert_at-length (xs ++ ys) w xs ys refl))

abbrev pub lists : MenuShell
lists = record {
  Menu = List ℕ;
  items = λ m. m;
  insert = insert_at;
  append = λ m w. m ++ w ∷ [];
  destroy = λ m w. without w m;
  items-insert = insert_at-length;
  items-append = λ m w. refl;
  items-destroy = λ m w. refl;
}

abbrev Right : Type 0
Right = RightMenu widgets timeouts lists

-- Three widgets before the items and one behind them.
abbrev fresh_right : Right
fresh_right = record {
  ui = λ n. "";
  right = 100 ∷ 101 ∷ 102 ∷ 103 ∷ [];
  tethering = [];
  tech_items = [];
  item_position = 3;
  disabled = true;
  items = λ u. none;
  top = 200;
  dead = false;
  technologies = start;
}

abbrev events : List (Event widgets timeouts lists)
events =
    enable_all
    ∷ popup true []
    ∷ added true "/wifi"
    ∷ added true "/ethernet"
    ∷ added true "/wifi"
    ∷ removed "/bluetooth"
    ∷ []

-- The technology that comes again goes behind the other.
rows_after :
    (run widgets timeouts lists events fresh_right).right ≡ 100 ∷ 101 ∷ 102 ∷ 201 ∷ 202 ∷ 103 ∷ []
unfolding run insert_at without
rows_after = refl

fresh-Apart : Apart widgets timeouts lists (100 ∷ 101 ∷ 102 ∷ []) (103 ∷ []) 200
fresh-Apart v h = (
  (own 100 (omega (arith, h)), (own 101 (omega (arith, h)), (own 102 (omega (arith, h)), tt))),
  (own 103 (omega (arith, h)), tt),
)
  where
    own : (w : ℕ) → w < v → w ≢ v
    own w less e = absurd (omega (arith, less, e))

run-rows_example :
    let m = run widgets timeouts lists events fresh_right in
    (m.right ≡ 100 ∷ 101 ∷ 102 ∷ (rows m.tech_items ++ 103 ∷ []))
    × (m.tethering ≡ rows m.tech_items)
    × (m.item_position ≡ 3 + length m.tech_items)
run-rows_example =
    run-rows widgets timeouts lists (100 ∷ 101 ∷ 102 ∷ []) (103 ∷ []) 200 fresh-Apart events
      fresh_right refl refl refl refl (λ u. refl) (omega arith)
