-- ===== src/Menus/Shell.antt =====
-- What the menus use of GtkMenuShell, which is not part of the repository, behind an interface.
use connman_ui.Common.{ℕ, ◌≡◌, ◌==◌, List, [], ◌∷◌, ◌++◌, length, if◌then◌else◌}

-- The widgets of a list but one.
unfoldable pub without : ℕ → List ℕ → List ℕ
without v [] = []
without v (w ∷ ws) = let rest = without v ws in if w == v then rest else w ∷ rest

-- A menu is its widgets, by numbers. An item is inserted before the one at its position, and a widget that
-- is destroyed leaves its menu.
pub record MenuShell : Type 1 where
  pub Menu : Type 0
  pub items : Menu → List ℕ
  pub insert : Menu → ℕ → ℕ → Menu
  pub append : Menu → ℕ → Menu
  pub destroy : Menu → ℕ → Menu
  pub items-insert :
      (m : Menu) (w : ℕ) (xs ys : List ℕ)
      → items m ≡ xs ++ ys
      → items (insert m w (length xs)) ≡ xs ++ (w ∷ ys)
  pub items-append : (m : Menu) (w : ℕ) → items (append m w) ≡ items m ++ w ∷ []
  pub items-destroy : (m : Menu) (w : ℕ) → items (destroy m w) ≡ without w (items m)
