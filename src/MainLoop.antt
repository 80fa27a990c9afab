-- ===== src/MainLoop.antt =====
-- struct property_change of lib/connman-private.h, and what the code uses of GLib's main loop, which
-- is not part of the repository, behind an interface.
use connman_ui.Common.{ℕ, String, Bool, Option, none, some, ◌<◌, ◌≡◌, ◌==◌, if◌then◌else◌}

-- `error` tells whether the member is -1 and not 0.
pub record PropertyChange : Type 0 where
  pub index : ℕ
  pub path : String
  pub name : String
  pub error : Bool

-- The timeouts that are attached, with their user data. g_timeout_add_full gives an identifier above 0
-- that no attached timeout has, 0 is no identifier, and g_source_remove detaches one.
pub record MainLoop : Type 1 where
  pub Loop : Type 0
  pub find : Loop → ℕ → Option PropertyChange
  pub add : Loop → PropertyChange → ℕ × Loop
  pub remove : Loop → ℕ → Loop
  pub find_zero : (l : Loop) → find l 0 ≡ none
  pub add_pos : (l : Loop) (p : PropertyChange) → 0 < (add l p).0
  pub add_fresh : (l : Loop) (p : PropertyChange) → find l (add l p).0 ≡ none
  pub find-add :
      (l : Loop) (p : PropertyChange) (i : ℕ)
      → find (add l p).1 i ≡ (if (add l p).0 == i then some p else find l i)
  pub find-remove : (l : Loop) (i j : ℕ) → find (remove l i) j ≡ (if i == j then none else find l j)
