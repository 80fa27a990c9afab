-- ===== src/Service/Index.antt =====
-- Which property lib/service.c announces for a changed entry.
use connman_ui.Common.{ℕ, zero, suc, ◌<◌, ◌≡◌, refl, Bool, true, ◌&&◌, ◌==◌, ==_iff, arith}
use connman_ui.Dbus.Libdbus.{Libdbus, text, type_string}
use connman_ui.Dbus.Read.{get_basic}
use connman_ui.Service.State.{Service, Answers, property, service_max}
use connman_ui.Service.Update.{update_struct, update_list, update_scalar, update_field, updated}

all_below : ℕ → (ℕ → Bool) → Bool
all_below zero p = true
all_below (suc n) p = p n && all_below n p

all_below_sound : (n : ℕ) (p : ℕ → Bool) (i : ℕ) → all_below n p ≡ true → i < n → p i ≡ true
unfolding all_below
all_below_sound zero p i h small = absurd (omega arith)
all_below_sound (suc n) p i h small = ground (arith, all_below_sound n p i)

module _ (lib : Libdbus) (answers : Answers) where
  open lib use {Iter, arg_type, next, basic}

  index_table :
      (arg : Iter) (s : Service)
      → all_below service_max (λ i. (update_field lib answers (property i) arg s).update_index == i)
        ≡ true
  unfolding all_below update_field update_scalar update_list update_struct property
  index_table arg s = refl

  -- An entry named by any of the twenty updatable properties makes that property the one to announce.
  pub updated-update_index :
      (i : ℕ) (arg : Iter) (s : Service)
      → i < service_max
      → arg_type arg ≡ type_string
      → basic arg ≡ text (property i)
      → (updated lib answers arg s).update_index ≡ i
  unfolding updated get_basic
  updated-update_index i arg s small t b =
      let found : arg_type arg == type_string ≡ true = (==_iff _ _).1 t in
      let index = (==_iff (update_field lib answers (property i) (next arg) s).update_index i).0 (
        all_below_sound service_max
          (λ j. (update_field lib answers (property j) (next arg) s).update_index == j) i
          (index_table (next arg) s) small) in
      rw (found, b) index
