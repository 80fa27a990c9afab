-- ===== src/Common.antt =====
-- The names that the modules share: the libraries', passed on, and those of three children.
mod Tests
pub mod Arrays
pub mod Table
pub use Tests.*
pub use Arrays.{length, get_or, set, replicate}
pub use Prim.Native.Nat.{ℕ, zero, suc, ◌+◌, ◌-◌, ◌*◌, ◌≤◌, ◌<◌, ◌%◌, ◌^◌}
pub use Prim.Native.String.{String}
pub use mathlib.Core.Path.{◌≡◌, refl, sym, ap, ◌∙◌}
pub use mathlib.Core.Logic.{◌≢◌, ◌↔◌, ◌⊎◌, inl, inr}
pub use mathlib.Core.Bool.{Bool, true, false, not, ◌&&◌, ◌||◌}
pub use mathlib.Core.Option.{Option, none, some}
pub use mathlib.Core.List.{List, [], ◌∷◌, ◌++◌, map}
pub use native.Mathlib.Omega.{arith}
pub use text.Mathlib.Text.{◌==◌ as str_eq, starts_with}
pub use text.Mathlib.TextEquality.{eq_iff}
pub use text.Mathlib.TextPositions.{eq_refl}

-- The return codes of the library: 0, -EINVAL, -ENOMEM and -EALREADY. `undefined` is none of them: the code
-- wrote past the end of a block, or read through NULL or through a pointer to freed memory, and nothing is known of
-- what it does from there on.
pub data Ret : Type 0 where
  ok einval enomem ealready undefined : Ret

-- `ret == 0`
abbrev pub is_ok : Ret → Bool
is_ok ok = true
is_ok _ = false

-- `pointer != NULL`
abbrev pub is_set {ℓ} : {A : Type ℓ} → Option A → Bool
is_set none = false
is_set (some _) = true
