-- ===== src/Service/Paths.antt =====
-- The paths of the services of lib/service.c, as they are read through pointers.
use connman_ui.Common.{◌≡◌, refl, String, Option, none, some, List, [], ◌∷◌, ==_iff, arith}
use connman_ui.MainLoop.{MainLoop}
use connman_ui.Service.State.{Service, Pointer, World}
use connman_ui.Service.Property.{modify}

abbrev pub path_of : Option Service → Option String
path_of none = none
path_of (some s) = some s.path

module _ (glib : MainLoop) where
  -- The path that is read through a pointer, none after a free.
  unfoldable pub path_at : World glib → Pointer → Option String
  path_at w p = path_of (w.heap p)

  pub path_at-modify :
      (p q : Pointer) (f : Service → Service) (w : World glib)
      → ((s : Service) → (f s).path ≡ s.path)
      → path_at (modify glib p f w) q ≡ path_at w q
  unfolding path_at
  path_at-modify p q f w kept = known (w.heap p) refl
    where
      known : (o : Option Service) → w.heap p ≡ o → path_at (modify glib p f w) q ≡ path_at w q
      known none e = ground (arith, e)
      known (some s) e = ground (arith, e, kept s, ==_iff p q)

  -- The pointers of a list show the given paths.
  abbrev pub Shows : World glib → List Pointer → List String → Type 0
  Shows w [] [] = Unit
  Shows w (p ∷ ps) (s ∷ ss) = (path_at w p ≡ some s) × Shows w ps ss
  Shows w _ _ = ⊥

  pub Shows-mono :
      (w w' : World glib) (ps : List Pointer) (ss : List String)
      → ((q : Pointer) (s : String) → path_at w q ≡ some s → path_at w' q ≡ some s)
      → Shows w ps ss
      → Shows w' ps ss
  Shows-mono w w' [] [] k h = tt
  Shows-mono w w' [] (s ∷ ss) k h = h
  Shows-mono w w' (p ∷ ps) [] k h = h
  Shows-mono w w' (p ∷ ps) (s ∷ ss) k h = (k p s h.0, Shows-mono w w' ps ss k h.1)
