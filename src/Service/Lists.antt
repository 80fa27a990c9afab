-- ===== src/Service/Lists.antt =====
-- What get_service of lib/service.c finds, and lists of services that it finds by their paths.
use connman_ui.Common.{
  ◌≡◌, refl, ◌∙◌, sym, String, Option, none, some, List, [], ◌∷◌, ◌++◌, str_eq, if◌then◌else◌,
}
use connman_ui.Common.Table.{lookup}
use connman_ui.MainLoop.{MainLoop}
use connman_ui.Service.State.{Service, Pointer, Interface, World, get_service}
use connman_ui.Service.Paths.{path_of, path_at}

module _ (glib : MainLoop) where
  -- get_service, with the service read by its path.
  unfoldable pub found : World glib → Option Pointer → Option Pointer → String → Option Pointer
  found w (some p) o path = some p
  found w none none path = none
  found w none (some p) path = elim (path_at glib w p) [
    | none ↦ none
    | some s ↦ if str_eq path s then some p else none
  ]

  pub found_lem :
      (w : World glib) (i : Interface) (path : String)
      → w.service_if ≡ some i
      → get_service glib path w ≡ found w (lookup path i.services) i.selected_service path
  unfolding get_service found path_at
  found_lem w i path e = rw (e, get_service) (both (lookup path i.services) i.selected_service)
    where
      at :
          (o : Option Service) (p : Pointer)
          → ◌≡◌ {A = Option Pointer}
              (elim o [ none ↦ none | some s ↦ if str_eq path s.path then some p else none ])
              (elim (path_of o) [ none ↦ none | some s ↦ if str_eq path s then some p else none ])
      at none p = refl
      at (some s) p = refl

      both :
          (o c : Option Pointer)
          → ◌≡◌ {A = Option Pointer}
              (elim o [
                | some p ↦ some p
                | none ↦ elim c [
                  | none ↦ none
                  | some p ↦ elim (w.heap p) [
                    | none ↦ none
                    | some s ↦ if str_eq path s.path then some p else none
                  ]
                ]
              ])
              (found w o c path)
      both (some p) c = refl
      both none none = refl
      both none (some p) = at (w.heap p) p

  -- What get_service finds depends on the table, the selected service, and the paths.
  pub get_service-same :
      (w w' : World glib) (i i' : Interface) (path : String)
      → w.service_if ≡ some i
      → w'.service_if ≡ some i'
      → (i'.services ≡ i.services) × (i'.selected_service ≡ i.selected_service)
      → ((q : Pointer) → path_at glib w' q ≡ path_at glib w q)
      → get_service glib path w' ≡ get_service glib path w
  unfolding found
  get_service-same w w' i i' path e e' (t, c) same =
      found_lem w' i' path e'
      ∙ (rw t (rw c (again (lookup path i.services) i.selected_service))
          ∙ sym (found_lem w i path e))
    where
      again : (o c : Option Pointer) → found w' o c path ≡ found w o c path
      again (some p) c = refl
      again none none = refl
      again none (some q) = rw (same q, found)

  -- A pointer of the list shows a path if the service there has it, and get_service finds it by the path.
  abbrev pub Shown : World glib → Pointer → String → Type 0
  Shown w p s = (path_at glib w p ≡ some s) × (get_service glib s w ≡ some p)

  pub Shown-same :
      (w w' : World glib) (i i' : Interface)
      → w.service_if ≡ some i
      → w'.service_if ≡ some i'
      → (i'.services ≡ i.services) × (i'.selected_service ≡ i.selected_service)
      → ((q : Pointer) → path_at glib w' q ≡ path_at glib w q)
      → (q : Pointer) (s : String) → Shown w q s
      → Shown w' q s
  Shown-same w w' i i' e e' kept same q s h =
      (same q ∙ h.0, get_service-same w w' i i' s e e' kept same ∙ h.1)

  -- So for each pointer of a list and each of the given paths, in their order.
  abbrev pub Lists : World glib → List Pointer → List String → Type 0
  Lists w [] [] = Unit
  Lists w (p ∷ ps) (s ∷ ss) = Shown w p s × Lists w ps ss
  Lists w _ _ = ⊥

  pub Lists-mono :
      (w w' : World glib) (ps : List Pointer) (ss : List String)
      → ((q : Pointer) (s : String) → Shown w q s → Shown w' q s)
      → Lists w ps ss
      → Lists w' ps ss
  Lists-mono w w' [] [] k h = tt
  Lists-mono w w' [] (s ∷ ss) k h = h
  Lists-mono w w' (p ∷ ps) [] k h = h
  Lists-mono w w' (p ∷ ps) (s ∷ ss) k h = (k p s h.0, Lists-mono w w' ps ss k h.1)

  pub Lists-append :
      (w : World glib) (ps : List Pointer) (ss : List String) (p : Pointer) (s : String)
      → Shown w p s
      → Lists w ps ss
      → Lists w (ps ++ p ∷ []) (ss ++ s ∷ [])
  Lists-append w [] [] p s e h = (e, tt)
  Lists-append w [] (t ∷ ss) p s e h = absurd h
  Lists-append w (q ∷ ps) [] p s e h = absurd h
  Lists-append w (q ∷ ps) (t ∷ ss) p s e h = (h.0, Lists-append w ps ss p s e h.1)
