-- ===== src/Service/Listed.antt =====
-- The table and the list of lib/service.c against the services that they lead to, and a new service.
use connman_ui.Common.{
  eq_refl, suc, ◌≤◌, ◌≡◌, refl, ◌∙◌, String, false, Option, none, some, List, sym, str_eq,
  Bool-cases, inl, inr, ◌==◌, eq_iff, if◌then◌else◌, arith,
}
use connman_ui.Common.Table.{lookup, insert, lookup-insert}
use connman_ui.MainLoop.{MainLoop}
use connman_ui.Dbus.Libdbus.{Libdbus}
use connman_ui.Service.State.{Service, Pointer, Interface, World, Answers, get_service}
use connman_ui.Service.Property.{modify}
use connman_ui.Service.Lists.{found_lem, found, Shown-same, Shown, Lists-mono, Lists}
use connman_ui.Service.Paths.{path_at, path_at-modify}
use connman_ui.Service.Listing.{create_service}

module _ (glib : MainLoop) where
  -- Each path of the table leads to a service with that path, and no service stands from `top` on.
  pub record IsListed (w : World glib) (i : Interface) : Type 0 where
    pub here : w.service_if ≡ some i
    pub listed :
        (path : String) (p : Pointer)
        → lookup path i.services ≡ some p
        → path_at glib w p ≡ some path
    pub fresh : (p : Pointer) → w.top ≤ p → path_at glib w p ≡ none

  -- The list of the services points to services with the given paths, which get_service finds by them.
  abbrev pub Ordered : World glib → List String → Type 0
  Ordered w ss = (i : Interface) × IsListed w i × Lists glib w i.ordered_services ss

  pub Ordered-same :
      (w w' : World glib) (ss : List String)
      → w'.service_if ≡ w.service_if
      → w'.top ≡ w.top
      → ((q : Pointer) → path_at glib w' q ≡ path_at glib w q)
      → Ordered w ss
      → Ordered w' ss
  Ordered-same w w' ss e t same (i, l, h) = (
    i,
    record {
      here = e ∙ l.here;
      listed = λ path p k. (same p ∙ l.listed path p k);
      fresh = λ p k. (same p ∙ l.fresh p (ground (arith, t)));
    },
    Lists-mono glib w w' i.ordered_services ss
        (Shown-same glib w w' i i l.here (e ∙ l.here) (refl, refl) same) h,
  )

  -- The table, the list and the services are what matters.
  pub Ordered-with :
      (w w' : World glib) (ss : List String) (i i' : Interface)
      → w'.service_if ≡ some i'
      → (i'.services ≡ i.services)
        × (i'.ordered_services ≡ i.ordered_services)
        × (i'.selected_service ≡ i.selected_service)
      → w'.top ≡ w.top
      → ((q : Pointer) → path_at glib w' q ≡ path_at glib w q)
      → IsListed w i
      → Lists glib w i.ordered_services ss
      → Ordered w' ss
  Ordered-with w w' ss i i' e same t at l h = (
    i',
    record {
      here = e;
      listed = λ path p k. ground (arith, same, at p, k, l.listed path p);
      fresh = λ p k. ground (arith, t, at p, l.fresh p);
    },
    rw (same.1) (
        Lists-mono glib w w' i.ordered_services ss
          (Shown-same glib w w' i i' l.here e (same.0, same.2) at) h),
  )

  pub modify-rest :
      (p : Pointer) (f : Service → Service) (w : World glib)
      → ((modify glib p f w).service_if ≡ w.service_if) × ((modify glib p f w).top ≡ w.top)
  modify-rest p f w = known (w.heap p) refl
    where
      known :
          (o : Option Service)
          → w.heap p ≡ o
          → ((modify glib p f w).service_if ≡ w.service_if) × ((modify glib p f w).top ≡ w.top)
      known none e = ground (arith, e)
      known (some s) e = ground (arith, e)

  pub modify-Ordered :
      (p : Pointer) (f : Service → Service) (w : World glib) (ss : List String)
      → ((s : Service) → (f s).path ≡ s.path)
      → Ordered w ss
      → Ordered (modify glib p f w) ss
  modify-Ordered p f w ss kept h =
      let rest = modify-rest p f w in
      Ordered-same w (modify glib p f w) ss rest.0 rest.1 (λ q. path_at-modify glib p q f w kept) h

  pub get_service-path :
      (w : World glib) (i : Interface) (path : String) (p : Pointer)
      → IsListed w i
      → get_service glib path w ≡ some p
      → path_at glib w p ≡ some path
  unfolding get_service path_at
  get_service-path w i path p l e = known (lookup path i.services) refl i.selected_service refl
    where
      known :
          (o : Option Pointer)
          → lookup path i.services ≡ o
          → (c : Option Pointer) → i.selected_service ≡ c
          → path_at glib w p ≡ some path
      known (some q) f c g = ground (arith, l.here, e, f, l.listed path q f)
      known none f none g = ground (arith, l.here, e, f, g)
      known none f (some q) g = chosen (w.heap q) refl
        where
          chosen : (o : Option Service) → w.heap q ≡ o → path_at glib w p ≡ some path
          chosen none k = ground (arith, l.here, e, f, g, k)
          chosen (some s) k = ground (arith, l.here, e, f, g, k, eq_iff path s.path)

  pub create_rest :
      (answers : Answers) (lib : Libdbus) (path : String) (w : World glib) (i : Interface)
      → w.service_if ≡ some i
      → ((create_service glib lib answers path w).service_if
          ≡ some (record i { services = insert path w.top i.services }))
        × ((create_service glib lib answers path w).top ≡ suc w.top)
        × ((q : Pointer)
            → path_at glib (create_service glib lib answers path w) q
              ≡ (if w.top == q then some path else path_at glib w q))
  unfolding create_service path_at
  create_rest answers lib path w i e =
      (ground (arith, e), ground (arith, e), λ q. ground (arith, e))

  pub create-Shown :
      (answers : Answers) (lib : Libdbus) (path : String) (w : World glib) (i : Interface)
      → IsListed w i
      → get_service glib path w ≡ none
      → (q : Pointer) (s : String) → Shown glib w q s
      → Shown glib (create_service glib lib answers path w) q s
  create-Shown answers lib path w i l none_yet q s h =
      let w' = create_service glib lib answers path w in
      let rest = create_rest answers lib path w i l.here in
      let other : str_eq path s ≡ false = elim (Bool-cases (str_eq path s)) [
        | inl e ↦ absurd (cc ((eq_iff path s).0 e, none_yet, h.1))
        | inr e ↦ e
      ] in
      (
        ground (arith, rest.2 q, l.fresh q, h.0),
        found_lem glib w' (record i { services = insert path w.top i.services }) s rest.0
            ∙ rw (lookup-insert path s w.top i.services) (
                rw other (
                  kept (lookup s i.services) i.selected_service
                    (sym (found_lem glib w i s l.here) ∙ h.1))),
      )
    where
      kept :
          (o c : Option Pointer)
          → found glib w o c s ≡ some q
          → found glib (create_service glib lib answers path w) o c s ≡ some q
      kept (some p) c e = unfold found in e
      kept none none e = unfold found in e
      kept none (some p) e =
          unfold found in
          ground (arith, (create_rest answers lib path w i l.here).2 p, l.fresh p, e)

  -- A new service, where the path has none.
  pub create-Ordered :
      (answers : Answers) (lib : Libdbus) (path : String) (w : World glib) (ss : List String)
      → Ordered w ss
      → get_service glib path w ≡ none
      → Ordered (create_service glib lib answers path w) ss
        × Shown glib (create_service glib lib answers path w) w.top path
  create-Ordered answers lib path w ss (i, l, h) none_yet =
      let rest = create_rest answers lib path w i l.here in
      (
        (
          record i { services = insert path w.top i.services },
          record {
            here = rest.0;
            listed = λ j p k. ground (
              arith,
              rest.2 p,
              k,
              lookup-insert path j w.top i.services,
              eq_iff path j,
              l.listed j p,
              l.fresh p,
            );
            fresh = λ p k. ground (arith, rest.1, rest.2 p, l.fresh p);
          },
          Lists-mono glib w (create_service glib lib answers path w) i.ordered_services ss
              (create-Shown answers lib path w i l none_yet) h,
        ),
        (
          ground (arith, rest.2 w.top),
          found_lem glib (create_service glib lib answers path w)
                (record i { services = insert path w.top i.services }) path rest.0
              ∙ rw (lookup-insert path path w.top i.services)
                  (rw (eq_refl path) (unfold found in refl)),
        ),
      )
