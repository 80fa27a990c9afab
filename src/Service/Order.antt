-- ===== src/Service/Order.antt =====
-- The order of the services in lib/service.c is that of ConnMan's message.
use mathlib.Core.List.{append-nil, append_assoc}
use connman_ui.Common.{
  ◌≡◌, refl, ◌∙◌, ap, String, Bool, true, false, Option, none, some, List, [], ◌∷◌, ◌++◌, map, ◌==◌,
  ==_iff, if◌then◌else◌, arith, is_ok, if_either,
}
use connman_ui.MainLoop.{MainLoop}
use connman_ui.Dbus.Libdbus.{Libdbus, null, type_array, type_string}
use connman_ui.Dbus.Walk.{positions, over, over-positions}
use connman_ui.Dbus.Read.{basic_cell, basic_of, text_of_basic, get_basic}
use connman_ui.Dbus.Read.Laws.{foreach-keeps}
use connman_ui.Manager.State.{Callback}
use connman_ui.Service.State.{
  Service, Pointer, Interface, World, Answers, emit, write, get_service, new_service,
}
use connman_ui.Service.State
use connman_ui.Service.Update.{update_field, update_field-path, updated}
use connman_ui.Service.Lists.{Shown-same, Shown, Lists-mono, Lists-append}
use connman_ui.Service.Listed.{
  IsListed, Ordered-with, Ordered, modify-Ordered, get_service-path, create-Ordered,
}
use connman_ui.Service.Paths.{path_of, path_at}
use connman_ui.Service.Life.{with_interface, call_refresh_callback}
use connman_ui.Service.Listing.{
  update_service_property, create_service, append_service, update_or_create_service, object_path,
  services_pass, list_services, unordered, after_services, get_services_cb,
}

updated-path :
    (lib : Libdbus) (answers : Answers) (arg : lib.Iter) (s : Service)
    → (updated lib answers arg s).path ≡ s.path
unfolding updated
updated-path lib answers arg s =
    let (ret, cell) = get_basic lib arg type_string (some (basic_cell null)) in
    let name = text_of_basic (basic_of cell) in
    if_either (λ (t : Service). t.path ≡ s.path) (is_ok ret)
      (update_field lib answers name (lib.next arg) s) s
      (update_field-path lib answers name (lib.next arg) s) refl

if_true {ℓ κ} :
    {A : Type ℓ} (P : A → Type κ) (b : Bool) (x y : A) → b ≡ true → P x → P (if b then x else y)
if_true P true x y e h = h
if_true P false x y e h = absurd (cc)

module _ (glib : MainLoop) where
  module _ (lib : Libdbus) (answers : Answers) where
    open lib use {Iter, arg_type, recurse, next}

    append-Ordered :
        (p : Pointer) (path : String) (dict : Iter) (w : World glib) (ss : List String)
        → Shown glib w p path
        → Ordered glib w ss
        → Ordered glib (append_service glib lib answers p dict w) (ss ++ path ∷ [])
    unfolding append_service update_service_property path_at
    append-Ordered p path dict w ss e (i, l, h) =
        let j : Interface = record i { ordered_services = i.ordered_services ++ p ∷ [] } in
        let v =
          with_interface glib (λ k. record k { ordered_services = k.ordered_services ++ p ∷ [] })
            w in
        let heap : v.heap ≡ w.heap = ground (arith, l.here) in
        let shown : (q : Pointer) (s : String) → Shown glib w q s → Shown glib v q s =
          Shown-same glib w v i j l.here (ground (arith, l.here)) (refl, refl)
            (λ q. ap (λ (f : Pointer → Option Service). path_of (f q)) heap) in
        let there : v.service_if ≡ some j = ground (arith, l.here) in
        let top : v.top ≡ w.top = ground (arith, l.here) in
        let same : (q : Pointer) → path_at glib v q ≡ path_at glib w q =
          λ q. ap (λ (f : Pointer → Option Service). path_of (f q)) heap in
        foreach-keeps lib (λ u. Ordered glib u (ss ++ path ∷ []))
          (update_service_property glib lib answers p)
          (λ it u k.
            modify-Ordered glib p (updated lib answers it) u (ss ++ path ∷ [])
              (updated-path lib answers it) k)
          dict v
          (
            j,
            record {
              here = there;
              listed = λ k q f. (same q ∙ l.listed k q f);
              fresh = λ q f. (same q ∙ l.fresh q (ground (arith, top)));
            },
            Lists-append glib v i.ordered_services ss p path (shown p path e)
                (Lists-mono glib w v i.ordered_services ss shown h),
          )

    update_or_create-Ordered :
        (path : String) (dict : Iter) (w : World glib) (ss : List String)
        → answers.memory ≡ true
        → Ordered glib w ss
        → Ordered glib (update_or_create_service glib lib answers path dict w) (ss ++ path ∷ [])
    unfolding update_or_create_service
    update_or_create-Ordered path dict w ss m (i, l, h) = known (get_service glib path w) refl
      where
        known :
            (o : Option Pointer)
            → get_service glib path w ≡ o
            → Ordered glib (update_or_create_service glib lib answers path dict w) (ss ++ path ∷ [])
        known (some p) e =
            rw (l.here, update_or_create_service)
              (rw e (
                append-Ordered p path dict w ss (get_service-path glib w i path p l e, e)
                  (i, l, h)))
        known none e =
            let made = create-Ordered glib answers lib path w ss (i, l, h) e in
            rw (l.here, update_or_create_service)
              (rw e (
                if_true (λ u. Ordered glib u (ss ++ path ∷ [])) answers.memory _ w m
                  (append-Ordered w.top path dict (create_service glib lib answers path w) ss made.1
                    made.0)))

    over-Ordered :
        (its : List Iter) (w : World glib) (ss : List String)
        → answers.memory ≡ true
        → Ordered glib w ss
        → Ordered glib
            (over lib (services_pass glib lib answers) (λ v. v) its w)
            (ss ++ map (λ it. object_path glib lib answers (recurse it)) its)
    unfolding over services_pass
    over-Ordered [] w ss m h = rw (append-nil ss) h
    over-Ordered (it ∷ its) w ss m h =
        let path = object_path glib lib answers (recurse it) in
        rw
          (← append_assoc ss (path ∷ [])
            (map (λ it. object_path glib lib answers (recurse it)) its))
          (over-Ordered its _ (ss ++ path ∷ []) m
            (update_or_create-Ordered path (next (recurse it)) w ss m h))

    refresh-Ordered :
        (w : World glib) (ss : List String)
        → Ordered glib w ss
        → Ordered glib (call_refresh_callback glib answers w) ss
    unfolding call_refresh_callback path_at
    refresh-Ordered w ss (i, l, h) = known i.refresh_services_cb refl
      where
        known :
            (o : Option Callback)
            → i.refresh_services_cb ≡ o
            → Ordered glib (call_refresh_callback glib answers w) ss
        known none e =
            Ordered-with glib w (call_refresh_callback glib answers w) ss i i
              (ground (arith, l.here, e)) (refl, refl, refl) (ground (arith, l.here, e))
              (λ q. ground (arith, l.here, e)) l h
        known (some cb) e =
            Ordered-with glib w (call_refresh_callback glib answers w) ss i
              (record i { to_refresh = answers.timeout }) (ground (arith, l.here, e))
              (refl, refl, refl) (ground (arith, l.here, e)) (λ q. ground (arith, l.here, e)) l h

    after-Ordered :
        (w : World glib) (ss : List String)
        → Ordered glib w ss
        → Ordered glib (after_services glib lib answers w) ss
    unfolding after_services path_at
    after-Ordered w ss (i, l, h) =
        let asked : World glib =
          emit glib State.get_services
            (record w { service_if = some (record i { refreshed = true }) }) in
        rw (l.here, after_services)
          (if_either (λ u. Ordered glib u ss) i.refreshed (call_refresh_callback glib answers w)
            asked (refresh-Ordered w ss (i, l, h))
            (Ordered-with glib w asked ss i (record i { refreshed = true }) refl (refl, refl, refl)
              refl (λ q. refl) l h))

    unordered-Ordered :
        (w : World glib) (i : Interface)
        → IsListed glib w i
        → Ordered glib (unordered glib lib answers w) []
    unfolding path_at
    unordered-Ordered w i l = (
      record i { ordered_services = [] },
      record {
        here = ground (arith, l.here);
        listed = λ path p k. (ground (arith, l.here) ∙ l.listed path p k);
        fresh = λ p k. (ground (arith, l.here) ∙ l.fresh p (ground (arith, l.here)));
      },
      tt,
    )

    -- ConnMan's answer to GetServices, an array: where each path of the table leads to a service with that
    -- path, and memory does not run out, the list of the services points, in the order of the message, to services
    -- with the paths of the message, get_service finds just that service by each of these paths, and each
    -- path of the table leads again to a service with that path.
    pub get_services_order :
        (iter : Iter) (w : World glib) (i : Interface)
        → answers.memory ≡ true
        → arg_type iter ≡ type_array
        → IsListed glib w i
        → Ordered glib
            (get_services_cb glib lib answers (some iter) w)
            (map (λ it. object_path glib lib answers (recurse it)) (positions lib (recurse iter)))
    unfolding get_services_cb list_services
    get_services_order iter w i m a l =
        let ss =
          map (λ it. object_path glib lib answers (recurse it)) (positions lib (recurse iter)) in
        let v = list_services glib lib answers (recurse iter) (unordered glib lib answers w) in
        let listed : Ordered glib v ss =
          rw
            (over-positions lib (services_pass glib lib answers) (λ v. v) (recurse iter)
              (unordered glib lib answers w))
            (over-Ordered (positions lib (recurse iter)) (unordered glib lib answers w) [] m
              (unordered-Ordered w i l)) in
        rw (l.here, get_services_cb)
          (if_true (λ u. Ordered glib u ss) (arg_type iter == type_array)
            (after_services glib lib answers v) (unordered glib lib answers w)
            ((==_iff (arg_type iter) type_array).1 a) (after-Ordered v ss listed))
