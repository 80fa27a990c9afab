-- ===== src/Service/Selected.antt =====
-- The selected service of lib/service.c, which may outlive its place in the table.
use connman_ui.Common.{
  ℕ, ◌≡◌, refl, ap, ◌∙◌, true, false, Option, none, some, List, [], ◌∷◌, ◌==◌, ==_iff,
  if◌then◌else◌, arith,
}
use connman_ui.Common.Table.{lookup}
use connman_ui.MainLoop.{MainLoop, PropertyChange}
use connman_ui.Manager.State.{PendingCall}
use connman_ui.Manager.Timeouts.{among}
use connman_ui.Service.State.{Service, Pointer, Interface, World, emit, get_service, remove_watch}
use connman_ui.Service.Property.{modify, destroy_property, source_remove, source_remove_if_set}
use connman_ui.Service.Life.{
  free_slots, drop_call, is_selected, service_free, connman_service_deselect,
}

module _ (glib : MainLoop) where
  open glib use {find}

  modify-service_if :
      (p : Pointer) (f : Service → Service) (w : World glib)
      → (modify glib p f w).service_if ≡ w.service_if
  modify-service_if p f w = ground arith

  destroy-service_if :
      (p : PropertyChange) (w : World glib) → (destroy_property glib p w).service_if ≡ w.service_if
  unfolding destroy_property
  destroy-service_if p w = ground arith

  remove-service_if :
      (id : ℕ) (w : World glib) → (source_remove_if_set glib id w).service_if ≡ w.service_if
  unfolding source_remove
  remove-service_if id w = known (find w.loop id) refl
    where
      known :
          (o : Option PropertyChange)
          → find w.loop id ≡ o
          → (source_remove_if_set glib id w).service_if ≡ w.service_if
      known none e = ground (arith, e)
      known (some p) e =
          ground (arith, e, destroy-service_if p (record w { loop = glib.remove w.loop id }))

  free_slots-service_if :
      (us : List ℕ) (cs : List (Option PendingCall)) (es : List ℕ) (w : World glib)
      → (free_slots glib us cs es w).service_if ≡ w.service_if
  unfolding free_slots
  free_slots-service_if (u ∷ us) (c ∷ cs) (e ∷ es) w =
      let w1 = source_remove_if_set glib u w in
      let w2 = drop_call glib c w1 in
      let dropped : w2.service_if ≡ w1.service_if = dropped_same c w1 in
      free_slots-service_if us cs es (source_remove_if_set glib e w2)
      ∙ (remove-service_if e w2 ∙ (dropped ∙ remove-service_if u w))
    where
      dropped_same :
          (o : Option PendingCall) (v : World glib) → (drop_call glib o v).service_if ≡ v.service_if
      dropped_same none v = refl
      dropped_same (some k) v = refl
  free_slots-service_if [] cs es w = refl
  free_slots-service_if (u ∷ us) [] es w = refl
  free_slots-service_if (u ∷ us) (c ∷ cs) [] w = refl

  freed :
      (p : Pointer) (s : Service) (w : World glib)
      → is_selected glib p w ≡ false
      → w.heap p ≡ some s
      → ((service_free glib p w).heap p ≡ none)
        × ((service_free glib p w).service_if ≡ w.service_if)
  unfolding service_free
  freed p s w n h =
      let v : World glib =
        if s.property_changed_wid == 0
        then w
        else emit glib (remove_watch s.property_changed_wid) w in
      let kept = free_slots-service_if s.to_update s.call_modify s.to_error v in
      (ground (arith, n, h, ==_iff p p), ground (arith, n, h, kept))

  -- A selected service that is listed but that the table has not: deselecting it frees it, and the list
  -- of the services still points to it.
  pub deselect_dangles :
      (w : World glib) (i : Interface) (p : Pointer) (s : Service)
      → w.service_if ≡ some i
      → i.selected_service ≡ some p
      → w.heap p ≡ some s
      → lookup s.path i.services ≡ none
      → among p i.ordered_services ≡ true
      → ((connman_service_deselect glib w).heap p ≡ none)
        × (i' : Interface) × ((connman_service_deselect glib w).service_if ≡ some i')
        × (among p i'.ordered_services ≡ true)
  unfolding connman_service_deselect get_service
  deselect_dangles w i p s e c h l a =
      let i' : Interface = record i { selected_service = none } in
      let w' : World glib = record w { service_if = some i' } in
      let gone : connman_service_deselect glib w ≡ service_free glib p w' =
        ground (arith, e, c, h, l) in
      let f = freed p s w' refl h in
      (
        ap (λ (v : World glib). v.heap p) gone ∙ f.0,
        i',
        ap (λ (v : World glib). v.service_if) gone ∙ f.1,
        a,
      )
