-- ===== src/Technology/Notices/Slots.antt =====
-- How the steps of lib/technology.c change one slot of `to_update`.
use connman_ui.Common.{
  ℕ, ◌<◌, ◌≡◌, refl, String, not, ◌&&◌, Option, none, some, ◌==◌, str_eq, eq_iff, ==_iff,
  if◌then◌else◌, get_or, set, length, arith, Bool-cases, inl, inr,
}
use connman_ui.Common.Arrays.{get_or-set_self, get_or-set_ne, get_or-set_default, length-set}
use connman_ui.Common.Table.{lookup-insert}
use connman_ui.MainLoop.{MainLoop, PropertyChange}
use connman_ui.Technology.State.{Technology, World, get_technology, put_technology}
use connman_ui.Technology.Property.{destroy_property, store_update}

-- The identifier that a technology keeps for a property, 0 for none or without the technology.
abbrev pub slot_of : Option Technology → ℕ → ℕ
slot_of none i = 0
slot_of (some t) i = get_or t.to_update i 0

abbrev pub room_of : Option Technology → ℕ
room_of none = 5
room_of (some t) = length t.to_update

set_slot :
    (t : Technology) (i j v : ℕ)
    → i < length t.to_update
    → get_or (set t.to_update i v) j 0 ≡ (if i == j then v else get_or t.to_update j 0)
set_slot t i j v h = elim (Bool-cases (i == j)) [
  | inl e ↦ rw e (rw (← (==_iff i j).0 e) (get_or-set_self t.to_update i v 0 h))
  | inr e ↦ rw e (get_or-set_ne t.to_update i j v 0 (λ p. cc (e, (==_iff i j).1 p)))
]

clear_slot :
    (t : Technology) (i j : ℕ)
    → get_or (set t.to_update i 0) j 0 ≡ (if i == j then 0 else get_or t.to_update j 0)
clear_slot t i j = elim (Bool-cases (i == j)) [
  | inl e ↦ rw e (rw (← (==_iff i j).0 e) (get_or-set_default t.to_update i 0))
  | inr e ↦ rw e (get_or-set_ne t.to_update i j 0 0 (λ p. cc (e, (==_iff i j).1 p)))
]

module _ (glib : MainLoop) where
  unfoldable pub slot : World glib → String → ℕ → ℕ
  slot w path i = slot_of (get_technology glib path w) i

  unfoldable pub room : World glib → String → ℕ
  room w path = room_of (get_technology glib path w)

  pub get-put :
      (k j : String) (t t' : Technology) (w : World glib)
      → get_technology glib k w ≡ some t
      → get_technology glib j (put_technology glib k t' w)
        ≡ (if str_eq k j then some t' else get_technology glib j w)
  unfolding get_technology put_technology
  get-put k j t t' w h = grind (arith, lookup-insert)

  pub slot-destroy_property :
      (p : PropertyChange) (w : World glib) (path : String) (i : ℕ)
      → slot (destroy_property glib p w) path i
        ≡ (if not p.error && (str_eq p.path path && p.index == i) then 0 else slot w path i)
  unfolding slot destroy_property
  slot-destroy_property p w path i = known (get_technology glib p.path w) refl
    where
      known :
          (o : Option Technology)
          → get_technology glib p.path w ≡ o
          → slot (destroy_property glib p w) path i
            ≡ (if not p.error && (str_eq p.path path && p.index == i) then 0 else slot w path i)
      known none e = rw (e, destroy_property) (ground (arith, e, eq_iff p.path path))
      known (some t) e =
          rw (e, destroy_property)
            (ground (
              arith,
              e,
              eq_iff p.path path,
              clear_slot t p.index i,
              get-put p.path path t (record t { to_update = set t.to_update p.index 0 }) w e,
              get-put p.path path t (record t { to_error = set t.to_error p.index 0 }) w e,
            ))

  pub slot-store_update :
      (path : String) (i id : ℕ) (loop : glib.Loop) (w : World glib) (j : String) (k : ℕ)
      (t : Technology)
      → get_technology glib path (record w { loop = loop }) ≡ some t
      → i < length t.to_update
      → slot (store_update glib path i (id, loop) w) j k
        ≡ (if str_eq path j && i == k then id else slot (record w { loop = loop }) j k)
  unfolding slot store_update
  slot-store_update path i id loop w j k t e h =
      rw (e, store_update)
        (ground (
          arith,
          e,
          eq_iff path j,
          set_slot t i k id h,
          get-put path j t (record t { to_update = set t.to_update i id })
              (record w { loop = loop }) e,
        ))

  pub room-destroy_property :
      (p : PropertyChange) (w : World glib) (path : String)
      → room (destroy_property glib p w) path ≡ room w path
  unfolding room destroy_property store_update
  room-destroy_property p w path = known (get_technology glib p.path w) refl
    where
      known :
          (o : Option Technology)
          → get_technology glib p.path w ≡ o
          → room (destroy_property glib p w) path ≡ room w path
      known none e = rw (e, destroy_property)
      known (some t) e =
          rw (e, destroy_property)
            (ground (
              arith,
              e,
              eq_iff p.path path,
              length-set t.to_update p.index 0,
              get-put p.path path t (record t { to_update = set t.to_update p.index 0 }) w e,
              get-put p.path path t (record t { to_error = set t.to_error p.index 0 }) w e,
            ))

  pub room-store_update :
      (path : String) (i id : ℕ) (loop : glib.Loop) (w : World glib) (j : String) (t : Technology)
      → get_technology glib path (record w { loop = loop }) ≡ some t
      → room (store_update glib path i (id, loop) w) j ≡ room (record w { loop = loop }) j
  unfolding room destroy_property store_update
  room-store_update path i id loop w j t e =
      rw (e, store_update)
        (ground (
          arith,
          e,
          eq_iff path j,
          length-set t.to_update i id,
          get-put path j t (record t { to_update = set t.to_update i id })
              (record w { loop = loop }) e,
        ))

  pub loop-put :
      (path : String) (t : Technology) (w : World glib)
      → (put_technology glib path t w).loop ≡ w.loop
  unfolding put_technology
  loop-put path t w = ground arith

  pub loop-destroy_property :
      (p : PropertyChange) (w : World glib) → (destroy_property glib p w).loop ≡ w.loop
  unfolding destroy_property
  loop-destroy_property p w = grind (arith, loop-put)

  pub loop-store_update :
      (path : String) (i id : ℕ) (loop : glib.Loop) (w : World glib)
      → (store_update glib path i (id, loop) w).loop ≡ loop
  unfolding store_update
  loop-store_update path i id loop w = grind (arith, loop-put)
