-- ===== src/Dbus/Read/Arrays.antt =====
-- What cui_dbus_get_array of lib/dbus.c reads, against the list of the positions of the array.
use mathlib.Core.List.{append-nil, append_assoc}
use connman_ui.Common.{
  ℕ, zero, suc, ◌+◌, ◌-◌, ◌*◌, ◌<◌, ◌≡◌, refl, ◌∙◌, ap, Bool, true, false, ◌&&◌, ltb, Option, none,
  some, List, [], ◌∷◌, ◌++◌, ◌==◌, if◌then◌else◌, length, Ret, ok, enomem, undefined, arith,
  Bool-cases, inl, inr, ◌⊎◌,
}
use connman_ui.Dbus.Libdbus.{
  Libdbus, Basic, value_size, type_boolean, type_int16, type_uint16, type_int32, type_uint32,
  type_double, type_string, type_object_path, type_signature, type_variant,
}
use connman_ui.Dbus.Walk.{Pass, return, go_on, continue, over, positions, over-positions}
use connman_ui.Dbus.Read.{
  Cell, array_cell, overrun, slot_size, Out, get_array, get_basic_variant, undefined_array,
  store_value, slot, array_pass, array_done, array_start,
}

-- The types of values that are as long as a pointer, and of the shorter ones.
abbrev pub Wide : ℕ → Type 0
Wide t = (t ≡ type_double) ⊎ (t ≡ type_string) ⊎ (t ≡ type_object_path) ⊎ (t ≡ type_signature)

abbrev pub Narrow : ℕ → Type 0
Narrow t =
    (t ≡ type_boolean) ⊎ (t ≡ type_int16) ⊎ (t ≡ type_uint16) ⊎ (t ≡ type_int32) ⊎ (t ≡ type_uint32)

slot_size-Wide : (t : ℕ) → Wide t → slot_size t ≡ some 8
unfolding slot_size
slot_size-Wide t h = ground (arith, h)

slot_size-Narrow : (t : ℕ) → Narrow t → slot_size t ≡ some 4
unfolding slot_size
slot_size-Narrow t h = ground (arith, h)

-- The calls of realloc from the one behind `n` on, as many as given, all give memory.
abbrev pub memory_from : (ℕ → Bool) → ℕ → ℕ → Bool
memory_from realloc n zero = true
memory_from realloc n (suc k) = realloc (n + 1) && memory_from realloc (n + 1) k

module _ (lib : Libdbus) where
  open lib use {Iter, arg_type, recurse, basic}

  -- The slot for the value at one position, also for that of a variant that holds the type.
  unfoldable pub value_at : ℕ → Iter → Option Basic
  value_at t p =
      if arg_type p == type_variant
      then (if arg_type (recurse p) == t then some (slot t (basic (recurse p))) else none)
      else some (slot (arg_type p) (basic p))

  -- The values at all of them, none if there is one without.
  unfoldable pub values_at : ℕ → List Iter → Option (List Basic)
  values_at t [] = some []
  values_at t (p ∷ ps) = elim (value_at t p) [
    | none ↦ none
    | some v ↦ elim (values_at t ps) [ none ↦ none | some vs ↦ some (v ∷ vs) ]
  ]

  abbrev pub or_null : List Basic → Option (List Basic)
  or_null [] = none
  or_null (v ∷ vs) = some (v ∷ vs)

  abbrev pub as_array : Option (List Basic) → Ret × Out lib
  as_array none = (enomem, (some 0, some (array_cell none)))
  as_array (some vs) = (ok, (some (length vs - 1), some (array_cell (or_null vs))))

  store_value-wide :
      (t : ℕ) (v : Basic) (vs : List Basic) → store_value lib 8 t v vs ≡ go_on (vs ++ slot t v ∷ [])
  unfolding store_value value_size
  store_value-wide t v vs = ground arith

  done-wide : (vs : List Basic) → array_done lib 8 vs ≡ as_array (some vs)
  unfolding array_done
  done-wide [] = refl
  done-wide (v ∷ vs) = ground arith

  abbrev after : List Basic → Option (List Basic) → Option (List Basic)
  after vs none = none
  after vs (some ws) = some (vs ++ ws)

  length-snoc : (vs : List Basic) (v : Basic) → length (vs ++ v ∷ []) ≡ length vs + 1
  length-snoc [] v = refl
  length-snoc (w ∷ vs) v = omega (arith, length-snoc vs v)

  abbrev one_more : Option Basic → Option (List Basic) → Option (List Basic)
  one_more none later = none
  one_more (some v) none = none
  one_more (some v) (some vs) = some (v ∷ vs)

  values_at-cons :
      (t : ℕ) (p : Iter) (ps : List Iter)
      → values_at t (p ∷ ps) ≡ one_more (value_at t p) (values_at t ps)
  unfolding values_at
  values_at-cons t p ps = ground arith

  module _ (realloc : ℕ → Bool) (t : ℕ) where
    abbrev next_of :
        List Basic
        → (Basic → Pass (List Basic) (Ret × Out lib))
        → Option Basic
        → Pass (List Basic) (Ret × Out lib)
    next_of vs store none = return (as_array none)
    next_of vs store (some v) = store v

    -- One pass, while realloc gives memory.
    pass-wide :
        (p : Iter) (vs : List Basic)
        → array_pass lib realloc 8 t p vs ≡ (
            if realloc (length vs + 1)
            then next_of vs (λ v. go_on (vs ++ v ∷ [])) (value_at t p)
            else return (as_array none))
    unfolding array_pass get_basic_variant value_at
    pass-wide p vs = rw store_value-wide (ground arith)

    neither : (b : Bool) → as_array none ≡ as_array (if b then none else none)
    neither true = refl
    neither false = refl

    after-snoc :
        (vs : List Basic) (v : Basic) (o : Option (List Basic))
        → after (vs ++ v ∷ []) o ≡ after vs (one_more (some v) o)
    after-snoc vs v none = refl
    after-snoc vs v (some ws) = rw append_assoc

    over_wide :
        (ps : List Iter) (vs : List Basic)
        → over lib (array_pass lib realloc 8 t) (array_done lib 8) ps vs
          ≡ as_array (
              if memory_from realloc (length vs) (length ps)
              then after vs (values_at t ps)
              else none)
    unfolding over
    over_wide [] vs = unfold values_at in rw append-nil (done-wide vs)
    over_wide (p ∷ ps) vs = rw (pass-wide p vs) (elim (Bool-cases (realloc (length vs + 1))) [
      | inr e ↦ rw e
      | inl e ↦
          rw e
            (rw (values_at-cons t p ps) (known (λ v. over_wide ps (vs ++ v ∷ [])) (value_at t p)))
    ])
      where
        known :
            ((v : Basic)
              → over lib (array_pass lib realloc 8 t) (array_done lib 8) ps (vs ++ v ∷ [])
                ≡ as_array (
                    if memory_from realloc (length (vs ++ v ∷ [])) (length ps)
                    then after (vs ++ v ∷ []) (values_at t ps)
                    else none))
            → (o : Option Basic)
            → continue lib
                (array_pass lib realloc 8 t)
                (array_done lib 8)
                (over lib (array_pass lib realloc 8 t) (array_done lib 8) ps)
                (next_of vs (λ v. go_on (vs ++ v ∷ [])) o)
              ≡ as_array (
                  if memory_from realloc (length vs + 1) (length ps)
                  then after vs (one_more o (values_at t ps))
                  else none)
        known ih none = neither (memory_from realloc (length vs + 1) (length ps))
        known ih (some v) = rw (← length-snoc vs v) (rw (← after-snoc vs v (values_at t ps)) (ih v))

    after-nil : (o : Option (List Basic)) → after [] o ≡ o
    after-nil none = refl
    after-nil (some vs) = refl

    -- Reading an array of doubles, texts, object paths or signatures, which may stand in a variant: with memory for each
    -- of its positions, and if each has a value or is a variant that holds one of the type, the result is 0 with the
    -- slots of all these values in their order, NULL for none, and a length one less than their number (0 for none); else
    -- it is -ENOMEM, with NULL and the length 0. Nothing is written past the end of a block.
    pub get_array_lem :
        (it : Iter) (l : ℕ) (c : Cell Iter)
        → Wide t
        → let ps =
            positions lib
              (if arg_type it == type_variant then recurse (recurse it) else recurse it) in
          get_array lib realloc it t (some l) (some c)
          ≡ as_array (if memory_from realloc 0 (length ps) then values_at t ps else none)
    unfolding get_array array_start
    get_array_lem it l c h =
        let ps =
          positions lib
            (if arg_type it == type_variant then recurse (recurse it) else recurse it) in
        rw (slot_size-Wide t h, get_array)
          (rw (over-positions lib (array_pass lib realloc 8 t) (array_done lib 8)) (
            over_wide ps []
            ∙ ap
                (λ (o : Option (List Basic)).
                  as_array (if memory_from realloc 0 (length ps) then o else none))
                (after-nil (values_at t ps))))

    -- The same loop over blocks whose slots are shorter than a pointer.
    pass-narrow :
        (p : Iter) (vs : List Basic) (v : Basic)
        → ((n : ℕ) → realloc n ≡ true)
        → value_at t p ≡ some v
        → (s : ℕ) × (u : Basic) × (array_pass lib realloc 4 t p vs ≡ store_value lib 4 s u vs)
    unfolding array_pass get_basic_variant value_at
    pass-narrow p vs v given e = elim (Bool-cases (arg_type p == type_variant)) [
      | inl f ↦ elim (Bool-cases (arg_type (recurse p) == t)) [
        | inl g ↦ (t, basic (recurse p), ground (arith, given (length vs + 1), f, g, e))
        | inr g ↦ absurd (ground (arith, f, g, e))
      ]
      | inr f ↦ (arg_type p, basic p, ground (arith, given (length vs + 1), f, e))
    ]

    done-narrow : (v : Basic) (vs : List Basic) → array_done lib 4 (v ∷ vs) ≡ undefined_array lib
    unfolding array_done
    done-narrow v vs = ground arith

    store_value-narrow :
        (s : ℕ) (v : Basic) (vs : List Basic)
        → (store_value lib 4 s v vs ≡ return (undefined_array lib))
          ⊎ (store_value lib 4 s v vs ≡ go_on (vs ++ slot s v ∷ []))
    unfolding store_value
    store_value-narrow s v vs =
        elim (Bool-cases (ltb (4 * (length vs + 2)) (8 * length vs + value_size s))) [
          | inl e ↦ inl (rw e)
          | inr e ↦ inr (rw e)
        ]

    over_narrow :
        (ps : List Iter) (vs ws : List Basic)
        → ((n : ℕ) → realloc n ≡ true)
        → values_at t ps ≡ some ws
        → 0 < length vs + length ps
        → over lib (array_pass lib realloc 4 t) (array_done lib 4) ps vs ≡ undefined_array lib
    unfolding over
    over_narrow [] [] ws given e h = absurd (omega arith)
    over_narrow [] (v ∷ vs) ws given e h = done-narrow v vs
    over_narrow (p ∷ ps) vs ws given e h =
        known (λ v us g. over_narrow ps (vs ++ v ∷ []) us given g (omega (arith, length-snoc vs v)))
          (value_at t p) refl (values_at t ps) refl
      where
        known :
            ((v : Basic) (us : List Basic)
              → values_at t ps ≡ some us
              → over lib (array_pass lib realloc 4 t) (array_done lib 4) ps (vs ++ v ∷ [])
                ≡ undefined_array lib)
            → (o : Option Basic) → value_at t p ≡ o
            → (later : Option (List Basic)) → values_at t ps ≡ later
            → over lib (array_pass lib realloc 4 t) (array_done lib 4) (p ∷ ps) vs
              ≡ undefined_array lib
        known ih none f later g = absurd (cc (values_at-cons t p ps, e, f))
        known ih (some v) f none g = absurd (cc (values_at-cons t p ps, e, f, g))
        known ih (some v) f (some us) g =
            let (s, u, at) = pass-narrow p vs v given f in
            rw at (elim (store_value-narrow s u vs) [
              | inl k ↦ rw k
              | inr k ↦ rw k (ih (slot s u) us g)
            ])

    -- Reading an array of booleans or of integers, of 16 or 32 bits, that is not empty, with memory, where each position
    -- has a value or is a variant that holds one of the type: the code writes past the end of the block that it
    -- was given.
    pub get_array_overruns :
        (it : Iter) (l : ℕ) (c : Cell Iter) (first : Iter) (rest : List Iter) (vs : List Basic)
        → Narrow t
        → ((n : ℕ) → realloc n ≡ true)
        → positions lib (if arg_type it == type_variant then recurse (recurse it) else recurse it)
          ≡ first ∷ rest
        → values_at t (first ∷ rest) ≡ some vs
        → get_array lib realloc it t (some l) (some c) ≡ (undefined, (some 0, some overrun))
    unfolding get_array array_start
    get_array_overruns it l c first rest vs h given at e =
        rw (slot_size-Narrow t h, get_array)
          (rw (over-positions lib (array_pass lib realloc 4 t) (array_done lib 4))
            (rw at (over_narrow (first ∷ rest) [] vs given e (omega arith))))
