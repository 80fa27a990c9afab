-- ===== src/Dbus/Walk.antt =====
-- The loop shape of lib/dbus.c, lib/technology.c and lib/service.c: while the type of the iterator is
-- not DBUS_TYPE_INVALID, a body that may return, then dbus_message_iter_next.
use connman_ui.Common.{
  ℕ, zero, suc, ◌≤◌, ◌≡◌, refl, inl, inr, true, arith, ◌==◌, ==_iff, Bool-cases, if◌then◌else◌, ◌∙◌,
  List, [], ◌∷◌,
}
use connman_ui.Dbus.Libdbus.{Libdbus, type_invalid}

-- What one pass of the body does: return from the function, or go on with new locals.
pub data Pass {ℓ} (S R : Type ℓ) : Type ℓ where
  return : R → Pass S R
  go_on : S → Pass S R

module _ (lib : Libdbus) where
  open lib use {Iter, arg_type, next, left, next_left}

  -- The positions that the loop can reach, and the same loop over their list.
  positions_from : ℕ → Iter → List Iter
  positions_from zero it = []
  positions_from (suc f) it =
      let rest = positions_from f (next it) in if arg_type it == type_invalid then [] else it ∷ rest

  unfoldable pub positions : Iter → List Iter
  unfolding positions_from
  positions it = positions_from (left it) it

  module _ {S R : Type 0} (body : Iter → S → Pass S R) (after : S → R) where
    abbrev pub continue : (S → R) → Pass S R → R
    continue rest (return r) = r
    continue rest (go_on s) = rest s

    -- The first number is fuel.
    pub walk : ℕ → Iter → S → R
    walk zero it s = after s
    walk (suc f) it s =
        let rest = walk f (next it) in
        if arg_type it == type_invalid then after s else continue rest (body it s)

    -- `left` says how many passes there are.
    unfoldable pub while_valid : Iter → S → R
    unfolding walk
    while_valid it = walk (left it) it

    continue-eq : (h k : S → R) (p : Pass S R) → ((s : S) → h s ≡ k s) → continue h p ≡ continue k p
    continue-eq h k (return r) e = refl
    continue-eq h k (go_on s) e = e s

    left_none : (it : Iter) → left it ≤ 0 → arg_type it == type_invalid ≡ true
    left_none it h = elim (Bool-cases (arg_type it == type_invalid)) [
      | inl e ↦ e
      | inr e ↦ absurd (omega (arith, next_left it (λ p. cc (e, (==_iff _ _).1 p))))
    ]

    -- More fuel than `left` changes nothing.
    walk_enough :
        (f g : ℕ) (it : Iter) (s : S) → left it ≤ f → left it ≤ g → walk f it s ≡ walk g it s
    unfolding walk
    walk_enough zero zero it s hf hg = refl
    walk_enough zero (suc g) it s hf hg = rw (left_none it hf)
    walk_enough (suc f) zero it s hf hg = rw (left_none it hg)
    walk_enough (suc f) (suc g) it s hf hg = elim (Bool-cases (arg_type it == type_invalid)) [
      | inl e ↦ rw e
      | inr e ↦
          let shorter = next_left it (λ p. cc (e, (==_iff _ _).1 p)) in
          rw e (
            continue-eq (walk f (next it)) (walk g (next it)) (body it s)
              (λ t. walk_enough f g (next it) t (omega arith) (omega arith)))
    ]

    -- The loop is the `while` of the source: it ends at DBUS_TYPE_INVALID, returns when the body
    -- does, and else starts again from the next position. The fuel never runs out before.
    pub while_valid_lem :
        (it : Iter) (s : S)
        → while_valid it s ≡ (
            if arg_type it == type_invalid
            then after s
            else continue (while_valid (next it)) (body it s))
    unfolding while_valid
    while_valid_lem it s =
        walk_enough (left it) (suc (left it)) it s (omega arith) (omega arith)
        ∙ (unfold walk in
            elim (Bool-cases (arg_type it == type_invalid)) [
              | inl e ↦ rw e
              | inr e ↦
                  let shorter = next_left it (λ p. cc (e, (==_iff _ _).1 p)) in
                  rw e (
                    continue-eq (walk (left it) (next it)) (walk (left (next it)) (next it))
                      (body it s)
                      (λ t.
                        walk_enough (left it) (left (next it)) (next it) t (omega arith)
                          (omega arith)))
            ])

    unfoldable pub over : List Iter → S → R
    over [] s = after s
    over (it ∷ its) s = continue (over its) (body it s)

    over-positions_from : (f : ℕ) (it : Iter) (s : S) → walk f it s ≡ over (positions_from f it) s
    unfolding walk over positions_from
    over-positions_from zero it s = refl
    over-positions_from (suc f) it s = elim (Bool-cases (arg_type it == type_invalid)) [
      | inl e ↦ rw e
      | inr e ↦ rw e (
          continue-eq (walk f (next it)) (over (positions_from f (next it))) (body it s)
            (over-positions_from f (next it)))
    ]

    -- The loop is a recursion over the list of the positions.
    pub over-positions : (it : Iter) (s : S) → while_valid it s ≡ over (positions it) s
    unfolding while_valid positions
    over-positions it s = over-positions_from (left it) it s
