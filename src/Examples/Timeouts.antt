-- ===== src/Examples/Timeouts.antt =====
-- A main loop as the list of all the timeouts there were, from identifier 1 on.
use connman_ui.Common.{
  ℕ, zero, suc, ◌<◌, ◌≡◌, refl, Option, none, some, List, [], ◌∷◌, ◌++◌, ◌==◌, ◌∙◌, if◌then◌else◌,
  length, get_or, set, arith,
}
use connman_ui.MainLoop.{MainLoop, PropertyChange}

abbrev pub Timeouts : Type 0
Timeouts = List (Option PropertyChange)

unfoldable pub find : Timeouts → ℕ → Option PropertyChange
find l zero = none
find l (suc i) = get_or l i none

unfoldable pub add : Timeouts → PropertyChange → ℕ × Timeouts
add l p = (suc (length l), l ++ some p ∷ [])

unfoldable pub remove : Timeouts → ℕ → Timeouts
remove l zero = l
remove l (suc i) = set l i none

past_end : (l : Timeouts) → get_or l (length l) none ≡ none
past_end [] = refl
past_end (o ∷ l) = past_end l

at_append :
    (l : Timeouts) (p : PropertyChange) (i : ℕ)
    → get_or (l ++ some p ∷ []) i none ≡ (if length l == i then some p else get_or l i none)
at_append [] p zero = refl
at_append [] p (suc i) = ground arith
at_append (o ∷ l) p zero = ground arith
at_append (o ∷ l) p (suc i) = at_append l p i ∙ ground arith

at_set :
    (l : Timeouts) (i j : ℕ)
    → get_or (set l i none) j none ≡ (if i == j then none else get_or l j none)
at_set [] i j = ground arith
at_set (o ∷ l) zero zero = refl
at_set (o ∷ l) zero (suc j) = ground arith
at_set (o ∷ l) (suc i) zero = ground arith
at_set (o ∷ l) (suc i) (suc j) = at_set l i j ∙ ground arith

pub find-add :
    (l : Timeouts) (p : PropertyChange) (i : ℕ)
    → find (add l p).1 i ≡ (if (add l p).0 == i then some p else find l i)
unfolding find add
find-add l p zero = ground arith
find-add l p (suc i) = at_append l p i ∙ ground arith

pub find-remove :
    (l : Timeouts) (i j : ℕ) → find (remove l i) j ≡ (if i == j then none else find l j)
unfolding find remove
find-remove l zero zero = refl
find-remove l zero (suc j) = ground arith
find-remove l (suc i) zero = ground arith
find-remove l (suc i) (suc j) = at_set l i j ∙ ground arith

pub find_zero : (l : Timeouts) → find l zero ≡ none
unfolding find
find_zero l = refl

pub add_pos : (l : Timeouts) (p : PropertyChange) → 0 < (add l p).0
unfolding add
add_pos l p = omega arith

pub add_fresh : (l : Timeouts) (p : PropertyChange) → find l (add l p).0 ≡ none
unfolding find add
add_fresh l p = past_end l

abbrev pub timeouts : MainLoop
timeouts = record {
  Loop = Timeouts;
  find = find;
  add = add;
  remove = remove;
  find_zero = find_zero;
  add_pos = add_pos;
  add_fresh = add_fresh;
  find-add = find-add;
  find-remove = find-remove;
}
