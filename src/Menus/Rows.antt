-- ===== src/Menus/Rows.antt =====
-- The items of a menu that a hash table has, in the order in which they came.
use mathlib.Core.List.{append-nil}
use connman_ui.Common.{
  ℕ, suc, ◌+◌, ◌≡◌, ◌≢◌, refl, ◌∙◌, ap, String, false, Option, none, some, List, [], ◌∷◌, ◌++◌,
  ◌==◌, ==_iff, str_eq, eq_iff, Bool-cases, inl, inr, length, if◌then◌else◌, arith,
}
use connman_ui.Common.Table.{Table, lookup, remove, lookup-remove}
use connman_ui.Menus.Shell.{without}

pub length-append : (xs ys : List ℕ) → length (xs ++ ys) ≡ length xs + length ys
length-append [] ys = omega arith
length-append (x ∷ xs) ys = omega (arith, length-append xs ys)

-- The widgets of a table, the first that came first.
unfoldable pub rows : Table ℕ → List ℕ
rows [] = []
rows ((k, v) ∷ m) = rows m ++ v ∷ []

-- Each key has one widget, whose name it is.
abbrev pub IsNamed : (ℕ → Option String) → Table ℕ → Type 0
IsNamed name [] = Unit
IsNamed name ((k, v) ∷ m) = (name v ≡ some k) × (lookup k m ≡ none) × IsNamed name m

pub without-append : (v : ℕ) (xs ys : List ℕ) → without v (xs ++ ys) ≡ without v xs ++ without v ys
unfolding without
without-append v [] ys = refl
without-append v (x ∷ xs) ys = ground (arith, without-append v xs ys)

-- The widgets of a list all differ from one.
abbrev pub Lacks : ℕ → List ℕ → Type 0
Lacks v [] = Unit
Lacks v (x ∷ xs) = (x ≢ v) × Lacks v xs

pub without-Lacks : (v : ℕ) (xs : List ℕ) → Lacks v xs → without v xs ≡ xs
unfolding without
without-Lacks v [] h = refl
without-Lacks v (x ∷ xs) (n, h) = ground (arith, without-Lacks v xs h, ==_iff x v, n)

pub remove-absent : (k : String) (m : Table ℕ) → lookup k m ≡ none → remove k m ≡ m
unfolding lookup remove
remove-absent k [] h = refl
remove-absent k ((j, v) ∷ m) h = ground (arith, remove-absent k m)

without-one : (v u : ℕ) → without v (u ∷ []) ≡ (if u == v then [] else u ∷ [])
unfolding without
without-one v u = refl

without-nil : (v : ℕ) → without v [] ≡ []
unfolding without
without-nil v = refl

module _ (name : ℕ → Option String) where
  differ :
      (j k : String) (u v : ℕ)
      → name u ≡ some j
      → name v ≡ some k
      → str_eq j k ≡ false
      → u == v ≡ false
  differ j k u v a e h = elim (Bool-cases (u == v)) [
    | inl same ↦ let u≡v = (==_iff u v).0 same in ground (arith, eq_iff j k, ap name u≡v)
    | inr other ↦ other
  ]

  pub rows-absent :
      (k : String) (v : ℕ) (m : Table ℕ)
      → IsNamed name m
      → lookup k m ≡ none
      → name v ≡ some k
      → without v (rows m) ≡ rows m
  unfolding lookup rows
  rows-absent k v [] n h e = without-nil v
  rows-absent k v ((j, u) ∷ m) (a, b, n) h e = elim (Bool-cases (str_eq j k)) [
    | inl same ↦ absurd (ground (arith, h, same))
    | inr other ↦
        without-append v (rows m) (u ∷ [])
        ∙ rw (without-one, differ j k u v a e other)
            (ap (λ r. r ++ u ∷ []) (rows-absent k v m n (ground (arith, h, other)) e))
  ]

  -- The widget that a key has leaves the rows with the key.
  pub rows-remove :
      (k : String) (v : ℕ) (m : Table ℕ)
      → IsNamed name m
      → lookup k m ≡ some v
      → name v ≡ some k
      → without v (rows m) ≡ rows (remove k m)
  unfolding lookup remove rows
  rows-remove k v [] n h e = absurd (cc h)
  rows-remove k v ((j, u) ∷ m) (a, b, n) h e = elim (Bool-cases (str_eq j k)) [
    | inl same ↦
        let gone : lookup k m ≡ none = rw (← (eq_iff j k).0 same) b in
        let found : u ≡ v = ground (arith, h, same) in
        without-append v (rows m) (u ∷ [])
        ∙ rw (same, without-one, found, (==_iff v v).1 refl, append-nil, remove-absent k m gone)
            (rows-absent k v m n gone e)
    | inr other ↦
        without-append v (rows m) (u ∷ [])
        ∙ rw (without-one, differ j k u v a e other, other)
            (ap (λ r. r ++ u ∷ []) (rows-remove k v m n (ground (arith, h, other)) e))
  ]

  -- What happens to the number of its keys, and to the names, when a key goes or comes.
  pub length-remove :
      (k : String) (v : ℕ) (m : Table ℕ)
      → IsNamed name m
      → lookup k m ≡ some v
      → length m ≡ suc (length (remove k m))
  unfolding lookup remove
  length-remove k v [] n h = absurd (cc h)
  length-remove k v ((j, u) ∷ m) (a, b, n) h = elim (Bool-cases (str_eq j k)) [
    | inl same ↦
        let gone : lookup k m ≡ none = rw (← (eq_iff j k).0 same) b in
        rw (same, remove-absent k m gone) refl
    | inr other ↦ rw other (ap suc (length-remove k v m n (ground (arith, h, other))))
  ]

  pub remove-IsNamed : (k : String) (m : Table ℕ) → IsNamed name m → IsNamed name (remove k m)
  unfolding remove
  remove-IsNamed k [] n = n
  remove-IsNamed k ((j, u) ∷ m) (a, b, n) = elim (Bool-cases (str_eq j k)) [
    | inl same ↦ rw same (remove-IsNamed k m n)
    | inr other ↦ rw other (a, (lookup-remove k j m ∙ ground (arith, b)), remove-IsNamed k m n)
  ]

  pub lookup-IsNamed :
      (k : String) (v : ℕ) (m : Table ℕ) → IsNamed name m → lookup k m ≡ some v → name v ≡ some k
  unfolding lookup
  lookup-IsNamed k v [] n h = absurd (cc h)
  lookup-IsNamed k v ((j, u) ∷ m) (a, b, n) h = elim (Bool-cases (str_eq j k)) [
    | inl same ↦ ground (arith, h, same, a, eq_iff j k)
    | inr other ↦ lookup-IsNamed k v m n (ground (arith, h, other))
  ]

-- Names that agree where a widget has one.
pub keep-IsNamed :
    (name name' : ℕ → Option String) (m : Table ℕ)
    → ((u : ℕ) (k : String) → name u ≡ some k → name' u ≡ some k)
    → IsNamed name m
    → IsNamed name' m
keep-IsNamed name name' [] agree n = n
keep-IsNamed name name' ((k, v) ∷ m) agree (a, b, n) =
    (agree v k a, b, keep-IsNamed name name' m agree n)

pub length-rows : (m : Table ℕ) → length (rows m) ≡ length m
unfolding rows
length-rows [] = refl
length-rows ((k, v) ∷ m) = length-append (rows m) (v ∷ []) ∙ omega (arith, length-rows m)
