-- ===== src/Menus/Split.antt =====
-- The new items of the left menu, and how they are split between its two menus.
use connman_ui.Common.{
  ℕ, zero, suc, ◌≡◌, ◌≢◌, refl, ◌∙◌, String, none, List, [], ◌∷◌, arith, eq_iff,
}
use connman_ui.Common.Table.{Table, lookup, insert, lookup-insert}

unfoldable pub take : {A : Type 0} → ℕ → List A → List A
take n [] = []
take zero (x ∷ xs) = []
take (suc n) (x ∷ xs) = x ∷ take n xs

unfoldable pub drop : {A : Type 0} → ℕ → List A → List A
drop n [] = []
drop zero (x ∷ xs) = x ∷ xs
drop (suc n) (x ∷ xs) = drop n xs

pub take-zero : (xs : List ℕ) → take zero xs ≡ []
unfolding take
take-zero [] = refl
take-zero (x ∷ xs) = refl

pub drop-zero : (xs : List ℕ) → drop zero xs ≡ xs
unfolding drop
drop-zero [] = refl
drop-zero (x ∷ xs) = refl

-- As many numbers as there are services, from one on.
unfoldable pub numbers : {A : Type 0} → ℕ → List A → List ℕ
numbers v [] = []
numbers v (x ∷ xs) = v ∷ numbers (suc v) xs

-- The keys are not in the table, and differ.
abbrev pub Absent : List String → Table ℕ → Type 0
Absent [] t = Unit
Absent (s ∷ ss) t = (lookup s t ≡ none) × Absent ss t

abbrev pub Unlike : String → List String → Type 0
Unlike k [] = Unit
Unlike k (s ∷ ss) = (k ≢ s) × Unlike k ss

abbrev pub Differ : List String → Type 0
Differ [] = Unit
Differ (s ∷ ss) = Unlike s ss × Differ ss

pub insert-Absent :
    (k : String) (v : ℕ) (ss : List String) (t : Table ℕ)
    → Unlike k ss
    → Absent ss t
    → Absent ss (insert k v t)
insert-Absent k v [] t u a = tt
insert-Absent k v (s ∷ ss) t (n, u) (e, a) =
    (lookup-insert k s v t ∙ ground (arith, e, n, eq_iff k s), insert-Absent k v ss t u a)

pub nil-Absent : (ss : List String) → Absent ss []
unfolding lookup
nil-Absent [] = tt
nil-Absent (s ∷ ss) = (refl, nil-Absent ss)
