-- ===== src/Dbus/Append/Nesting.antt =====
-- libdbus wants writes to go to the innermost open container, and containers to be closed by the
-- iterators that they were opened with, innermost first.
use mathlib.Core.List.{append_assoc}
use connman_ui.Common.{
  ℕ, ◌+◌, ◌≡◌, refl, String, ◌&&◌, Option, none, some, List, [], ◌∷◌, ◌++◌, ◌==◌, ◌∙◌, ap,
  if◌then◌else◌, arith,
}
use connman_ui.Dbus.Libdbus.{Basic}
use connman_ui.Dbus.Read.{Entry, entry_basic, entry_array, entry_fixed_array, entry_dict}
use connman_ui.Dbus.Append.{
  Call, append_basic, append_fixed, open_container, close_container, read_null, Writer, UserData,
  written, append_dict, append_value, append_array, append_fixed_array, append_dict_entry,
  append_dict_entry_basic, append_dict_entry_array, value_data, entry_body,
}

-- One call made while `it` is the innermost open iterator: the iterator that is innermost after it,
-- or none if the call is not allowed.
unfoldable pub nest : ℕ → Call → Option ℕ
nest it (append_basic i t v) = if i == it then some it else none
nest it (append_fixed i t n vs) = if i == it then some it else none
nest it (open_container i t s c) = if i == it && c == it + 1 then some (it + 1) else none
nest it read_null = none
nest it (close_container i c) = if c == it && i + 1 == it then some i else none

abbrev pub then_nest : (ℕ → Option ℕ) → Option ℕ → Option ℕ
then_nest rest none = none
then_nest rest (some it) = rest it

unfoldable pub nesting : List Call → ℕ → Option ℕ
unfolding nest
nesting [] it = some it
nesting (c ∷ cs) it = then_nest (nesting cs) (nest it c)

-- Calls that write into `it`, and leave it the innermost one, whatever follows.
pub record IsNested (it : ℕ) (cs : List Call) : Type 0 where
  pub at : (rest : List Call) → nesting (cs ++ rest) it ≡ nesting rest it

nest-open :
    (it t : ℕ) (s : Option String) → nest it (open_container it t s (it + 1)) ≡ some (it + 1)
unfolding nest
nest-open it t s = ground arith

nest-close : (it : ℕ) → nest (it + 1) (close_container it (it + 1)) ≡ some it
unfolding nest
nest-close it = ground arith

nest-basic : (it t : ℕ) (v : Basic) → nest it (append_basic it t v) ≡ some it
unfolding nest
nest-basic it t v = ground arith

nest-fixed : (it t n : ℕ) (vs : List ℕ) → nest it (append_fixed it t n vs) ≡ some it
unfolding nest
nest-fixed it t n vs = ground arith

-- What a container holds, between its two calls.
wrapped :
    (it t : ℕ) (s : Option String) (inner : List Call)
    → IsNested (it + 1) inner
    → IsNested it (open_container it t s (it + 1) ∷ (inner ++ close_container it (it + 1) ∷ []))
unfolding nesting
wrapped it t s inner h = record {
  at = λ rest.
      rw (nest-open it t s)
        (rw append_assoc (h.at (close_container it (it + 1) ∷ rest) ∙ rw (nest-close it)));
}

cons-basic :
    (it t : ℕ) (v : Basic) (cs : List Call)
    → IsNested it cs
    → IsNested it (append_basic it t v ∷ cs)
unfolding nesting
cons-basic it t v cs h = record { at = λ rest. rw (nest-basic it t v) (h.at rest) }

-- Calls that write into `it` up to a read through NULL: what follows is not reached.
pub record Faults (it : ℕ) (cs : List Call) : Type 0 where
  pub at : (rest : List Call) → nesting (cs ++ rest) it ≡ none

pub null-Faults : (it : ℕ) → Faults it (read_null ∷ [])
unfolding nesting
null-Faults it = record { at = λ rest. refl }

-- A fault in a container, and behind what is written in order or before anything else.
wrapped-Faults :
    (it t : ℕ) (s : Option String) (inner : List Call)
    → Faults (it + 1) inner
    → Faults it (open_container it t s (it + 1) ∷ (inner ++ close_container it (it + 1) ∷ []))
unfolding nesting
wrapped-Faults it t s inner h = record {
  at = λ rest. rw (nest-open it t s) (rw append_assoc (h.at (close_container it (it + 1) ∷ rest)));
}

pub after-Faults :
    (it : ℕ) (cs ds : List Call) → IsNested it cs → Faults it ds → Faults it (cs ++ ds)
after-Faults it cs ds h k = record {
  at = λ rest.
      ap (λ (es : List Call). nesting es it) (append_assoc cs ds rest)
      ∙ (h.at (ds ++ rest) ∙ k.at rest);
}

pub before-Faults : (it : ℕ) (cs ds : List Call) → Faults it cs → Faults it (cs ++ ds)
before-Faults it cs ds h = record {
  at = λ rest. ap (λ (es : List Call). nesting es it) (append_assoc cs ds rest) ∙ h.at (ds ++ rest);
}

cons-Faults :
    (it t : ℕ) (v : Basic) (cs : List Call) → Faults it cs → Faults it (append_basic it t v ∷ cs)
unfolding nesting
cons-Faults it t v cs h = record { at = λ rest. rw (nest-basic it t v) (h.at rest) }

-- A property function that faults, in a dictionary and in the entry of an array.
pub append_dict-Faults :
    (it : ℕ) (key : String) (f : ℕ → List Call)
    → ((i : ℕ) → Faults i (f i))
    → Faults it (append_dict it (some key) (some f))
unfolding append_dict
append_dict-Faults it key f h =
    cons-Faults it _ _ _ (wrapped-Faults it _ _ _ (wrapped-Faults (it + 1) _ _ _ (h (it + 1 + 1))))

pub append_dict_entry_array-Faults :
    (it : ℕ) (key : String) (t : ℕ) (f : ℕ → List Call)
    → ((i : ℕ) → Faults i (f i))
    → Faults it (append_dict_entry_array it key t (some f))
unfolding append_dict_entry_array append_dict_entry entry_body append_array
append_dict_entry_array-Faults it key t f h = wrapped-Faults it _ _ _ (
    cons-Faults (it + 1) _ _ _
      (wrapped-Faults (it + 1) _ _ _ (wrapped-Faults (it + 1 + 1) _ _ _ (h (it + 1 + 1 + 1)))))

one-fixed : (it t n : ℕ) (vs : List ℕ) → IsNested it (append_fixed it t n vs ∷ [])
unfolding nesting
one-fixed it t n vs = record { at = λ rest. rw (nest-fixed it t n vs) }

pub nil-IsNested : (it : ℕ) → IsNested it []
nil-IsNested it = record { at = λ rest. refl }

-- The property functions write into the iterator that they are given.
abbrev pub WritesNested : Writer → Type 0
WritesNested f = (it : ℕ) → IsNested it (written f it)

pub append_value-IsNested :
    (it : ℕ) (key : Option String) (t : ℕ) (v : Basic) → IsNested it (append_value it key t v)
unfolding append_value
append_value-IsNested it none t v = cons-basic it t v [] (nil-IsNested it)
append_value-IsNested it (some key) t v =
    cons-basic it _ _ _ (wrapped it _ _ _ (cons-basic (it + 1) t v [] (nil-IsNested (it + 1))))

pub append_dict-IsNested :
    (it : ℕ) (key : Option String) (f : Writer)
    → WritesNested f
    → IsNested it (append_dict it key f)
unfolding append_dict
append_dict-IsNested it none f h = wrapped it _ _ _ (h (it + 1))
append_dict-IsNested it (some key) f h =
    cons-basic it _ _ _ (wrapped it _ _ _ (wrapped (it + 1) _ _ _ (h (it + 1 + 1))))

pub append_array-IsNested :
    (it : ℕ) (key : Option String) (t : ℕ) (f : Writer)
    → WritesNested f
    → IsNested it (append_array it key t f)
unfolding append_array
append_array-IsNested it none t f h = wrapped it _ _ _ (h (it + 1))
append_array-IsNested it (some key) t f h =
    cons-basic it _ _ _ (wrapped it _ _ _ (wrapped (it + 1) _ _ _ (h (it + 1 + 1))))

append_fixed_array-IsNested :
    (it : ℕ) (key : Option String) (t n : ℕ) (vs : List ℕ)
    → IsNested it (append_fixed_array it key t n vs)
unfolding append_fixed_array
append_fixed_array-IsNested it none t n vs = wrapped it _ _ _ (one-fixed (it + 1) t n vs)
append_fixed_array-IsNested it (some key) t n vs =
    cons-basic it _ _ _ (wrapped it _ _ _ (wrapped (it + 1) _ _ _ (one-fixed (it + 1 + 1) t n vs)))

entry_body-IsNested :
    (it : ℕ) (key : Option String) (entry : Entry) (t n : ℕ) (f : Writer) (u : UserData)
    → WritesNested f
    → IsNested it (entry_body it key entry t n f u)
unfolding entry_body
entry_body-IsNested it key entry_basic t n f u h = append_value-IsNested it key t _
entry_body-IsNested it key entry_array t n f u h = append_array-IsNested it key t f h
entry_body-IsNested it key entry_fixed_array t n f u h = append_fixed_array-IsNested it key t n _
entry_body-IsNested it key entry_dict t n f u h = append_dict-IsNested it key f h

-- A dictionary entry of each of the four kinds, with or without a key, is written as libdbus wants it: each
-- write goes to the innermost open container, each container is closed by the iterators that opened it, and
-- the iterator of the dictionary is innermost again after it, if the property function writes so.
pub append_dict_entry-IsNested :
    (it : ℕ) (key : Option String) (entry : Entry) (t n : ℕ) (f : Writer) (u : UserData)
    → WritesNested f
    → (rest : List Call)
    → nesting (append_dict_entry it key entry t n f u ++ rest) it ≡ nesting rest it
unfolding append_dict_entry
append_dict_entry-IsNested it key entry t n f u h =
    (wrapped it _ _ _ (entry_body-IsNested (it + 1) key entry t n f u h)).at

-- The same of the entry of one value with a key.
pub append_dict_entry_basic-IsNested :
    (it : ℕ) (key : String) (t : ℕ) (v : Basic) → IsNested it (append_dict_entry_basic it key t v)
unfolding append_dict_entry_basic
append_dict_entry_basic-IsNested it key t v = record {
  at =
      append_dict_entry-IsNested it (some key) entry_basic t 0 none (value_data v)
        (λ i. nil-IsNested i);
}
