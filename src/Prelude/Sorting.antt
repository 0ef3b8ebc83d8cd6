-- ===== src/Prelude/Sorting.antt =====
-- sort.Strings as insertion, and sets of texts: a Go `map[string]struct{}` as a list of its keys.
use Prim.Native.Nat.{Ordering}
use Prim.Native.String.{String, compare}
use mathlib.Core.Path.{◌≡◌, refl}
use mathlib.Core.Bool.{Bool, true, false, ◌||◌, ◌&&◌, not}
use mathlib.Core.List.{List, [], ◌∷◌}
use native.Mathlib.Omega.{arith}
use text.Mathlib.Text.{◌==◌}
use text.Mathlib.TextEquality.{eq_iff}
use hmntsk.Prelude.Tests.{if◌then◌else◌}
use hmntsk.Prelude.Strings.{contains, contains_of_eq}

-- a < b as Go compares strings.
abbrev pub str_ltb : String → String → Bool
str_ltb a b = elim (compare a b) [ Ordering.lt ↦ true | _ ↦ false ]

unfoldable pub insert_sorted : String → List String → List String
insert_sorted a [] = a ∷ []
insert_sorted a (x ∷ xs) = if str_ltb x a then x ∷ insert_sorted a xs else a ∷ x ∷ xs

unfoldable pub sort_strings : List String → List String
unfolding insert_sorted
sort_strings [] = []
sort_strings (x ∷ xs) = insert_sorted x (sort_strings xs)

-- set[a] = struct{}{}
unfoldable pub add_key : List String → String → List String
add_key s a = if contains s a then s else a ∷ s

-- delete(set, a)
unfoldable pub delete_key : List String → String → List String
delete_key [] a = []
delete_key (x ∷ xs) a = let rest = delete_key xs a in if x == a then rest else x ∷ rest

pub contains-insert_sorted :
    (x : String) (xs : List String) (a : String)
    → contains (insert_sorted x xs) a ≡ (x == a || contains xs a)
unfolding contains insert_sorted
contains-insert_sorted x [] a = refl
contains-insert_sorted x (y ∷ ys) a = ground (arith, contains-insert_sorted x ys a)

pub contains-sort_strings :
    (xs : List String) (a : String) → contains (sort_strings xs) a ≡ contains xs a
unfolding contains sort_strings
contains-sort_strings [] a = refl
contains-sort_strings (x ∷ xs) a =
    ground (arith, contains-insert_sorted x (sort_strings xs) a, contains-sort_strings xs a)

pub contains-add_key :
    (s : List String) (x a : String) → contains (add_key s x) a ≡ (x == a || contains s a)
unfolding contains add_key
contains-add_key s x a = ground (arith, contains_of_eq s x a)

pub contains-delete_key :
    (s : List String) (x a : String) → contains (delete_key s x) a ≡ (not (x == a) && contains s a)
unfolding contains delete_key
contains-delete_key [] x a = ground arith
contains-delete_key (y ∷ ys) x a =
    ground (arith, contains-delete_key ys x a, eq_iff y x, eq_iff y a, eq_iff x a)
