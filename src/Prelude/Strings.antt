-- ===== src/Prelude/Strings.antt =====
-- Lists of texts: `slices.Contains`, `slices.Equal` and the inclusion of one list in another.
use Prim.Native.String.{String}
use mathlib.Core.Path.{◌≡◌, refl, subst}
use mathlib.Core.Bool.{Bool, true, false, ◌||◌}
use mathlib.Core.List.{List, [], ◌∷◌, ◌++◌}
use native.Mathlib.Omega.{arith}
use text.Mathlib.Text.{◌==◌}
use text.Mathlib.TextEquality.{eq_iff}

unfoldable pub contains : List String → String → Bool
contains [] a = false
contains (x ∷ xs) a = x == a || contains xs a

pub contains-append :
    (xs ys : List String) (a : String) → contains (xs ++ ys) a ≡ (contains xs a || contains ys a)
unfolding contains
contains-append [] ys a = refl
contains-append (x ∷ xs) ys a = ground (arith, contains-append xs ys a)

-- A text equal to a member is a member.
pub contains_of_eq :
    (xs : List String) (x a : String)
    → contains xs x ≡ true
    → (x == a) ≡ true
    → contains xs a ≡ true
contains_of_eq xs x a m e = subst (λ b. contains xs b ≡ true) ((eq_iff x a).0 e) m
