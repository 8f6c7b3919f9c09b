-- ===== src/Base/Sets.antt =====
-- Sets of texts as lists without repetition, and `sorted`. Texts are ordered by code point.
use Prim.Native.Nat.{ℕ}
use Prim.Native.String.{String}
use mathlib.Core.Path.{◌≡◌, ◌∙◌, refl}
use mathlib.Core.Bool.{Bool, true, false, ◌&&◌, ◌||◌}
use mathlib.Core.List.{List, [], ◌∷◌, ◌++◌}
use native.Mathlib.Omega.{arith}
use text.Mathlib.Text.{◌==◌}
use text.Mathlib.TextEquality.{eq_iff}
use ai_devops_copilot.Base.Tests.{ltb, eqb, if◌then◌else◌, contains}
use ai_devops_copilot.Base.Text.{codes}

-- `s.add(x)`
unfoldable pub set_add : String → List String → List String
set_add x s = if contains s x then s else x ∷ s

unfoldable pub codes_le : List ℕ → List ℕ → Bool
codes_le [] t = true
codes_le (c ∷ s) [] = false
codes_le (c ∷ s) (d ∷ t) = ltb c d || (eqb c d && codes_le s t)

unfoldable pub place : String → List String → List String
place x [] = x ∷ []
place x (y ∷ ys) = if codes_le (codes x) (codes y) then x ∷ y ∷ ys else y ∷ place x ys

unfoldable pub sorted : List String → List String
unfolding place
sorted [] = []
sorted (x ∷ xs) = place x (sorted xs)

abbrev pub NoDup : List String → Type 0
NoDup [] = Unit
NoDup (x ∷ xs) = (contains xs x ≡ false) × NoDup xs

pub contains-set_add :
    (x : String) (s : List String) (y : String)
    → contains (set_add x s) y ≡ ((x == y) || contains s y)
unfolding set_add contains
contains-set_add x s y = ground (arith, eq_iff x y)

pub contains-append :
    (xs ys : List String) (a : String) → contains (xs ++ ys) a ≡ (contains xs a || contains ys a)
unfolding contains
contains-append [] ys a = refl
contains-append (x ∷ xs) ys a = ground (arith, contains-append xs ys a)

contains-place :
    (x : String) (ys : List String) (a : String)
    → contains (place x ys) a ≡ ((x == a) || contains ys a)
unfolding place contains
contains-place x [] a = refl
contains-place x (y ∷ ys) a = ground (arith, contains-place x ys a)

pub contains-sorted : (xs : List String) (a : String) → contains (sorted xs) a ≡ contains xs a
unfolding sorted contains
contains-sorted [] a = refl
contains-sorted (x ∷ xs) a = ground (arith, contains-place x (sorted xs) a, contains-sorted xs a)

place-NoDup :
    (x : String) (ys : List String) → contains ys x ≡ false → NoDup ys → NoDup (place x ys)
unfolding place contains
place-NoDup x [] h n = ground arith
place-NoDup x (y ∷ ys) h n =
    ground (arith, place-NoDup x ys, contains-place x ys y, eq_iff x y, eq_iff y x)

pub sorted-NoDup : (xs : List String) → NoDup xs → NoDup (sorted xs)
unfolding sorted
sorted-NoDup [] n = tt
sorted-NoDup (x ∷ xs) n =
    place-NoDup x (sorted xs) (contains-sorted xs x ∙ n.0) (sorted-NoDup xs n.1)
