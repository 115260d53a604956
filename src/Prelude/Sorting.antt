-- ===== src/Prelude/Sorting.antt =====
-- Python's `sorted` on a set of strings: a list stands for the set of its strings.
use Prim.Native.String.{String, compare}
use Prim.Native.Nat.{Ordering}
use mathlib.Core.Path.{◌≡◌, refl}
use mathlib.Core.Bool.{◌||◌}
use mathlib.Core.List.{List, [], ◌∷◌}
use native.Mathlib.Omega.{arith}
use mathlib.Core.Logic.{inl, inr}
use text.Mathlib.Text.{◌==◌ as str_eq}
use text.Mathlib.TextEquality.{eq_iff}
use hostctl.Prelude.Tests.{if◌then◌else◌, Bool-cases}
use hostctl.Prelude.Lists.{contains}

insert_sorted : String → List String → List String
insert_sorted x [] = x ∷ []
insert_sorted x (y ∷ ys) =
    let later = insert_sorted x ys in
    if str_eq x y then y ∷ ys else elim (compare x y) [ Ordering.gt ↦ y ∷ later | _ ↦ x ∷ y ∷ ys ]

unfoldable pub sorted : List String → List String
unfolding insert_sorted
sorted [] = []
sorted (x ∷ xs) = insert_sorted x (sorted xs)

contains-insert :
    (x n : String) (ys : List String)
    → contains (insert_sorted x ys) n ≡ (str_eq x n || contains ys n)
unfolding insert_sorted
contains-insert x n [] = refl
contains-insert x n (y ∷ ys) = elim (Bool-cases (str_eq x y)) [
  | inl e ↦ rw (e, (eq_iff x y).0 e) (ground arith)
  | inr e ↦ ground (arith, contains-insert x n ys)
]

pub contains-sorted : (xs : List String) (n : String) → contains (sorted xs) n ≡ contains xs n
unfolding sorted
contains-sorted [] n = refl
contains-sorted (x ∷ xs) n = ground (arith, contains-insert x n (sorted xs), contains-sorted xs n)
