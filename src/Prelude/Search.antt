-- ===== src/Prelude/Search.antt =====
-- Python's `startswith`, `find` and `rfind` on bytes, and where a search may go on when more bytes come.
pub mod Resume
use Prim.Native.Nat.{ℕ, zero, suc, ◌+◌, ◌-◌, ◌≤◌}
use mathlib.Core.Path.{◌≡◌, refl, ap, sym, ◌∙◌}
use mathlib.Core.Logic.{◌⊎◌, inl, inr}
use mathlib.Core.Bool.{Bool, true, false, ◌&&◌}
use mathlib.Core.Option.{Option, none, some}
use mathlib.Core.List.{List, [], ◌∷◌, ◌++◌}
use native.Mathlib.Omega.{arith}
use native.Mathlib.Nat.{zero-add}
use hostctl.Prelude.Tests.{◌==◌, if◌then◌else◌, Bool-cases, Option-cases}
use hostctl.Prelude.Lists.{length, take, drop, length-append}

-- `text.startswith(marker)`
unfoldable pub begins_with : List ℕ → List ℕ → Bool
begins_with [] text = true
begins_with (c ∷ marker) [] = false
begins_with (c ∷ marker) (x ∷ text) = c == x && begins_with marker text

-- An index that is counted from `by` further on.
abbrev pub shift_by : ℕ → Option ℕ → Option ℕ
shift_by n none = none
shift_by n (some i) = some (n + i)

-- `text.find(marker)`
unfoldable pub find : List ℕ → List ℕ → Option ℕ
unfolding begins_with
find marker [] = if begins_with marker [] then some 0 else none
find marker (x ∷ text) =
    let later = find marker text in
    if begins_with marker (x ∷ text) then some 0 else shift_by 1 later

-- `text.rfind(marker)` for a marker that is not empty.
unfoldable pub rfind : List ℕ → List ℕ → Option ℕ
unfolding begins_with
rfind marker [] = none
rfind marker (x ∷ text) = elim (rfind marker text) [
  | some i ↦ some (suc i)
  | none ↦ if begins_with marker (x ∷ text) then some 0 else none
]

-- The place of the longest end of a text that `marker` may begin with.
unfoldable pub held_at : List ℕ → List ℕ → ℕ
unfolding begins_with
held_at marker [] = 0
held_at marker (x ∷ text) =
    let later = held_at marker text in if begins_with (x ∷ text) marker then 0 else suc later

pub begins_with-append : (m u b : List ℕ) → begins_with m u ≡ true → begins_with m (u ++ b) ≡ true
unfolding begins_with
begins_with-append [] u b h = refl
begins_with-append (c ∷ m) [] b h = cc
begins_with-append (c ∷ m) (x ∷ u) b h = ground (arith, begins_with-append m u b)

pub begins_with_comparable :
    (m u b : List ℕ)
    → begins_with m (u ++ b) ≡ true
    → (begins_with m u ≡ true) ⊎ (begins_with u m ≡ true)
unfolding begins_with
begins_with_comparable [] u b h = inl refl
begins_with_comparable (c ∷ m) [] b h = inr refl
begins_with_comparable (c ∷ m) (x ∷ u) b h = ground (arith, begins_with_comparable m u b)

pub begins_with_long :
    (m u b : List ℕ) → length m ≤ length u → begins_with m (u ++ b) ≡ begins_with m u
unfolding begins_with
begins_with_long [] u b h = refl
begins_with_long (c ∷ m) [] b h = absurd (omega arith)
begins_with_long (c ∷ m) (x ∷ u) b h = rw (begins_with_long m u b (omega arith)) refl

pub begins_with_le : (m u : List ℕ) → begins_with m u ≡ true → length m ≤ length u
unfolding begins_with
begins_with_le [] u h = omega arith
begins_with_le (c ∷ m) [] h = cc
begins_with_le (c ∷ m) (x ∷ u) h = ground (arith, begins_with_le m u)

-- a text that cannot begin the marker still cannot when it is longer
pub begins_with-shorter :
    (u b m : List ℕ) → begins_with u m ≡ false → begins_with (u ++ b) m ≡ false
unfolding begins_with
begins_with-shorter [] b m h = cc
begins_with-shorter (x ∷ u) b [] h = refl
begins_with-shorter (x ∷ u) b (c ∷ m) h = ground (arith, begins_with-shorter u b m)

-- neither way round: no more bytes make the marker begin here
pub begins_with_never :
    (m u b : List ℕ)
    → begins_with m u ≡ false
    → begins_with u m ≡ false
    → begins_with m (u ++ b) ≡ false
begins_with_never m u b h k = elim (Bool-cases (begins_with m (u ++ b))) [
  | inl e ↦ elim (begins_with_comparable m u b e) [ inl p ↦ cc | inr p ↦ cc ]
  | inr e ↦ e
]

pub take-append : (n : ℕ) (xs ys : List ℕ) → n ≤ length xs → take n (xs ++ ys) ≡ take n xs
take-append zero xs ys h = refl
take-append (suc n) [] ys h = absurd (omega arith)
take-append (suc n) (x ∷ xs) ys h = ap (◌∷◌ x) (take-append n xs ys (omega arith))

pub drop-append : (n : ℕ) (xs ys : List ℕ) → n ≤ length xs → drop n (xs ++ ys) ≡ drop n xs ++ ys
drop-append zero xs ys h = refl
drop-append (suc n) [] ys h = absurd (omega arith)
drop-append (suc n) (x ∷ xs) ys h = drop-append n xs ys (omega arith)

pub drop-nil : (n : ℕ) → drop {A = ℕ} n [] ≡ []
drop-nil zero = refl
drop-nil (suc n) = refl

take-nil : (n : ℕ) → take {A = ℕ} n [] ≡ []
take-nil zero = refl
take-nil (suc n) = refl

pub drop-drop : (n k : ℕ) (xs : List ℕ) → drop k (drop n xs) ≡ drop (n + k) xs
drop-drop zero k xs = rw zero-add refl
drop-drop (suc n) k [] = drop-nil k ∙ sym (drop-nil (suc n + k))
drop-drop (suc n) k (x ∷ xs) =
    let e : suc n + k ≡ suc (n + k) = omega arith in rw e (drop-drop n k xs)

pub length-drop : (n : ℕ) (xs : List ℕ) → length (drop n xs) ≡ length xs - n
length-drop zero xs = omega arith
length-drop (suc n) [] = omega arith
length-drop (suc n) (x ∷ xs) = rw (length-drop n xs) (omega arith)

pub drop-take : (n k : ℕ) (xs : List ℕ) → drop n (take (n + k) xs) ≡ take k (drop n xs)
drop-take zero k xs = rw zero-add refl
drop-take (suc n) k [] = let e : suc n + k ≡ suc (n + k) = omega arith in rw e (sym (take-nil k))
drop-take (suc n) k (x ∷ xs) =
    let e : suc n + k ≡ suc (n + k) = omega arith in rw e (drop-take n k xs)

pub take-further :
    (n k : ℕ) (p b : List ℕ)
    → n ≤ length p
    → take (n + k) (p ++ b) ≡ take n p ++ take k (drop n p ++ b)
take-further zero k p b h = rw zero-add refl
take-further (suc n) k [] b h = absurd (omega arith)
take-further (suc n) k (x ∷ p) b h =
    let e : suc n + k ≡ suc (n + k) = omega arith in
    rw e (ap (◌∷◌ x) (take-further n k p b (omega arith)))

pub drop-further :
    (n k : ℕ) (p b : List ℕ) → n ≤ length p → drop (n + k) (p ++ b) ≡ drop k (drop n p ++ b)
drop-further n k p b h = sym (drop-drop n k (p ++ b)) ∙ ap (drop k) (drop-append n p b h)

pub take-exact : (xs ys : List ℕ) → take (length xs) (xs ++ ys) ≡ xs
take-exact [] ys = refl
take-exact (x ∷ xs) ys = ap (◌∷◌ x) (take-exact xs ys)

pub drop-exact : (xs ys : List ℕ) → drop (length xs) (xs ++ ys) ≡ ys
drop-exact [] ys = refl
drop-exact (x ∷ xs) ys = drop-exact xs ys
