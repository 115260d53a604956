-- ===== src/Prelude/Search/Resume.antt =====
-- A search that found nothing may go on from what is held back.
use Prim.Native.Nat.{ℕ, suc, ◌+◌, ◌-◌, ◌≤◌}
use mathlib.Core.Path.{◌≡◌, refl, ap, sym, ◌∙◌}
use mathlib.Core.Logic.{inl, inr}
use mathlib.Core.Bool.{false}
use mathlib.Core.Option.{Option, none, some}
use mathlib.Core.List.{List, [], ◌∷◌, ◌++◌}
use native.Mathlib.Omega.{arith}
use native.Mathlib.Nat.{zero-add}
use hostctl.Prelude.Tests.{leb, Bool-cases, Option-cases}
use hostctl.Prelude.Lists.{length, drop}
use hostctl.Prelude.Search.{
  begins_with, shift_by, find, held_at, begins_with-append, begins_with_long, begins_with_le,
  begins_with-shorter, begins_with_never,
}

shift_by-zero : (o : Option ℕ) → shift_by 0 o ≡ o
shift_by-zero none = refl
shift_by-zero (some i) = ap some (zero-add i)

shift_by-suc : (n : ℕ) (o : Option ℕ) → shift_by 1 (shift_by n o) ≡ shift_by (suc n) o
shift_by-suc n none = refl
shift_by-suc n (some i) = ap some (omega arith)

-- What is found ends within the text.
pub find-le : (m p : List ℕ) (i : ℕ) → find m p ≡ some i → i + length m ≤ length p
unfolding find
find-le m [] i h = ground (arith, begins_with_le m [])
find-le m (x ∷ p) i h = elim (Bool-cases (begins_with m (x ∷ p))) [
  | inl e ↦ ground (arith, begins_with_le m (x ∷ p))
  | inr e ↦ elim (Option-cases (find m p)) [
    | inl n ↦ ground arith
    | inr (j, k) ↦ let rest = find-le m p j k in ground arith
  ]
]

find-cons :
    (m : List ℕ) (x : ℕ) (p : List ℕ)
    → begins_with m (x ∷ p) ≡ false
    → find m (x ∷ p) ≡ shift_by 1 (find m p)
unfolding find
find-cons m x p h = rw h refl

pub find-none :
    (m : List ℕ) (x : ℕ) (p : List ℕ)
    → find m (x ∷ p) ≡ none
    → (begins_with m (x ∷ p) ≡ false) × (find m p ≡ none)
unfolding find
find-none m x p h = ground arith

-- What is found stays when more bytes come.
pub find-append : (m p b : List ℕ) (i : ℕ) → find m p ≡ some i → find m (p ++ b) ≡ some i
unfolding find begins_with
find-append [] [] [] i h = h
find-append [] [] (c ∷ b) i h = h
find-append (c ∷ m) [] b i h = cc
find-append m (x ∷ p) b i h = elim (Bool-cases (begins_with m (x ∷ p))) [
  | inl e ↦ ground (arith, begins_with-append m (x ∷ p) b)
  | inr e ↦ elim (Option-cases (find m p)) [
    | inl n ↦ ground arith
    | inr (j, k) ↦
        let short = find-le m p j k in
        let still = begins_with_long m (x ∷ p) b (omega arith) in
        ground (arith, find-append m p b j)
  ]
]

pub find-held :
    (m p b : List ℕ)
    → find m p ≡ none
    → find m (p ++ b) ≡ shift_by (held_at m p) (find m (drop (held_at m p) p ++ b))
unfolding held_at
find-held m [] b h = sym (shift_by-zero (find m b))
find-held m (x ∷ p) b h = elim (Bool-cases (begins_with (x ∷ p) m)) [
  | inl e ↦ rw e (sym (shift_by-zero (find m (x ∷ p ++ b))))
  | inr e ↦
      let (plain, rest) = find-none m x p h in
      rw e (
        find-cons m x (p ++ b) (begins_with_never m (x ∷ p) b plain e)
        ∙ ap (shift_by 1) (find-held m p b rest)
        ∙ shift_by-suc (held_at m p) _)
]

-- the last `k` bytes are enough for a marker that is at most one longer
pub find-last :
    (m p b : List ℕ) (k : ℕ)
    → length m ≤ suc k
    → find m p ≡ none
    → find m (p ++ b) ≡ shift_by (length p - k) (find m (drop (length p - k) p ++ b))
find-last m [] b k l h = let e : 0 - k ≡ 0 = omega arith in rw e (sym (shift_by-zero (find m b)))
find-last m (x ∷ p) b k l h = elim (Bool-cases (leb (suc (length p)) k)) [
  | inl few ↦
      let e : suc (length p) - k ≡ 0 = ground arith in
      rw e (sym (shift_by-zero (find m (x ∷ p ++ b))))
  | inr many ↦
      let e : suc (length p) - k ≡ suc (length p - k) = ground arith in
      let (plain, rest) = find-none m x p h in
      let long : length m ≤ length (x ∷ p) = ground arith in
      rw e (
        find-cons m x (p ++ b) (begins_with_long m (x ∷ p) b long ∙ plain)
        ∙ ap (shift_by 1) (find-last m p b k l rest)
        ∙ shift_by-suc (length p - k) _)
]

pub held_at-append :
    (m p b : List ℕ) → held_at m (p ++ b) ≡ held_at m p + held_at m (drop (held_at m p) p ++ b)
unfolding held_at
held_at-append m [] b = sym (zero-add (held_at m b))
held_at-append m (x ∷ p) b = elim (Bool-cases (begins_with (x ∷ p) m)) [
  | inl e ↦ rw e (sym (zero-add (held_at m (x ∷ p ++ b))))
  | inr e ↦ rw (e, begins_with-shorter (x ∷ p) b m e, held_at-append m p b) (omega arith)
]

pub held_at_le : (m p : List ℕ) → held_at m p ≤ length p
unfolding held_at
held_at_le m [] = omega arith
held_at_le m (x ∷ p) = ground (arith, held_at_le m p)
