-- ===== src/Console/Frame/Ending/Resume.antt =====
-- Where a search for the end of a frame resumes (`feed` of console/_posix.py).
use hostctl.Prelude.{
  ℕ, suc, ◌+◌, ◌≤◌, true, false, ◌≡◌, refl, ap, sym, ◌∙◌, none, some, List, [], ◌∷◌, ◌++◌, length,
  drop, arith, Bool-cases, Option-cases, inl, inr,
}
use native.Mathlib.Nat.{zero-add}
use hostctl.Prelude.Search.{
  begins_with, rfind, held_at, begins_with-append, begins_with-shorter, begins_with_never,
}
use hostctl.Console.Frame.Ending.Inside.{rfind-none}

suc-sum : (a b : ℕ) → suc (a + b) ≡ suc a + b
suc-sum a b = omega arith

-- The place from which `feed` keeps its bytes while it waits for the end.
unfoldable pub err_at : List ℕ → List ℕ → ℕ
err_at m text = elim (rfind m text) [ some i ↦ i | none ↦ held_at m text ]

err_at-rfind : (m p : List ℕ) (i : ℕ) → rfind m p ≡ some i → err_at m p ≡ i
unfolding err_at
err_at-rfind m p i h = rw (h, err_at) refl

err_at-held_at : (m p : List ℕ) → rfind m p ≡ none → err_at m p ≡ held_at m p
unfolding err_at
err_at-held_at m p h = rw (h, err_at) refl

pub rfind-some :
    (m : List ℕ) (x : ℕ) (p : List ℕ) (i : ℕ) → rfind m p ≡ some i → rfind m (x ∷ p) ≡ some (suc i)
unfolding rfind
rfind-some m x p i h = rw h refl

pub rfind-head :
    (m : List ℕ) (x : ℕ) (p : List ℕ)
    → rfind m p ≡ none
    → begins_with m (x ∷ p) ≡ true
    → rfind m (x ∷ p) ≡ some 0
unfolding rfind
rfind-head m x p h k = rw (h, k) refl

held_at-head :
    (m : List ℕ) (x : ℕ) (p : List ℕ) → begins_with (x ∷ p) m ≡ true → held_at m (x ∷ p) ≡ 0
unfolding held_at
held_at-head m x p h = rw h refl

held_at-tail :
    (m : List ℕ) (x : ℕ) (p : List ℕ)
    → begins_with (x ∷ p) m ≡ false
    → held_at m (x ∷ p) ≡ suc (held_at m p)
unfolding held_at
held_at-tail m x p h = rw h refl

err_at-here :
    (m : List ℕ) (x : ℕ) (p : List ℕ)
    → rfind m p ≡ none
    → begins_with m (x ∷ p) ≡ true
    → err_at m (x ∷ p) ≡ 0
err_at-here m x p h k = err_at-rfind m (x ∷ p) 0 (rfind-head m x p h k)

err_at-held :
    (m : List ℕ) (x : ℕ) (p : List ℕ)
    → rfind m p ≡ none
    → begins_with m (x ∷ p) ≡ false
    → begins_with (x ∷ p) m ≡ true
    → err_at m (x ∷ p) ≡ 0
err_at-held m x p h e k = err_at-held_at m (x ∷ p) (rfind-none m x p e h) ∙ held_at-head m x p k

pub err_at-found :
    (m : List ℕ) (x : ℕ) (p : List ℕ) (i : ℕ)
    → rfind m p ≡ some i
    → err_at m (x ∷ p) ≡ suc (err_at m p)
err_at-found m x p i h =
    err_at-rfind m (x ∷ p) (suc i) (rfind-some m x p i h) ∙ ap suc (sym (err_at-rfind m p i h))

pub err_at-none :
    (m : List ℕ) (x : ℕ) (p : List ℕ)
    → begins_with m (x ∷ p) ≡ false
    → begins_with (x ∷ p) m ≡ false
    → err_at m (x ∷ p) ≡ suc (err_at m p)
err_at-none m x p h k = elim (Option-cases (rfind m p)) [
  | inl e ↦
      err_at-held_at m (x ∷ p) (rfind-none m x p h e)
      ∙ (held_at-tail m x p k ∙ ap suc (sym (err_at-held_at m p e)))
  | inr (i, e) ↦ err_at-found m x p i e
]

rfind-append : (m p b : List ℕ) (i : ℕ) → rfind m p ≡ some i → (j : ℕ) × (rfind m (p ++ b) ≡ some j)
unfolding rfind
rfind-append m [] b i h = cc
rfind-append m (x ∷ p) b i h = elim (Option-cases (rfind m (p ++ b))) [
  | inr (j, e) ↦ (suc j, rw e refl)
  | inl e ↦ elim (Option-cases (rfind m p)) [
    | inr (j, k) ↦ let (l, n) = rfind-append m p b j k in cc
    | inl k ↦
        let first : begins_with m (x ∷ p) ≡ true = ground arith in
        (0, rfind-head m x (p ++ b) e (begins_with-append m (x ∷ p) b first))
  ]
]

-- How a place that holds no end may be passed over.
pub data Passed (m : List ℕ) (x : ℕ) (p : List ℕ) : Type 0 where
  held : err_at m (x ∷ p) ≡ 0 → Passed m x p
  found : (i : ℕ) → rfind m p ≡ some i → Passed m x p
  neither : begins_with m (x ∷ p) ≡ false → begins_with (x ∷ p) m ≡ false → Passed m x p

pub passed : (m : List ℕ) (x : ℕ) (p : List ℕ) → Passed m x p
passed m x p = elim (Option-cases (rfind m p)) [
  | inr (i, e) ↦ found i e
  | inl e ↦ elim (Bool-cases (begins_with m (x ∷ p))) [
    | inl h ↦ held (err_at-here m x p e h)
    | inr h ↦ elim (Bool-cases (begins_with (x ∷ p) m)) [
      | inl k ↦ held (err_at-held m x p e h k)
      | inr k ↦ neither h k
    ]
  ]
]

pub err_at_le : (m p : List ℕ) → err_at m p ≤ length p
unfolding err_at rfind held_at
err_at_le m [] = omega arith
err_at_le m (x ∷ p) =
    let rest = err_at_le m p in
    elim (passed m x p) [
      | held e ↦ rw e (omega arith)
      | found i e ↦ rw (err_at-found m x p i e) (omega arith)
      | neither h k ↦ rw (err_at-none m x p h k) (omega arith)
    ]

-- What is held back grows with what comes.
pub err_at-append :
    (m p b : List ℕ) → err_at m (p ++ b) ≡ err_at m p + err_at m (drop (err_at m p) p ++ b)
unfolding rfind
err_at-append m [] b = rw (err_at-held_at m [] refl) (unfold held_at in sym (zero-add (err_at m b)))
err_at-append m (x ∷ p) b = elim (passed m x p) [
  | held e ↦ rw e (sym (zero-add (err_at m (x ∷ p ++ b))))
  | found i e ↦
      let (j, k) = rfind-append m p b i e in
      rw (err_at-found m x p i e)
        (err_at-found m x (p ++ b) j k ∙ (ap suc (err_at-append m p b) ∙ suc-sum _ _))
  | neither h k ↦ rw (err_at-none m x p h k) (
      err_at-none m x (p ++ b) (begins_with_never m (x ∷ p) b h k)
        (begins_with-shorter (x ∷ p) b m k)
      ∙ (ap suc (err_at-append m p b) ∙ suc-sum _ _))
]
