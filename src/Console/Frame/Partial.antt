-- ===== src/Console/Frame/Partial.antt =====
-- `_partial` of console/_posix.py finds where the held bytes begin.
use hostctl.Prelude.{
  ℕ, zero, suc, ◌+◌, ◌-◌, ◌≤◌, true, false, ◌≡◌, refl, ap, sym, ◌∙◌, none, List, [], ◌∷◌, length,
  take, drop, ltb, leb, arith, Bool-cases, Option-cases, inl, inr, if◌then◌else◌,
}
use native.Mathlib.Nat.{zero-add}
use hostctl.Prelude.Search.{begins_with, find, rfind, held_at, drop-drop, length-drop}
use hostctl.Prelude.Search.Resume.{held_at_le, find-none}
use hostctl.Console.Frame.{partial_from, partial}

-- a marker cut to the length of a text
begins_with-take :
    (s m : List ℕ) (n : ℕ) → length s ≡ n → begins_with s (take n m) ≡ begins_with s m
unfolding begins_with
begins_with-take [] m n h = refl
begins_with-take (x ∷ s) [] zero h = refl
begins_with-take (x ∷ s) [] (suc n) h = refl
begins_with-take (x ∷ s) (c ∷ m) zero h = absurd (omega arith)
begins_with-take (x ∷ s) (c ∷ m) (suc n) h = rw (begins_with-take s m n (omega arith)) refl

drop-cons :
    (k : ℕ) (text : List ℕ) → suc k ≤ length text → (x : ℕ) × (drop k text ≡ x ∷ drop (suc k) text)
drop-cons k [] h = absurd (omega arith)
drop-cons zero (x ∷ text) h = (x, refl)
drop-cons (suc k) (x ∷ text) h = drop-cons k text (omega arith)

held_at-cons :
    (m : List ℕ) (x : ℕ) (p : List ℕ)
    → held_at m (x ∷ p) ≡ (if begins_with (x ∷ p) m then 0 else suc (held_at m p))
unfolding held_at
held_at-cons m x p = refl

partial_from-held_at :
    (m text : List ℕ) (n : ℕ)
    → n ≤ length text
    → partial_from n text m ≡ n - held_at m (drop (length text - n) text)
unfolding partial_from
partial_from-held_at m text zero h = omega arith
partial_from-held_at m text (suc n) h =
    let k = length text - suc n in
    let next : length text - n ≡ suc k = omega arith in
    let (x, e) = drop-cons k text (omega arith) in
    let size : length (drop k text) ≡ suc n = length-drop k text ∙ (omega arith) in
    let rest : partial_from n text m ≡ n - held_at m (drop (suc k) text) =
      partial_from-held_at m text n (omega arith) ∙ (rw next refl) in
    let head = held_at-cons m x (drop (suc k) text) in
    rw (begins_with-take (drop k text) m (suc n) size, rest, e, head)
      (elim (Bool-cases (begins_with (x ∷ drop (suc k) text) m)) [
        | inl b ↦ rw b (omega arith)
        | inr b ↦ rw b (omega arith)
      ])

begins_with-swap :
    (s m : List ℕ) → length m ≤ length s → begins_with s m ≡ true → begins_with m s ≡ true
unfolding begins_with
begins_with-swap [] [] l h = refl
begins_with-swap [] (c ∷ m) l h = absurd (omega arith)
begins_with-swap (x ∷ s) [] l h = refl
begins_with-swap (x ∷ s) (c ∷ m) l h = ground (arith, begins_with-swap s m)

never_whole :
    (m s : List ℕ) → length m ≤ length s → begins_with m s ≡ false → begins_with s m ≡ false
never_whole m s l h = elim (Bool-cases (begins_with s m)) [
  | inl e ↦ let both = begins_with-swap s m l e in cc
  | inr e ↦ e
]

-- what is longer than all but the last byte of the marker is not held
held_at_skip :
    (m p : List ℕ) (k : ℕ)
    → length m ≤ suc k
    → find m p ≡ none
    → held_at m p ≡ (length p - k) + held_at m (drop (length p - k) p)
held_at_skip m [] k l h = let e : 0 - k ≡ 0 = omega arith in rw e (sym (zero-add (held_at m [])))
held_at_skip m (x ∷ p) k l h = elim (Bool-cases (leb (suc (length p)) k)) [
  | inl few ↦
      let e : suc (length p) - k ≡ 0 = ground arith in rw e (sym (zero-add (held_at m (x ∷ p))))
  | inr many ↦
      let e : suc (length p) - k ≡ suc (length p - k) = ground arith in
      let (plain, rest) = find-none m x p h in
      let long : length m ≤ length (x ∷ p) = ground arith in
      rw (e, held_at-cons m x p, never_whole m (x ∷ p) long plain, held_at_skip m p k l rest)
        (omega arith)
]

-- Where `feed` takes the bytes that cannot begin the marker to end.
pub partial_lem :
    (m text : List ℕ) (first : ℕ)
    → first ≤ length text
    → find m (drop first text) ≡ none
    → length text - partial text m first ≡ first + held_at m (drop first text)
unfolding partial
partial_lem m text first h k =
    let p = drop first text in
    let size : length p ≡ length text - first = length-drop first text in
    elim (Bool-cases (ltb (length text - first) (length m - 1))) [
      | inl few ↦
          let all = partial_from-held_at m text (length text - first) (omega arith) in
          let here : length text - (length text - first) ≡ first = omega arith in
          let bound = held_at_le m p in rw (few, all, here) (omega arith)
      | inr many ↦
          let n = length m - 1 in
          let fits : n ≤ length text = ground arith in
          let all = partial_from-held_at m text n fits in
          let skip = held_at_skip m p n (omega arith) k in
          let there : first + (length p - n) ≡ length text - n = ground arith in
          let same : drop (length p - n) p ≡ drop (length text - n) text =
            drop-drop first (length p - n) text ∙ ap (λ i. drop i text) there in
          let bound = held_at_le m (drop (length text - n) text) in
          let short = length-drop (length text - n) text in rw (many, all, skip, same) (omega arith)
    ]

pub rfind-find : (c : ℕ) (m p : List ℕ) → rfind (c ∷ m) p ≡ none → find (c ∷ m) p ≡ none
unfolding rfind find begins_with
rfind-find c m [] h = refl
rfind-find c m (x ∷ p) h = elim (Option-cases (rfind (c ∷ m) p)) [
  | inl e ↦ ground (arith, rfind-find c m p)
  | inr (i, e) ↦ ground arith
]
