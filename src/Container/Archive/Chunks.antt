-- ===== src/Container/Archive/Chunks.antt =====
-- A chunk reader hands out the bytes of the chunks, in order, and reports the end only at the end.
use hostctl.Prelude.{
  take, drop, take-drop, length-take, ℕ, zero, suc, ◌+◌, ◌<◌, ◌≤◌, Bool, true, false, ◌≡◌, refl, ap,
  ◌∙◌, sym, subst, List, [], ◌∷◌, ◌++◌, arith, append_assoc, append-nil, ltb, ◌&&◌, not, null,
  length, length-append, if◌then◌else◌, Bool-cases, inl, inr,
}
use mathlib.Core.List.{flatten}
use hostctl.Container.Archive.{ChunkReader, open_chunks, fill, readinto}

-- The bytes still to be read.
abbrev pub remaining : ChunkReader → List ℕ
remaining r = r.buffer ++ flatten r.chunks

-- A reader that is done has no chunk left.
abbrev pub IsConsistent : ChunkReader → Type 0
IsConsistent r = (r.done ≡ true) → r.chunks ≡ []

-- filling the buffer loses nothing and ends with bytes in it or with none anywhere
fill-remaining :
    (cs : List (List ℕ)) (b : List ℕ) (done : Bool) → remaining (fill cs b done) ≡ b ++ flatten cs
unfolding fill flatten
fill-remaining [] b done = refl
fill-remaining (c ∷ cs) b done = elim (Bool-cases (null b && not done)) [
  | inr e ↦ rw e refl
  | inl e ↦ rw e (fill-remaining cs (b ++ c) done ∙ append_assoc b c (flatten cs))
]

fill-IsConsistent :
    (cs : List (List ℕ)) (b : List ℕ) (done : Bool)
    → (done ≡ true → cs ≡ [])
    → IsConsistent (fill cs b done)
unfolding fill
fill-IsConsistent [] b done h = λ k. refl
fill-IsConsistent (c ∷ cs) b done h = elim (Bool-cases (null b && not done)) [
  | inr e ↦ rw e h
  | inl e ↦ rw e (fill-IsConsistent cs (b ++ c) done (λ k. ground arith))
]

kept_done : (b : List ℕ) (done : Bool) → null b ≡ true → (null b && not done) ≡ false → done ≡ true
kept_done b done h k = ground arith

fill_empty :
    (cs : List (List ℕ)) (b : List ℕ) (done : Bool)
    → (done ≡ true → cs ≡ [])
    → null (fill cs b done).buffer ≡ true
    → (fill cs b done).chunks ≡ []
unfolding fill
fill_empty [] b done h k = refl
fill_empty (c ∷ cs) b done h k = elim (Bool-cases (null b && not done)) [
  | inr e ↦ rw e (h (kept_done b done (rw e at k) e))
  | inl e ↦ rw e (fill_empty cs (b ++ c) done (λ d. ground arith) (rw e at k))
]

-- how many bytes a call hands out
abbrev count_of : ℕ → List ℕ → ℕ
count_of size b = if ltb size (length b) then size else length b

count_of-bounds : (size : ℕ) (b : List ℕ) → (count_of size b ≤ size) × (count_of size b ≤ length b)
count_of-bounds size b = (ground arith, ground arith)

count_of-none : (size : ℕ) (b : List ℕ) → 0 < size → count_of size b ≡ 0 → null b ≡ true
count_of-none size [] h k = refl
count_of-none size (x ∷ b) h k = ground arith

null-length : (xs : List ℕ) → null xs ≡ true → length xs ≡ 0
null-length [] h = refl
null-length (x ∷ xs) h = cc

null_nil : (xs : List ℕ) → null xs ≡ true → xs ≡ []
null_nil [] h = refl
null_nil (x ∷ xs) h = cc

take_none :
    (size : ℕ) (b : List ℕ) → 0 < size → null (take (count_of size b) b) ≡ true → null b ≡ true
take_none size b room h = count_of-none size b room (
    sym (length-take (count_of size b) b (count_of-bounds size b).1)
    ∙ null-length (take (count_of size b) b) h)

nothing_left :
    (size : ℕ) (r : ChunkReader)
    → IsConsistent r
    → 0 < size
    → null (readinto size r).0 ≡ true
    → remaining r ≡ []
unfolding readinto flatten
nothing_left size r ok room h =
    let b = (fill r.chunks r.buffer r.done).buffer in
    let empty = take_none size b room h in
    sym (fill-remaining r.chunks r.buffer r.done)
    ∙ ap (λ cs. b ++ flatten cs) (fill_empty r.chunks r.buffer r.done ok empty)
    ∙ append-nil b
    ∙ null_nil b empty

-- A call of `readinto` hands out the next bytes, at most as many as fit. It hands out none for a
-- buffer that has room only if no byte is left, whatever empty chunks come.
pub readinto_lem :
    (size : ℕ) (r : ChunkReader)
    → IsConsistent r
    → ((readinto size r).0 ++ remaining (readinto size r).1 ≡ remaining r)
      × (length (readinto size r).0 ≤ size)
      × IsConsistent (readinto size r).1
      × (0 < size → null (readinto size r).0 ≡ true → remaining r ≡ [])
unfolding readinto
readinto_lem size r ok =
    let b = (fill r.chunks r.buffer r.done).buffer in
    let n = count_of size b in
    (
      sym (append_assoc (take n b) (drop n b) _)
          ∙ ap (λ x. x ++ flatten (fill r.chunks r.buffer r.done).chunks) (take-drop n b)
          ∙ fill-remaining r.chunks r.buffer r.done,
      subst (λ k. k ≤ size) (sym (length-take n b (count_of-bounds size b).1))
          (count_of-bounds size b).0,
      fill-IsConsistent r.chunks r.buffer r.done ok,
      (λ room none_given. nothing_left size r ok room none_given),
    )

-- Reading until a read gives nothing, on fuel.
unfoldable pub drain : ℕ → ℕ → ChunkReader → List ℕ
drain zero size r = []
drain (suc fuel) size r =
    let (got, r') = readinto size r in
    let rest = drain fuel size r' in if null got then [] else got ++ rest

less_left :
    (xs ys whole : List ℕ) (fuel : ℕ)
    → null xs ≡ false
    → xs ++ ys ≡ whole
    → length whole < suc fuel
    → length ys < fuel
less_left [] ys whole fuel h e k = cc
less_left (x ∷ xs) ys whole fuel h e k = omega (arith, ap length e, length-append (x ∷ xs) ys)

drain-remaining :
    (fuel size : ℕ) (r : ChunkReader)
    → IsConsistent r
    → 0 < size
    → length (remaining r) < fuel
    → drain fuel size r ≡ remaining r
unfolding drain
drain-remaining zero size r ok room h = ground arith
drain-remaining (suc fuel) size r ok room h =
    let (whole, fits, ok', ends) = readinto_lem size r ok in
    elim (Bool-cases (null (readinto size r).0)) [
      | inl e ↦ rw e (sym (ends room e))
      | inr e ↦ rw e (
          ap (λ x. (readinto size r).0 ++ x)
            (drain-remaining fuel size (readinto size r).1 ok' room
              (less_left _ _ _ fuel e whole h))
          ∙ whole)
    ]

-- Reading a response with buffers of any positive size until a read gives nothing yields the chunks
-- one after the other, and takes at most one read more than there are bytes.
pub drain-open_chunks :
    (chunks : List (List ℕ)) (size : ℕ)
    → 0 < size
    → drain (length (flatten chunks) + 1) size (open_chunks chunks) ≡ flatten chunks
drain-open_chunks chunks size room =
    drain-remaining (length (flatten chunks) + 1) size (open_chunks chunks) (λ h. ground arith) room
      (omega arith)
