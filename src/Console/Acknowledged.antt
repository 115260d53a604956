-- ===== src/Console/Acknowledged.antt =====
-- `_acknowledged` of console/_posix.py: the reading loop that waits for a batch to be acknowledged.
use mathlib.Core.Option
use mathlib.Core.List.{flatten}
use hostctl.Prelude.{
  ℕ, ◌+◌, ◌-◌, ◌≤◌, ◌≡◌, refl, ap, sym, ◌∙◌, Option, none, some, List, [], ◌∷◌, ◌++◌, length, drop,
  codes, arith, Option-cases, inl, inr, append_assoc, append-nil,
}
use hostctl.Prelude.Search.{find, shift_by, drop-append, drop-further}
use hostctl.Prelude.Search.Resume.{find-le, find-append, find-last}
use hostctl.Console.Typed.{decimal}

-- `f"__AK{token}_{number}__"`
unfoldable pub ack_marker : List ℕ → ℕ → List ℕ
ack_marker token number = codes "__AK" ++ (token ++ (codes "_" ++ (decimal number ++ codes "__")))

-- The loop, for a stream that gives these chunks: what it returns, with the chunks that it has not
-- read, or `none` while it waits for more.
unfoldable pub await : List ℕ → List (List ℕ) → List ℕ → Option (List ℕ × List (List ℕ))
await marker [] buffer = elim (find marker buffer) [
  | some hit ↦ some (drop (hit + length marker) buffer, [])
  | none ↦ none
]
await marker (chunk ∷ chunks) buffer = elim (find marker buffer) [
  | some hit ↦ some (drop (hit + length marker) buffer, chunk ∷ chunks)
  | none ↦ await marker chunks (drop (length buffer + 1 - length marker) buffer ++ chunk)
]

-- `_acknowledged`, with an empty buffer at first.
unfoldable pub await_acknowledgement : List ℕ → ℕ → List (List ℕ) → Option (List ℕ × List (List ℕ))
await_acknowledgement token number chunks = await (ack_marker token number) chunks []

-- The chunks of a result are what follows the first `n` bytes of `text`.
abbrev Leaves : Option (List ℕ × List (List ℕ)) → ℕ → List ℕ → Type 0
Leaves result n text =
    (left : List ℕ) × (rest : List (List ℕ)) × (result ≡ some (left, rest))
    × (left ++ flatten rest ≡ drop n text)

some_same : {a b : ℕ} → some a ≡ some b → a ≡ b
some_same h = cc

shifted_none : (k : ℕ) (found : Option ℕ) → shift_by k found ≡ none → found ≡ none
shifted_none k none h = refl
shifted_none k (some i) h = cc

some_byte : (token : List ℕ) (number : ℕ) → 1 ≤ length (ack_marker token number)
unfolding ack_marker
some_byte token number = omega arith

module _ (m : List ℕ) (long : 1 ≤ length m) where
  found-Leaves :
      (chunks : List (List ℕ)) (buffer : List ℕ) (i n : ℕ)
      → find m buffer ≡ some i
      → find m (buffer ++ flatten chunks) ≡ some n
      → Leaves (some (drop (i + length m) buffer, chunks)) (n + length m) (buffer ++ flatten chunks)
  found-Leaves chunks buffer i n e h =
      let same : i ≡ n = some_same (sym (find-append m buffer (flatten chunks) i e) ∙ h) in
      (
        drop (i + length m) buffer,
        chunks,
        refl,
        sym (drop-append (i + length m) buffer (flatten chunks) (find-le m buffer i e))
            ∙ ap (λ k. drop (k + length m) (buffer ++ flatten chunks)) same,
      )

  find-kept :
      (buffer b : List ℕ)
      → find m buffer ≡ none
      → find m (buffer ++ b)
        ≡ shift_by
            (length buffer + 1 - length m)
            (find m (drop (length buffer + 1 - length m) buffer ++ b))
  find-kept buffer b e =
      let same : length buffer - (length m - 1) ≡ length buffer + 1 - length m = omega arith in
      find-last m buffer b (length m - 1) (omega arith) e
      ∙ ap (λ i. shift_by i (find m (drop i buffer ++ b))) same

  -- the bytes that are kept are enough to go on
  more-Leaves :
      (chunk : List ℕ) (chunks : List (List ℕ)) (buffer : List ℕ) (n : ℕ)
      → find m buffer ≡ none
      → find m (buffer ++ (chunk ++ flatten chunks)) ≡ some n
      → ((j : ℕ)
          → find m ((drop (length buffer + 1 - length m) buffer ++ chunk) ++ flatten chunks)
            ≡ some j
          → Leaves
              (await m chunks (drop (length buffer + 1 - length m) buffer ++ chunk))
              (j + length m)
              ((drop (length buffer + 1 - length m) buffer ++ chunk) ++ flatten chunks))
      → Leaves
          (await m chunks (drop (length buffer + 1 - length m) buffer ++ chunk))
          (n + length m)
          (buffer ++ (chunk ++ flatten chunks))
  more-Leaves chunk chunks buffer n e h go_on =
      let k = length buffer + 1 - length m in
      let b = chunk ++ flatten chunks in
      let kept = drop k buffer in
      let found = find-kept buffer b e in
      elim (Option-cases (find m (kept ++ b))) [
        | inl f ↦ (let never : none ≡ some n = sym (ap (shift_by k) f) ∙ (sym found ∙ h) in cc)
        | inr (j, f) ↦
            let at : k + j ≡ n = some_same (sym (ap (shift_by k) f) ∙ (sym found ∙ h)) in
            let (left, rest, got, content) =
              go_on j (ap (find m) (append_assoc kept chunk (flatten chunks)) ∙ f) in
            (
              left,
              rest,
              got,
              content
                  ∙ (ap (drop (j + length m)) (append_assoc kept chunk (flatten chunks))
                      ∙ (sym (drop-further k (j + length m) buffer b (omega arith))
                          ∙ ap (λ i. drop i (buffer ++ b)) (omega arith))),
            )
      ]

  await-Leaves :
      (chunks : List (List ℕ)) (buffer : List ℕ) (n : ℕ)
      → find m (buffer ++ flatten chunks) ≡ some n
      → Leaves (await m chunks buffer) (n + length m) (buffer ++ flatten chunks)
  unfolding await flatten
  await-Leaves [] buffer n h = elim (Option-cases (find m buffer)) [
    | inl e ↦
        (let never : none ≡ some n = sym e ∙ (ap (find m) (sym (append-nil buffer)) ∙ h) in cc)
    | inr (i, e) ↦ rw (e, await) (found-Leaves [] buffer i n e h)
  ]
  await-Leaves (chunk ∷ chunks) buffer n h = elim (Option-cases (find m buffer)) [
    | inr (i, e) ↦ rw (e, await) (found-Leaves (chunk ∷ chunks) buffer i n e h)
    | inl e ↦
        rw (e, await)
          (more-Leaves chunk chunks buffer n e h
            (λ j g. await-Leaves chunks (drop (length buffer + 1 - length m) buffer ++ chunk) j g))
  ]

  await-none :
      (chunks : List (List ℕ)) (buffer : List ℕ)
      → find m (buffer ++ flatten chunks) ≡ none
      → await m chunks buffer ≡ none
  unfolding await flatten
  await-none [] buffer h = rw (ap (find m) (sym (append-nil buffer)) ∙ h, await) refl
  await-none (chunk ∷ chunks) buffer h = elim (Option-cases (find m buffer)) [
    | inr (i, e) ↦
        (let never : some i ≡ none = sym (find-append m buffer (chunk ++ flatten chunks) i e) ∙ h in
          cc)
    | inl e ↦
        let k = length buffer + 1 - length m in
        let later = shifted_none k _ (sym (find-kept buffer (chunk ++ flatten chunks) e) ∙ h) in
        rw (e, await)
          (await-none chunks (drop k buffer ++ chunk)
            (ap (find m) (append_assoc (drop k buffer) chunk (flatten chunks)) ∙ later))
  ]

-- What is returned, and what is left unread.
abbrev pub unread : List ℕ × List (List ℕ) → List ℕ
unread (left, rest) = left ++ flatten rest

-- However the stream is cut into chunks, `_acknowledged` returns if it brings the acknowledgement and
-- waits on if it does not; what it returns and what it leaves unread are, one after the other, all that
-- follows the first acknowledgement in the stream.
pub await_acknowledgement-find :
    (token : List ℕ) (number : ℕ) (chunks : List (List ℕ))
    → Option.map unread (await_acknowledgement token number chunks)
      ≡ Option.map
          (λ hit. drop (hit + length (ack_marker token number)) (flatten chunks))
          (find (ack_marker token number) (flatten chunks))
unfolding await_acknowledgement
await_acknowledgement-find token number chunks =
    let m = ack_marker token number in
    let long = some_byte token number in
    elim (Option-cases (find m (flatten chunks))) [
      | inl e ↦ rw (e, await-none m long chunks [] e) refl
      | inr (n, e) ↦
          let (left, rest, got, content) = await-Leaves m long chunks [] n e in
          rw (e, got) (ap some content)
    ]
