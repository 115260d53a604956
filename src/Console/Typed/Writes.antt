-- ===== src/Console/Typed/Writes.antt =====
-- `_type` of console/_posix.py: the writes that it makes of some lines. `_WRITE` is 2048.
use mathlib.Core.List.{flatten}
use hostctl.Prelude.{
  ℕ, ◌+◌, ◌≤◌, ◌<◌, Bool, true, false, ◌≡◌, refl, ap, sym, ◌∙◌, List, [], ◌∷◌, ◌++◌, length,
  length-append, leb, All, arith, append_assoc, append-nil, if◌then◌else◌,
}

-- One round of the loop over the lines: `pieces[-1] += data`, or `pieces.append(data)`.
unfoldable pub add_piece : List (List ℕ) → List ℕ → List (List ℕ)
add_piece [] bytes = bytes ∷ []
add_piece (piece ∷ []) bytes =
    if leb (length piece + length bytes) 2048 then (piece ++ bytes) ∷ [] else piece ∷ bytes ∷ []
add_piece (piece ∷ next ∷ pieces) bytes = piece ∷ add_piece (next ∷ pieces) bytes

-- `line.encode("ascii") + b"\n"`
abbrev pub with_newline : List ℕ → List ℕ
with_newline line = line ++ 10 ∷ []

unfoldable pub pieces_from : List (List ℕ) → List (List ℕ) → List (List ℕ)
unfolding add_piece
pieces_from pieces [] = pieces
pieces_from pieces (line ∷ lines) = pieces_from (add_piece pieces (with_newline line)) lines

-- What `_type` writes for some lines, one write after the other.
unfoldable pub typed_writes : List (List ℕ) → List (List ℕ)
typed_writes lines = pieces_from [] lines

-- The bytes of some lines.
unfoldable pub typed_bytes : List (List ℕ) → List ℕ
typed_bytes [] = []
typed_bytes (line ∷ lines) = with_newline line ++ typed_bytes lines

abbrev AllFit : List (List ℕ) → Type 0
AllFit = All (λ piece. length piece ≤ 2048)

if-AllFit :
    (b : Bool) (x y : List (List ℕ))
    → (b ≡ true → AllFit x)
    → (b ≡ false → AllFit y)
    → AllFit (if b then x else y)
if-AllFit true x y h k = h refl
if-AllFit false x y h k = k refl

if-flatten :
    (b : Bool) (x y : List (List ℕ)) (r : List ℕ)
    → flatten x ≡ r
    → flatten y ≡ r
    → flatten (if b then x else y) ≡ r
if-flatten true x y r h k = h
if-flatten false x y r h k = k

add_piece-AllFit :
    (pieces : List (List ℕ)) (bytes : List ℕ)
    → AllFit pieces
    → length bytes ≤ 2048
    → AllFit (add_piece pieces bytes)
unfolding add_piece
add_piece-AllFit [] bytes h fits = (fits, tt)
add_piece-AllFit (piece ∷ []) bytes (short, h) fits =
    if-AllFit (leb (length piece + length bytes) 2048) _ _
      (λ room. (rw (length-append piece bytes) (ground arith), tt)) (λ full. (short, (fits, tt)))
add_piece-AllFit (piece ∷ next ∷ pieces) bytes (short, h) fits =
    (short, add_piece-AllFit (next ∷ pieces) bytes h fits)

flatten-add_piece :
    (pieces : List (List ℕ)) (bytes : List ℕ)
    → flatten (add_piece pieces bytes) ≡ flatten pieces ++ bytes
unfolding add_piece flatten
flatten-add_piece [] bytes = append-nil bytes
flatten-add_piece (piece ∷ []) bytes =
    if-flatten (leb (length piece + length bytes) 2048) _ _ ((piece ++ []) ++ bytes)
      (append-nil (piece ++ bytes) ∙ ap (λ p. p ++ bytes) (sym (append-nil piece)))
      (ap (λ r. piece ++ r) (append-nil bytes) ∙ ap (λ p. p ++ bytes) (sym (append-nil piece)))
flatten-add_piece (piece ∷ next ∷ pieces) bytes =
    ap (λ r. piece ++ r) (flatten-add_piece (next ∷ pieces) bytes)
    ∙ sym (append_assoc piece (flatten (next ∷ pieces)) bytes)

pieces_from-lem :
    (pieces lines : List (List ℕ))
    → AllFit pieces
    → All (λ line. length line < 1024) lines
    → AllFit (pieces_from pieces lines)
      × (flatten (pieces_from pieces lines) ≡ flatten pieces ++ typed_bytes lines)
unfolding pieces_from typed_bytes
pieces_from-lem pieces [] h k = (h, sym (append-nil (flatten pieces)))
pieces_from-lem pieces (line ∷ lines) h (short, k) =
    let bytes = with_newline line in
    let size = length-append line (10 ∷ []) in
    let (fit, content) =
      pieces_from-lem (add_piece pieces bytes) lines (add_piece-AllFit pieces bytes h (omega arith))
        k in
    (
      fit,
      content
          ∙ (ap (λ r. r ++ typed_bytes lines) (flatten-add_piece pieces bytes)
              ∙ append_assoc (flatten pieces) bytes (typed_bytes lines)),
    )

-- `_type` writes lines that are under 1024 bytes in pieces of at most 2048 bytes, which are
-- together exactly the lines with their line ends.
pub typed_writes-typed_bytes :
    (lines : List (List ℕ))
    → All (λ line. length line < 1024) lines
    → All (λ piece. length piece ≤ 2048) (typed_writes lines)
      × (flatten (typed_writes lines) ≡ typed_bytes lines)
unfolding typed_writes typed_bytes flatten
typed_writes-typed_bytes lines h = pieces_from-lem [] lines tt h
