-- ===== src/Console/Typed/Sizes.antt =====
-- How long the lines are that console/_posix.py types.
use hostctl.Prelude.{
  ℕ, zero, suc, ◌+◌, ◌≤◌, Bool, true, false, ◌≡◌, refl, Option, none, some, List, [], ◌∷◌, length,
  length-append, take, drop, codes, All, All-append, map, arith,
}
use hostctl.Console.Typed.{
  b64encode, decimal, slices, tmp, append_line, append_lines, input_lines, setup_lines, main_line,
  acknowledgement,
}

module _ (token : List ℕ) where
  tmp-size : length (tmp token) ≡ 12 + length token
  tmp-size = simp (length-append) (omega arith)

  append_line-size :
      (name piece : List ℕ)
      → length (append_line token name piece) ≡ 29 + length token + length piece + length name
  unfolding append_line
  append_line-size name piece = simp (length-append) (omega arith)

  pub acknowledgement-size :
      (number : ℕ)
      → length (acknowledgement token number) ≡ 26 + length token + length (decimal number)
  unfolding acknowledgement
  acknowledgement-size number = simp (length-append) (omega arith)

  pub main_line-size :
      (input : Option (List ℕ)) (merge_stderr : Bool)
      → length token ≡ 16
      → length (main_line token input merge_stderr) ≤ 576
  unfolding main_line
  main_line-size none false t = simp (length-append) (omega arith)
  main_line-size none true t = simp (length-append) (omega arith)
  main_line-size (some []) false t = simp (length-append) (omega arith)
  main_line-size (some []) true t = simp (length-append) (omega arith)
  main_line-size (some (c ∷ cs)) false t = simp (length-append) (omega arith)
  main_line-size (some (c ∷ cs)) true t = simp (length-append) (omega arith)

abbrev pub AllShort : List (List ℕ) → Type 0
AllShort = All (λ line. length line ≤ 814)

length-take_le : (n : ℕ) (xs : List ℕ) → length (take n xs) ≤ n
length-take_le zero xs = omega arith
length-take_le (suc n) [] = omega arith
length-take_le (suc n) (x ∷ xs) = omega (arith, length-take_le n xs)

slices-short : (fuel : ℕ) (text : List ℕ) → All (λ piece. length piece ≤ 768) (slices fuel text)
unfolding slices
slices-short zero text = tt
slices-short (suc fuel) [] = tt
slices-short (suc fuel) (x ∷ text) =
    (length-take_le 768 (x ∷ text), slices-short fuel (drop 768 (x ∷ text)))

module _ (token : List ℕ) (t : length token ≡ 16) where
  map-AllShort :
      (name : List ℕ) (pieces : List (List ℕ))
      → length name ≡ 1
      → All (λ piece. length piece ≤ 768) pieces
      → AllShort (map (append_line token name) pieces)
  map-AllShort name [] n h = tt
  map-AllShort name (piece ∷ pieces) n (short, h) =
      (rw (append_line-size token name piece) (omega arith), map-AllShort name pieces n h)

  append_lines-AllShort :
      (content name : List ℕ) → length name ≡ 1 → AllShort (append_lines token content name)
  unfolding append_lines
  append_lines-AllShort content name n =
      map-AllShort name (slices (length (b64encode content)) (b64encode content)) n
        (slices-short (length (b64encode content)) (b64encode content))

  input_lines-AllShort : (input : Option (List ℕ)) → AllShort (input_lines token input)
  unfolding input_lines
  input_lines-AllShort none = tt
  input_lines-AllShort (some []) = tt
  input_lines-AllShort (some (c ∷ cs)) =
      All-append (λ line. length line ≤ 814) (append_lines token (c ∷ cs) (codes "i")) _
        (append_lines-AllShort (c ∷ cs) (codes "i") refl) (simp (length-append) (omega arith), tt)

  pub setup_lines-AllShort :
      (command : List ℕ) (input : Option (List ℕ)) → AllShort (setup_lines token command input)
  unfolding setup_lines
  setup_lines-AllShort command input = (
    simp (length-append) (omega arith),
    All-append (λ line. length line ≤ 814) (append_lines token command (codes "c")) _
        (append_lines-AllShort command (codes "c") refl) (input_lines-AllShort input),
  )
