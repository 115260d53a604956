-- ===== src/Console/Typed/Bounds.antt =====
-- `_typed_batches` of console/_posix.py: how many bytes a batch with its acknowledgement has.
use hostctl.Prelude.{
  ℕ, suc, ◌+◌, ◌-◌, ◌^◌, ◌≤◌, ◌<◌, Bool, false, ◌≡◌, refl, Option, some, List, [], ◌∷◌, ◌++◌,
  length, length-append, null, All, All-append, arith,
}
use hostctl.Console.Typed.{
  setup_lines, main_line, acknowledgement, add_line, add_lines, no_batches, with_ack, acknowledged,
  typed_batches,
}
use hostctl.Console.Typed.Sizes.{
  AllShort, setup_lines-AllShort, main_line-size, acknowledgement-size,
}
use hostctl.Console.Typed.Decimal.{decimal_le}
use hostctl.Console.Typed.Groups.{
  typed_size, all_lines, Fits, IsGrouped, no_batches-IsGrouped, add_line-IsGrouped,
  add_lines-IsGrouped, some_current,
}

-- What is typed at once: at most `batch` bytes, in lines under 1 KiB.
abbrev pub IsTypeable : ℕ → List (List ℕ) → Type 0
IsTypeable batch lines = (typed_size lines ≤ batch) × All (λ line. length line < 1024) lines

with_ack-size :
    (ack : List ℕ) (lines : List (List ℕ))
    → null lines ≡ false
    → typed_size (with_ack ack lines) ≡ typed_size lines + length ack
unfolding with_ack
with_ack-size ack [] h = cc
with_ack-size ack (line ∷ []) h = let both = length-append line ack in omega arith
with_ack-size ack (line ∷ next ∷ lines) h = omega (arith, with_ack-size ack (next ∷ lines) refl)

with_ack-short :
    (ack : List ℕ) (lines : List (List ℕ))
    → length ack ≤ 64
    → AllShort lines
    → All (λ line. length line < 1024) (with_ack ack lines)
unfolding with_ack
with_ack-short ack [] h short = tt
with_ack-short ack (line ∷ []) h (short, none_left) =
    (rw (length-append line ack) (omega arith), tt)
with_ack-short ack (line ∷ next ∷ lines) h (short, more) =
    (omega arith, with_ack-short ack (next ∷ lines) h more)

short-lines : (lines : List (List ℕ)) → AllShort lines → All (λ line. length line < 1024) lines
short-lines [] h = tt
short-lines (line ∷ lines) (short, h) = (omega arith, short-lines lines h)

module _ (token : List ℕ) (t : length token ≡ 16) (batch : ℕ) (least : 1024 ≤ batch) where
  acknowledged-IsTypeable :
      (number : ℕ) (batches : List (List (List ℕ)))
      → number + length batches ≤ 10 ^ 22
      → All (Fits (batch - 64)) batches
      → All (IsTypeable batch) (acknowledged token number batches)
  unfolding acknowledged
  acknowledged-IsTypeable number [] few h = tt
  acknowledged-IsTypeable number (lines ∷ batches) few (fits, h) =
      let ack = acknowledgement token number in
      let digits = decimal_le 21 number (omega arith) in
      let size = acknowledgement-size token number in
      let small : length ack ≤ 64 = omega arith in
      let bound = fits.bounded in
      (
        (
          rw (with_ack-size ack lines fits.some_line) (omega arith),
          with_ack-short ack lines small fits.short,
        ),
        acknowledged-IsTypeable (suc number) batches (omega arith) h,
      )

  -- For a token of 16 characters and a batch size of at least 1024, each batch is at most that
  -- many bytes with its line ends and its acknowledgement, and each of its lines is under 1024
  -- bytes. The batches are, without their acknowledgements, all the lines in order, and the last
  -- is not empty. There are fewer than 10^22 - 1 lines before the command line.
  pub typed_batches-IsTypeable :
      (command : List ℕ) (input : Option (List ℕ)) (merge_stderr : Bool)
      → length (setup_lines token command input) < 10 ^ 22 - 1
      → All (IsTypeable batch) (typed_batches token command input merge_stderr (some batch))
        × ((closed : List (List (List ℕ))) × (last : List (List ℕ)) × (typed_batches token command
                input merge_stderr
                (some batch)
              ≡ acknowledged token 1 closed ++ last ∷ [])
            × (all_lines closed ++ last
                ≡ setup_lines token command input ++ main_line token input merge_stderr ∷ [])
            × (null last ≡ false))
  unfolding typed_batches
  typed_batches-IsTypeable command input merge_stderr few =
      let setup = setup_lines token command input in
      let main = main_line token input merge_stderr in
      let budget = batch - 64 in
      let s = add_lines budget no_batches setup in
      let main_size = main_line-size token input merge_stderr t in
      let h : IsGrouped budget setup s =
        add_lines-IsGrouped budget (omega arith) [] setup no_batches
          (setup_lines-AllShort token t command input) (no_batches-IsGrouped budget) in
      let k : IsGrouped budget (setup ++ main ∷ []) (add_line budget s main) =
        add_line-IsGrouped budget setup main s h (omega arith) (omega arith) in
      let n = k.count in
      let count = length-append setup (main ∷ []) in
      (
        All-append (IsTypeable batch) (acknowledged token 1 (add_line budget s main).closed) _
            (acknowledged-IsTypeable 1 (add_line budget s main).closed (omega arith) k.closed_fit)
            (
              (
                let bound = k.bounded in let sized = k.sized in omega arith,
                short-lines (add_line budget s main).current k.short,
              ),
              tt,
            ),
        (
          (add_line budget s main).closed,
          (add_line budget s main).current,
          refl,
          k.content,
          some_current budget s main,
        ),
      )
