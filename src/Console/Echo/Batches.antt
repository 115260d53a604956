-- ===== src/Console/Echo/Batches.antt =====
-- The batches of `_typed_batches` in console/_posix.py, against the markers of their command.
use hostctl.Prelude.{
  ℕ, suc, ◌+◌, Bool, true, false, ◌≡◌, refl, Option, none, some, List, [], ◌∷◌, length, null, not,
  ◌&&◌, ltb, All, All-append, All-map, ◌-◌, codes, if◌then◌else◌,
}
use hostctl.Prelude.Search.{begins_with, find}
use hostctl.Console.Frame.{start_marker, mid_marker, end_prefix}
use hostctl.Console.Typed.{
  setup_lines, main_line, acknowledgement, Batches, add_line, add_lines, no_batches, with_ack,
  acknowledged, typed_batches,
}
use hostctl.Console.Typed.Writes.{typed_bytes}
use hostctl.Console.Acknowledged.{ack_marker}
use hostctl.Console.Echo.Marks.{
  is_hex, opens, opens_by, clean, Sealed, make_Sealed, append-Sealed, clean-Sealed, start_IsWord,
  mid_IsWord, end_IsWord, ack_IsWord, find-clean,
}
use hostctl.Console.Echo.Lines.{setup_lines-Sealed, main_line-Sealed, acknowledgement-Sealed}

-- What is kept while the lines are grouped.
record AllSealed (s : Batches) : Type 0 where
  closed : All (All Sealed) s.closed
  current : All Sealed s.current

if-AllSealed :
    (b : Bool) (x y : Batches) → AllSealed x → AllSealed y → AllSealed (if b then x else y)
if-AllSealed true x y h k = h
if-AllSealed false x y h k = k

add_line-AllSealed :
    (budget : ℕ) (s : Batches) (line : List ℕ)
    → AllSealed s
    → Sealed line
    → AllSealed (add_line budget s line)
unfolding add_line
add_line-AllSealed budget s line h k =
    if-AllSealed (not (null s.current) && ltb budget (s.size + length line + 1)) _ _
      (record {
        closed = All-append (All Sealed) s.closed (s.current ∷ []) h.closed (h.current, tt);
        current = (k, tt);
      })
      (record {
        closed = h.closed;
        current = All-append Sealed s.current (line ∷ []) h.current (k, tt);
      })

add_lines-AllSealed :
    (budget : ℕ) (s : Batches) (lines : List (List ℕ))
    → AllSealed s
    → All Sealed lines
    → AllSealed (add_lines budget s lines)
unfolding add_lines
add_lines-AllSealed budget s [] h k = h
add_lines-AllSealed budget s (line ∷ lines) h (one, k) =
    add_lines-AllSealed budget (add_line budget s line) lines
      (add_line-AllSealed budget s line h one) k

with_ack-Sealed :
    (ack : List ℕ) (lines : List (List ℕ))
    → Sealed ack
    → All Sealed lines
    → All Sealed (with_ack ack lines)
unfolding with_ack
with_ack-Sealed ack [] h k = tt
with_ack-Sealed ack (line ∷ []) h (one, k) = (append-Sealed one h, tt)
with_ack-Sealed ack (line ∷ next ∷ lines) h (one, k) = (one, with_ack-Sealed ack (next ∷ lines) h k)

typed_bytes-Sealed : (lines : List (List ℕ)) → All Sealed lines → Sealed (typed_bytes lines)
unfolding typed_bytes clean opens opens_by begins_with
typed_bytes-Sealed [] h = make_Sealed [] (λ rest. refl)
typed_bytes-Sealed (line ∷ lines) (one, h) =
    append-Sealed (append-Sealed one (make_Sealed (10 ∷ []) (λ rest. refl)))
      (typed_bytes-Sealed lines h)

-- No marker of a command stands in a text.
pub record IsUnmarked (token text : List ℕ) : Type 0 where
  pub start : find (start_marker token) text ≡ none
  pub mid : find (mid_marker token) text ≡ none
  pub end : find (end_prefix token) text ≡ none
  pub ack : (number : ℕ) → find (ack_marker token number) text ≡ none

Sealed-IsUnmarked :
    (token text : List ℕ)
    → null token ≡ false
    → All (λ c. is_hex c ≡ true) token
    → Sealed text
    → IsUnmarked token text
unfolding start_marker mid_marker end_prefix ack_marker
Sealed-IsUnmarked [] text h t k = cc
Sealed-IsUnmarked (c ∷ cs) text h (hex, t) k = record {
  start = find-clean (codes "__ST") start_IsWord c hex _ text (clean-Sealed text k);
  mid = find-clean (codes "__OUT") mid_IsWord c hex _ text (clean-Sealed text k);
  end = find-clean (codes "__EN") end_IsWord c hex _ text (clean-Sealed text k);
  ack = λ number. find-clean (codes "__AK") ack_IsWord c hex _ text (clean-Sealed text k);
}

module _ (token : List ℕ) (some_token : null token ≡ false)
    (t : All (λ c. is_hex c ≡ true) token) where
  acknowledged-Sealed :
      (number : ℕ) (batches : List (List (List ℕ)))
      → All (All Sealed) batches
      → All (All Sealed) (acknowledged token number batches)
  unfolding acknowledged
  acknowledged-Sealed number [] h = tt
  acknowledged-Sealed number (lines ∷ batches) (one, h) = (
    with_ack-Sealed (acknowledgement token number) lines (acknowledgement-Sealed token t number)
        one,
    acknowledged-Sealed (suc number) batches h,
  )

  typed_batches-Sealed :
      (command : List ℕ) (input : Option (List ℕ)) (merge_stderr : Bool) (batch : Option ℕ)
      → All (All Sealed) (typed_batches token command input merge_stderr batch)
  unfolding typed_batches
  typed_batches-Sealed command input merge_stderr none = (
    All-append Sealed (setup_lines token command input) _ (setup_lines-Sealed token t command input)
        (main_line-Sealed token t input merge_stderr, tt),
    tt,
  )
  typed_batches-Sealed command input merge_stderr (some batch) =
      let s = add_lines (batch - 64) no_batches (setup_lines token command input) in
      let h =
        add_lines-AllSealed (batch - 64) no_batches (setup_lines token command input)
          (record { closed = tt; current = tt }) (setup_lines-Sealed token t command input) in
      let k =
        add_line-AllSealed (batch - 64) s (main_line token input merge_stderr) h
          (main_line-Sealed token t input merge_stderr) in
      All-append (All Sealed)
        (acknowledged token 1 (add_line (batch - 64) s (main_line token input merge_stderr)).closed)
        _ (acknowledged-Sealed 1 _ k.closed) (k.current, tt)

  -- Whatever the command, its input and the size of the batches are, no marker of the command stands in
  -- what is typed for it, in any batch: neither those of its frames nor an acknowledgement. The token has
  -- hexadecimal digits and is not empty.
  pub typed_batches-IsUnmarked :
      (command : List ℕ) (input : Option (List ℕ)) (merge_stderr : Bool) (batch : Option ℕ)
      → All
          (λ lines. IsUnmarked token (typed_bytes lines))
          (typed_batches token command input merge_stderr batch)
  typed_batches-IsUnmarked command input merge_stderr batch =
      All-map
        (λ lines h.
          Sealed-IsUnmarked token (typed_bytes lines) some_token t (typed_bytes-Sealed lines h))
        _ (typed_batches-Sealed command input merge_stderr batch)
