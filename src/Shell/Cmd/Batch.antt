-- ===== src/Shell/Cmd/Batch.antt =====
-- How cmd and a program that a batch file starts take what `_batch_token` of shell/_cmd.py writes.
-- `stays_word` is cmd's rule for quotes, and `crt_read_quoted` the C runtime's with `""` for one quote;
-- neither is code of the repository.
use hostctl.Prelude.{
  ℕ, zero, suc, ◌+◌, ◌*◌, ◌/◌, ◌%◌, Bool, true, false, ◌≡◌, refl, ap, ◌∙◌, sym, Option, none, some,
  [], ◌∷◌, ◌++◌, arith, append_assoc, append-nil, ◌==◌, ==_iff, if◌then◌else◌, Bool-cases, inl, inr,
  any, not, codes, ◌&&◌, ◌||◌,
}
use hostctl.Shell.Text.{Text, quotation, backslash, among}
use hostctl.Shell.Cmd.{slashes, batch_token}
use hostctl.Shell.Cmd.Caret.{prefix, prefixed, prefixed-some}
use hostctl.Shell.Cmd.Crt.{slashes_more, shut}
use hostctl.Shell.Cmd.Expansion.{
  plain, expand, double_loop, double_more, double_quote, double_plain, expand-plain,
  expand-batch_loop,
}

-- Outside quotes, inside them, and after a quote that may be the last or the first of two.
pub data Quoting : Type 0 where
  outside : Quoting
  inside : Quoting
  after_quote : Quoting

-- A text that is one quoted argument, read by the C runtime: backslashes pending, the value so far.
unfoldable pub crt_read_quoted : Quoting → ℕ → Text → Text → Option Text
crt_read_quoted outside n out [] = none
crt_read_quoted inside n out [] = none
crt_read_quoted after_quote n out [] = some out
crt_read_quoted outside n out (c ∷ s) =
    let rest = crt_read_quoted inside 0 out s in if c == quotation then rest else none
crt_read_quoted inside n out (c ∷ s) =
    let pending = crt_read_quoted inside (n + 1) out s in
    let literal = crt_read_quoted inside 0 (out ++ slashes (n / 2) ++ quotation ∷ []) s in
    let quote_read = crt_read_quoted after_quote 0 (out ++ slashes (n / 2)) s in
    let plain = crt_read_quoted inside 0 (out ++ slashes n ++ c ∷ []) s in
    if c == backslash
    then pending
    else if c == quotation
    then if n % 2 == 1 then literal else quote_read
    else plain
crt_read_quoted after_quote n out (c ∷ s) =
    let rest = crt_read_quoted inside 0 (out ++ quotation ∷ []) s in
    if c == quotation then rest else none

read_pending :
    (m n : ℕ) (out s : Text)
    → crt_read_quoted inside n out (slashes m ++ s) ≡ crt_read_quoted inside (n + m) out s
unfolding slashes crt_read_quoted
read_pending zero n out s = let none_more : n + 0 ≡ n = omega arith in rw none_more refl
read_pending (suc m) n out s =
    let total : n + 1 + m ≡ n + suc m = omega arith in
    read_pending m (n + 1) out s ∙ ap (λ k. crt_read_quoted inside k out s) total

read_run :
    (m : ℕ) (out u tail : Text)
    → crt_read_quoted inside 0 out ((slashes m ++ u) ++ tail)
      ≡ crt_read_quoted inside m out (u ++ tail)
read_run m out u tail =
    let total : 0 + m ≡ m = omega arith in
    ap (crt_read_quoted inside 0 out) (append_assoc (slashes m) u tail)
    ∙ read_pending m 0 out (u ++ tail)
    ∙ ap (λ k. crt_read_quoted inside k out (u ++ tail)) total

read_last :
    (n : ℕ) (out : Text)
    → crt_read_quoted inside (n * 2) out (quotation ∷ []) ≡ some (out ++ slashes n)
unfolding crt_read_quoted
read_last n out =
    let even : n * 2 % 2 ≡ 0 = omega arith in
    let half : n * 2 / 2 ≡ n = omega arith in rw (even, half) refl

read_two :
    (n : ℕ) (out s : Text)
    → crt_read_quoted inside (n * 2) out (quotation ∷ quotation ∷ s)
      ≡ crt_read_quoted inside 0 (out ++ slashes n ++ quotation ∷ []) s
unfolding crt_read_quoted
read_two n out s =
    let even : n * 2 % 2 ≡ 0 = omega arith in
    let half : n * 2 / 2 ≡ n = omega arith in rw (even, half) refl

read_inert :
    (c n : ℕ) (out s : Text)
    → (c == backslash) ≡ false
    → (c == quotation) ≡ false
    → crt_read_quoted inside n out (c ∷ s) ≡ crt_read_quoted inside 0 (out ++ slashes n ++ c ∷ []) s
unfolding crt_read_quoted
read_inert c n out s h k = rw (h, k) refl

double_nil : (n : ℕ) → double_loop [] n ≡ slashes (n * 2) ++ []
unfolding double_loop
double_nil n = sym (append-nil (slashes (n * 2)))

read-double_loop :
    (s : Text) (n : ℕ) (out : Text)
    → crt_read_quoted inside 0 out (double_loop s n ++ quotation ∷ [])
      ≡ some (out ++ slashes n ++ s)
read-double_loop [] n out = rw (double_nil n) (
    read_run (n * 2) out [] (quotation ∷ [])
    ∙ read_last n out
    ∙ ap some (sym (append-nil (out ++ slashes n))))
read-double_loop (c ∷ s) n out = elim (Bool-cases (c == backslash)) [
  | inl e ↦ rw (double_more c s n e) (
      read-double_loop s (n + 1) out
      ∙ ap some (append_assoc out (slashes (n + 1)) s)
      ∙ ap (λ t. some (out ++ t)) (slashes_more n s)
      ∙ ap some (sym (append_assoc out (slashes n) (backslash ∷ s)))
      ∙ ap (λ k. some (out ++ slashes n ++ k ∷ s)) (sym ((==_iff c backslash).0 e)))
  | inr e ↦ elim (Bool-cases (c == quotation)) [
    | inl q ↦ rw (double_quote c s n e q) (
        read_run (n * 2) out (quotation ∷ quotation ∷ double_loop s 0) (quotation ∷ [])
        ∙ read_two n out (double_loop s 0 ++ quotation ∷ [])
        ∙ read-double_loop s 0 (out ++ slashes n ++ quotation ∷ [])
        ∙ ap some (shut out (slashes n) quotation s)
        ∙ ap (λ k. some (out ++ slashes n ++ k ∷ s)) (sym ((==_iff c quotation).0 q)))
    | inr q ↦ rw (double_plain c s n e q) (
        read_run n out (c ∷ double_loop s 0) (quotation ∷ [])
        ∙ read_inert c n out (double_loop s 0 ++ quotation ∷ []) e q
        ∙ read-double_loop s 0 (out ++ slashes n ++ c ∷ [])
        ∙ ap some (shut out (slashes n) c s))
  ]
]

open_token :
    (w : Text) → crt_read_quoted outside 0 [] (quotation ∷ w) ≡ crt_read_quoted inside 0 [] w
unfolding crt_read_quoted
open_token w = refl

-- What ends a line, and what acts on a line or splits it outside quotes.
abbrev pub ends_line : ℕ → Bool
ends_line c = c == b'\n' || c == b'\r'

abbrev pub acts : ℕ → Bool
acts c = among c (codes "&|<>^() \t,;=")

-- cmd's scan of a line that has the text in it, from outside quotes or inside them: the text stays one
-- word that cmd does not act on. Each quote opens or closes a span, and a span ends with the text.
unfoldable pub stays_word : Bool → Text → Bool
stays_word quoted [] = not quoted
stays_word quoted (c ∷ s) =
    let rest = stays_word quoted s in
    let turned = stays_word (not quoted) s in
    if ends_line c
    then false
    else if c == quotation
    then turned
    else (quoted || not (acts c)) && rest

stays_word-slashes : (m : ℕ) (s : Text) → stays_word true (slashes m ++ s) ≡ stays_word true s
unfolding slashes stays_word
stays_word-slashes zero s = refl
stays_word-slashes (suc m) s = stays_word-slashes m s

stays_word_run :
    (m : ℕ) (u tail : Text)
    → stays_word true ((slashes m ++ u) ++ tail) ≡ stays_word true (u ++ tail)
stays_word_run m u tail =
    ap (stays_word true) (append_assoc (slashes m) u tail) ∙ stays_word-slashes m (u ++ tail)

stays_word-inert :
    (c : ℕ) (s : Text)
    → ends_line c ≡ false
    → (c == quotation) ≡ false
    → stays_word true (c ∷ s) ≡ stays_word true s
unfolding stays_word
stays_word-inert c s h k = rw (h, k) refl

stays_word-two : (s : Text) → stays_word true (quotation ∷ quotation ∷ s) ≡ stays_word true s
unfolding stays_word
stays_word-two s = refl

stays_word-double_loop :
    (s : Text) (n : ℕ) (tail : Text)
    → any ends_line s ≡ false
    → stays_word true (double_loop s n ++ tail) ≡ stays_word true tail
stays_word-double_loop [] n tail h = rw (double_nil n) (stays_word_run (n * 2) [] tail)
stays_word-double_loop (c ∷ s) n tail h =
    let no_end : ends_line c ≡ false = ground arith in
    let later : any ends_line s ≡ false = ground arith in
    elim (Bool-cases (c == backslash)) [
      | inl e ↦ rw (double_more c s n e) (stays_word-double_loop s (n + 1) tail later)
      | inr e ↦ elim (Bool-cases (c == quotation)) [
        | inl q ↦ rw (double_quote c s n e q) (
            stays_word_run (n * 2) (quotation ∷ quotation ∷ double_loop s 0) tail
            ∙ stays_word-two (double_loop s 0 ++ tail)
            ∙ stays_word-double_loop s 0 tail later)
        | inr q ↦ rw (double_plain c s n e q) (
            stays_word_run n (c ∷ double_loop s 0) tail
            ∙ stays_word-inert c (double_loop s 0 ++ tail) no_end q
            ∙ stays_word-double_loop s 0 tail later)
      ]
    ]

stays_word-quoted :
    (s : Text)
    → any ends_line s ≡ false
    → stays_word false (quotation ∷ (double_loop s 0 ++ quotation ∷ [])) ≡ true
unfolding stays_word
stays_word-quoted s h = stays_word-double_loop s 0 (quotation ∷ []) h

module _ (value_of : Text → Option Text) where
  -- What a program reads that a batch file hands its arguments to. cmd expands the line, scans it, hands
  -- the word over as a parameter, and scans the line of the batch file that has the word in its turn;
  -- what a parameter stands for is not expanded again, so both scans are of the same text.
  unfoldable pub batch_received : Text → Option Text
  unfolding expand crt_read_quoted stays_word
  batch_received token = elim (expand value_of plain token) [
    | none ↦ none
    | some w ↦ if stays_word false w then crt_read_quoted outside 0 [] w else none
  ]

  received_expanded :
      (token w : Text)
      → expand value_of plain token ≡ some w
      → stays_word false w ≡ true
      → batch_received token ≡ crt_read_quoted outside 0 [] w
  unfolding batch_received
  received_expanded token w h k = rw (h, batch_received, k) refl

  expand_last : expand value_of plain (quotation ∷ []) ≡ some (quotation ∷ [])
  unfolding expand
  expand_last = refl

  module _ (here : Text) (unnamed : value_of [] ≡ none)
      (cd : value_of (codes "cd") ≡ some here) where
    expand-batch_token :
        (text : Text)
        → expand value_of plain (batch_token text)
          ≡ some (quotation ∷ (double_loop text 0 ++ quotation ∷ []))
    unfolding batch_token
    expand-batch_token text =
        expand-plain value_of quotation _ refl
        ∙ ap (prefix quotation) (
            expand-batch_loop value_of here unnamed cd text 0 (quotation ∷ [])
            ∙ ap (prefixed (double_loop text 0)) expand_last
            ∙ prefixed-some (double_loop text 0) (quotation ∷ []))

    -- A program that a batch file hands its arguments to reads the value that `_batch_token` was given
    -- as one argument, which cmd neither splits nor acts on in either of its parses. The value has no
    -- line end; `cd` is defined, as cmd defines it, and no variable has the empty name.
    pub batch_received-batch_token :
        (text : Text) → any ends_line text ≡ false → batch_received (batch_token text) ≡ some text
    batch_received-batch_token text h =
        received_expanded (batch_token text) _ (expand-batch_token text) (stays_word-quoted text h)
        ∙ open_token (double_loop text 0 ++ quotation ∷ [])
        ∙ read-double_loop text 0 []
        ∙ unfold slashes in refl
