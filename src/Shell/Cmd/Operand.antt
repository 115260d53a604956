-- ===== src/Shell/Cmd/Operand.antt =====
-- How cmd reads the operand of a builtin: a rule of cmd, not code of the repository.
use hostctl.Prelude.{
  ℕ, Bool, false, ◌≡◌, refl, ap, ◌∙◌, sym, Option, none, some, List, [], ◌∷◌, ◌++◌, arith,
  append_assoc, append-nil, ◌==◌, ◌||◌, if◌then◌else◌, any, null, codes,
}
use mathlib.Core.List.{flatten}
use hostctl.Shell.Text.{Text, quotation, among}
use hostctl.Shell.Cmd.{caret, span_part}

-- Characters that end an operand or mean something to cmd, outside quotes.
unfoldable pub is_operand_special : ℕ → Bool
is_operand_special c = among c (codes "&|<>()\"%! ,;=^\t\n\r\u{b}\u{c}")

abbrev pub is_span_end : ℕ → Bool
is_span_end c = among c (codes "%\"\n\r")

-- Outside quotes, inside them, and after a caret.
pub data Place : Type 0 where
  outside : Place
  inside : Place
  escaped : Place

-- One operand, with its value so far.
unfoldable pub builtin_read : Place → Text → Text → Option Text
builtin_read outside out [] = some out
builtin_read inside out [] = none
builtin_read escaped out [] = none
builtin_read escaped out (c ∷ s) =
    let plain = builtin_read outside (out ++ c ∷ []) s in
    if c == b'\n' || c == b'\r' then none else plain
builtin_read inside out (c ∷ s) =
    let leave = builtin_read outside out s in
    let plain = builtin_read inside (out ++ c ∷ []) s in
    if c == quotation then leave else if is_span_end c then none else plain
builtin_read outside out (c ∷ s) =
    let escape = builtin_read escaped out s in
    let enter = builtin_read inside out s in
    let plain = builtin_read outside (out ++ c ∷ []) s in
    if c == caret
    then escape
    else if c == quotation
    then enter
    else if is_operand_special c
    then none
    else plain

-- a span and one escaped character
read_inside :
    (span out rest : Text)
    → any is_span_end span ≡ false
    → builtin_read inside out (span ++ quotation ∷ rest) ≡ builtin_read outside (out ++ span) rest
unfolding builtin_read
read_inside [] out rest h = rw append-nil refl
read_inside (c ∷ span) out rest h =
    let quoted : (c == quotation) ≡ false = ground arith in
    let ends : is_span_end c ≡ false = ground arith in
    rw (ends, quoted)
      (read_inside span (out ++ c ∷ []) rest (ground arith)
        ∙ ap (λ w. builtin_read outside w rest) (append_assoc out (c ∷ []) span))

pub read-span_part :
    (span out rest : Text)
    → any is_span_end span ≡ false
    → builtin_read outside out (span_part span ++ rest) ≡ builtin_read outside (out ++ span) rest
unfolding builtin_read span_part
read-span_part span out rest h =
    ap (builtin_read inside out) (append_assoc span (quotation ∷ []) rest)
    ∙ read_inside span out rest h

pub read_escaped :
    (c : ℕ) (out rest : Text)
    → (c == b'\n' || c == b'\r') ≡ false
    → builtin_read outside out (caret ∷ c ∷ rest) ≡ builtin_read outside (out ++ c ∷ []) rest
unfolding builtin_read
read_escaped c out rest h = rw h refl

-- What the parts so far say, whatever follows them.
abbrev pub Says : List Text → Text → Type 0
Says parts w =
    (rest : Text) → builtin_read outside [] (flatten parts ++ rest) ≡ builtin_read outside w rest

pub nothing_said : Says [] []
unfolding flatten
nothing_said rest = refl

flatten_last : (parts : List Text) (p : Text) → flatten (parts ++ p ∷ []) ≡ flatten parts ++ p
unfolding flatten
flatten_last [] p = append-nil p
flatten_last (q ∷ parts) p =
    ap (λ r. q ++ r) (flatten_last parts p) ∙ sym (append_assoc q (flatten parts) p)

pub part_said :
    (parts : List Text) (p w v : Text)
    → Says parts w
    → ((rest : Text) → builtin_read outside w (p ++ rest) ≡ builtin_read outside v rest)
    → Says (parts ++ p ∷ []) v
part_said parts p w v says step rest =
    ap (builtin_read outside [])
      (ap (λ r. r ++ rest) (flatten_last parts p) ∙ append_assoc (flatten parts) p rest)
    ∙ says (p ++ rest)
    ∙ step rest

-- the span so far is written out, if there is one
pub span_said :
    (span : Text) (parts : List Text) (w : Text)
    → any is_span_end span ≡ false
    → Says parts w
    → Says (if null span then parts else parts ++ span_part span ∷ []) (w ++ span)
span_said [] parts w h says =
    λ rest. says rest ∙ ap (λ v. builtin_read outside v rest) (sym (append-nil w))
span_said (c ∷ span) parts w h says =
    part_said parts (span_part (c ∷ span)) w (w ++ c ∷ span) says
      (λ rest. read-span_part (c ∷ span) w rest h)

pub read_end :
    (parts : List Text) (w : Text) → Says parts w → builtin_read outside [] (flatten parts) ≡ some w
read_end parts w says =
    ap (builtin_read outside []) (sym (append-nil (flatten parts)))
    ∙ says []
    ∙ unfold builtin_read in refl

special-caret : (c : ℕ) → is_operand_special c ≡ false → (c == caret) ≡ false
unfolding is_operand_special
special-caret c h = ground arith

special-quotation : (c : ℕ) → is_operand_special c ≡ false → (c == quotation) ≡ false
unfolding is_operand_special
special-quotation c h = ground arith

pub read_plain :
    (c : ℕ) (out s : Text)
    → is_operand_special c ≡ false
    → builtin_read outside out (c ∷ s) ≡ builtin_read outside (out ++ c ∷ []) s
unfolding builtin_read
read_plain c out s h = rw (special-caret c h, special-quotation c h, h) refl
