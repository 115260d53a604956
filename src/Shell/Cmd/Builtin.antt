-- ===== src/Shell/Cmd/Builtin.antt =====
-- A builtin reads back what `_builtin_argument` of shell/_cmd.py writes.
use hostctl.Prelude.{
  ℕ, Bool, true, false, ◌≡◌, refl, ap, ◌∙◌, sym, some, List, [], ◌∷◌, ◌++◌, arith, append_assoc,
  append-nil, leb, ◌==◌, ◌&&◌, ◌||◌, not, if◌then◌else◌, all, any, null, codes, Bool-cases, inl,
  inr,
}
use mathlib.Core.List.{flatten}
use hostctl.Shell.Text.{Text, quotation, among, is_ascii_alnum}
use hostctl.Shell.Cmd.{caret, percent, span_part, builtin_loop, builtin_argument}
use hostctl.Shell.Cmd.Operand.{
  is_operand_special, is_span_end, outside, builtin_read, Says, nothing_said, part_said, span_said,
  read_end, read-span_part, read_escaped, read_plain,
}

loop_end :
    (span : Text) (parts : List Text)
    → builtin_loop [] span parts
      ≡ (if not (null span) || null parts then parts ++ span_part span ∷ [] else parts)
unfolding builtin_loop
loop_end span parts = refl

loop_cut :
    (c : ℕ) (s span : Text) (parts : List Text)
    → (c == percent || c == quotation) ≡ true
    → builtin_loop (c ∷ s) span parts
      ≡ builtin_loop s []
          ((if null span then parts else parts ++ span_part span ∷ []) ++ (caret ∷ c ∷ []) ∷ [])
unfolding builtin_loop
loop_cut c s span parts h = rw h refl

loop_more :
    (c : ℕ) (s span : Text) (parts : List Text)
    → (c == percent || c == quotation) ≡ false
    → builtin_loop (c ∷ s) span parts ≡ builtin_loop s (span ++ c ∷ []) parts
unfolding builtin_loop
loop_more c s span parts h = rw h refl

read_loop_end :
    (span : Text) (parts : List Text) (w : Text)
    → any is_span_end span ≡ false
    → Says parts w
    → builtin_read outside [] (flatten (builtin_loop [] span parts)) ≡ some (w ++ span)
read_loop_end (c ∷ span) parts w h says =
    rw loop_end (read_end _ _ (span_said (c ∷ span) parts w h says))
read_loop_end [] [] w h says = rw loop_end (
    read_end (span_part [] ∷ []) (w ++ [])
      (part_said [] (span_part []) w (w ++ []) says (λ rest. read-span_part [] w rest refl)))
read_loop_end [] (p ∷ parts) w h says = rw (loop_end, append-nil w) (read_end (p ∷ parts) w says)

any-append :
    (p : ℕ → Bool) (s t : Text) → any p s ≡ false → any p t ≡ false → any p (s ++ t) ≡ false
any-append p [] t h k = k
any-append p (c ∷ s) t h k = ground (arith, any-append p s t)

read-builtin_loop :
    (s span : Text) (parts : List Text) (w : Text)
    → any is_span_end span ≡ false
    → any (λ c. c == b'\n' || c == b'\r') s ≡ false
    → Says parts w
    → builtin_read outside [] (flatten (builtin_loop s span parts)) ≡ some (w ++ span ++ s)
read-builtin_loop [] span parts w h k says =
    read_loop_end span parts w h says ∙ ap some (sym (append-nil (w ++ span)))
read-builtin_loop (c ∷ s) span parts w h k says =
    elim (Bool-cases (c == percent || c == quotation)) [
      | inl e ↦ rw (loop_cut c s span parts e) (
          read-builtin_loop s [] _ (w ++ span ++ c ∷ []) refl (ground arith) (
            part_said _ (caret ∷ c ∷ []) (w ++ span) (w ++ span ++ c ∷ [])
              (span_said span parts w h says)
              (λ rest. read_escaped c (w ++ span) rest (ground arith)))
          ∙ ap some (rw (append-nil (w ++ span ++ c ∷ [])) (append_assoc (w ++ span) (c ∷ []) s)))
      | inr e ↦ rw (loop_more c s span parts e) (
          read-builtin_loop s (span ++ c ∷ []) parts w
            (any-append is_span_end span (c ∷ []) h (ground arith)) (ground arith) says
          ∙ ap some (
              ap (λ r. r ++ s) (sym (append_assoc w span (c ∷ [])))
              ∙ append_assoc (w ++ span) (c ∷ []) s))
    ]

abbrev is_builtin_safe : (ℕ → Bool) → ℕ → Bool
is_builtin_safe unicode_alnum c =
    is_ascii_alnum c || (leb 128 c && unicode_alnum c) || among c (codes "._-:\\/")

safe-plain :
    (unicode_alnum : ℕ → Bool) (c : ℕ)
    → is_builtin_safe unicode_alnum c ≡ true
    → is_operand_special c ≡ false
unfolding is_operand_special
safe-plain unicode_alnum c h = ground arith

read_safe :
    (unicode_alnum : ℕ → Bool) (s out : Text)
    → all (is_builtin_safe unicode_alnum) s ≡ true
    → builtin_read outside out s ≡ some (out ++ s)
read_safe unicode_alnum [] out h = unfold builtin_read in ap some (sym (append-nil out))
read_safe unicode_alnum (c ∷ s) out h =
    read_plain c out s (safe-plain unicode_alnum c (ground arith))
    ∙ read_safe unicode_alnum s (out ++ c ∷ []) (ground arith)
    ∙ ap some (append_assoc out (c ∷ []) s)

-- A builtin of cmd reads what `_builtin_argument` writes as one operand, and that is the text, if
-- the text has no line end.
pub read-builtin_argument :
    (unicode_alnum : ℕ → Bool) (text : Text)
    → any (λ c. c == b'\n' || c == b'\r') text ≡ false
    → builtin_read outside [] (builtin_argument unicode_alnum text) ≡ some text
unfolding builtin_argument
read-builtin_argument unicode_alnum text h =
    elim (Bool-cases (not (null text) && all (is_builtin_safe unicode_alnum) text)) [
      | inl e ↦ rw e (read_safe unicode_alnum text [] (ground arith))
      | inr e ↦ rw e (read-builtin_loop text [] [] [] refl h nothing_said)
    ]
