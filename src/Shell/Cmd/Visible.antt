-- ===== src/Shell/Cmd/Visible.antt =====
-- The quoting rules of shell/_cmd.py: they add no hidden control characters.
use hostctl.Prelude.{
  ℕ, suc, zero, Bool, true, false, ◌≡◌, refl, subst, List, [], ◌∷◌, ◌++◌, arith, ◌==◌, ◌&&◌, ◌||◌,
  not, if◌then◌else◌, any, all, null, codes, ◌+◌, ◌*◌, or_value_error, Bool-cases, Option-cases,
  WhenOk, inl, inr, All, All-append,
}
use hostctl.Shell.Text.{Text, among, text_value, quotation, backslash}
use hostctl.Shell.Cmd.{
  is_space, percent, caret, replace_each, slashes, escape_loop, argument, span_part, builtin_loop,
  builtin_argument, batch_loop, batch_percent, batch_token, program,
}
use hostctl.Shell.Cmd.Target.{
  ShellTarget, native, shell, batch, unresolved, argument_rule, argument_for,
  program as program_slot,
}
use hostctl.Shell.Script.Clean.{is_hidden, IsClean, clean_both, text_value-IsClean, flatten-IsClean}
use hostctl.Shell.Script.ShVisible.{replace-IsClean, if-IsClean}

pub replace_each-IsClean :
    (cs : List ℕ) (s : Text) → any is_hidden cs ≡ false → IsClean s → IsClean (replace_each cs s)
unfolding replace_each
replace_each-IsClean [] s h hs = hs
replace_each-IsClean (c ∷ cs) s h hs =
    replace_each-IsClean cs _ (ground arith)
      (replace-IsClean c (caret ∷ c ∷ []) s (ground arith) hs)

slashes-IsClean : (n : ℕ) → IsClean (slashes n)
unfolding slashes
slashes-IsClean zero = refl
slashes-IsClean (suc n) = slashes-IsClean n

escape_loop-IsClean : (s : Text) (n : ℕ) → IsClean s → IsClean (escape_loop s n)
unfolding escape_loop
escape_loop-IsClean [] n h = slashes-IsClean (n * 2)
escape_loop-IsClean (c ∷ s) n h =
    let more : IsClean (escape_loop s (n + 1)) = escape_loop-IsClean s (n + 1) (ground arith) in
    let rest : IsClean (escape_loop s 0) = escape_loop-IsClean s 0 (ground arith) in
    if-IsClean (c == backslash) _ _ more (
      if-IsClean (c == quotation) _ _
        (clean_both (slashes (n * 2 + 1)) (caret ∷ quotation ∷ escape_loop s 0)
          (slashes-IsClean (n * 2 + 1)) rest)
        (clean_both (slashes n) (c ∷ escape_loop s 0) (slashes-IsClean n) (ground arith)))

argument-IsClean : (s : Text) → IsClean s → IsClean (argument s)
unfolding argument
argument-IsClean s h =
    let escaped : Text = replace_each (codes "^%!&|<>()") s in
    if-IsClean (not (null s) && not (any (λ c. is_space c || among c (codes "&|<>()@^\"%!")) s)) _ _
      h
      (clean_both (caret ∷ quotation ∷ escape_loop escaped 0) (caret ∷ quotation ∷ [])
        (escape_loop-IsClean escaped 0 (replace_each-IsClean (codes "^%!&|<>()") s refl h)) refl)

if-All :
    (b : Bool) (xs ys : List Text)
    → All IsClean xs
    → All IsClean ys
    → All IsClean (if b then xs else ys)
if-All true xs ys hx hy = hx
if-All false xs ys hx hy = hy

part_added :
    (span : Text) (parts : List Text)
    → IsClean span
    → All IsClean parts
    → All IsClean (parts ++ span_part span ∷ [])
unfolding span_part
part_added span parts hs hp =
    All-append IsClean parts (span_part span ∷ []) hp
      (clean_both (quotation ∷ span) (quotation ∷ []) hs refl, tt)

builtin_loop-IsClean :
    (s span : Text) (parts : List Text)
    → IsClean s
    → IsClean span
    → All IsClean parts
    → All IsClean (builtin_loop s span parts)
unfolding builtin_loop span_part
builtin_loop-IsClean [] span parts h hs hp =
    if-All (not (null span) || null parts) _ parts (part_added span parts hs hp) hp
builtin_loop-IsClean (c ∷ s) span parts h hs hp =
    let closed : List Text = if null span then parts else parts ++ span_part span ∷ [] in
    let closed_clean : All IsClean closed =
      if-All (null span) parts _ hp (part_added span parts hs hp) in
    if-All (c == percent || c == quotation) _ _
      (builtin_loop-IsClean s [] (closed ++ (caret ∷ c ∷ []) ∷ []) (ground arith) refl
        (All-append IsClean closed ((caret ∷ c ∷ []) ∷ []) closed_clean (ground arith, tt)))
      (builtin_loop-IsClean s (span ++ c ∷ []) parts (ground arith)
        (clean_both span (c ∷ []) hs (ground arith)) hp)

batch_loop-IsClean : (s : Text) (n : ℕ) → IsClean s → IsClean (batch_loop s n)
unfolding batch_loop
batch_loop-IsClean [] n h = slashes-IsClean (n * 2)
batch_loop-IsClean (c ∷ s) n h =
    let more : IsClean (batch_loop s (n + 1)) = batch_loop-IsClean s (n + 1) (ground arith) in
    let rest : IsClean (batch_loop s 0) = batch_loop-IsClean s 0 (ground arith) in
    if-IsClean (c == backslash) _ _ more (
      if-IsClean (c == quotation) _ _
        (clean_both (slashes (n * 2)) (quotation ∷ quotation ∷ batch_loop s 0)
          (slashes-IsClean (n * 2)) rest)
        (if-IsClean (c == percent) _ _
          (clean_both (slashes n) (batch_percent ++ batch_loop s 0) (slashes-IsClean n) rest)
          (clean_both (slashes n) (c ∷ batch_loop s 0) (slashes-IsClean n) (ground arith))))

pub builtin_argument-IsClean :
    (alnum : ℕ → Bool) (s : Text) → IsClean s → IsClean (builtin_argument alnum s)
unfolding builtin_argument
builtin_argument-IsClean alnum s h =
    if-IsClean (not (null s) && all _ s) _ _ h
      (flatten-IsClean _ (builtin_loop-IsClean s [] [] h refl tt))

argument_rule-IsClean :
    (alnum : ℕ → Bool) (target : ShellTarget) (s : Text)
    → IsClean s
    → WhenOk IsClean (or_value_error (argument_rule alnum target s))
unfolding argument_rule program batch_token
argument_rule-IsClean alnum native s h = argument-IsClean s h
argument_rule-IsClean alnum shell s h = builtin_argument-IsClean alnum s h
argument_rule-IsClean alnum batch s h =
    clean_both (quotation ∷ batch_loop s 0) (quotation ∷ []) (batch_loop-IsClean s 0 h) refl
argument_rule-IsClean alnum unresolved s h = elim (Bool-cases (among quotation s)) [
  | inl e ↦ rw e tt
  | inr e ↦ rw e (argument-IsClean s h)
]
argument_rule-IsClean alnum program_slot s h = elim (Bool-cases (among quotation s)) [
  | inl e ↦ rw e tt
  | inr e ↦ elim (Bool-cases (any is_space s)) [
    | inl e' ↦ rw (e, e') (clean_both (quotation ∷ s) (quotation ∷ []) h refl)
    | inr e' ↦ rw (e, e') h
  ]
]

pub argument_for-IsClean :
    (alnum : ℕ → Bool) (target : ShellTarget) (s : Text)
    → WhenOk IsClean (or_value_error (argument_for alnum target s))
unfolding argument_for
argument_for-IsClean alnum target s = elim (Option-cases (text_value s)) [
  | inl e ↦ rw (e, argument_for) tt
  | inr (t, e) ↦
      rw (e, argument_for)
        (argument_rule-IsClean alnum target t
          (subst (λ o. WhenOk IsClean (or_value_error o)) e (text_value-IsClean s)))
]
