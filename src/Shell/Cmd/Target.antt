-- ===== src/Shell/Cmd/Target.antt =====
-- `CmdShellFlavour.argument` of shell/_cmd.py: an argument is quoted for the parser that reads it. The
-- readers are the rules of these parsers, not code of the repository.
use hostctl.Prelude.{
  ℕ, Bool, false, ◌≡◌, refl, ap, Option, none, some, [], ◌∷◌, ◌++◌, arith, ltb, ◌==◌, ◌||◌, any,
  codes, null, if◌then◌else◌, Bool-cases, inl, inr, ◌⊎◌,
}
use hostctl.Shell.Text.{Text, quotation, among, text_value}
use hostctl.Shell.Cmd.{is_space, argument, builtin_argument, batch_token, program as program_rule}
use hostctl.Shell.Cmd.Caret.{prefix}
use hostctl.Shell.Cmd.Argument.{received, received-argument}
use hostctl.Shell.Cmd.Operand.{outside, builtin_read}
use hostctl.Shell.Cmd.Builtin.{read-builtin_argument}
use hostctl.Shell.Cmd.Batch.{batch_received, batch_received-batch_token}
use hostctl.Shell.Cmd.Assignment.{one_line}

-- `ShellTarget` of shell/_vocabulary.py
pub data ShellTarget : Type 0 where
  native : ShellTarget
  shell : ShellTarget
  batch : ShellTarget
  unresolved : ShellTarget
  program : ShellTarget

-- The rule for a target; `none` is a `ValueError`.
unfoldable pub argument_rule : (ℕ → Bool) → ShellTarget → Text → Option Text
argument_rule unicode_alnum native s = some (argument s)
argument_rule unicode_alnum shell s = some (builtin_argument unicode_alnum s)
argument_rule unicode_alnum batch s = some (batch_token s)
argument_rule unicode_alnum unresolved s = if among quotation s then none else some (argument s)
argument_rule unicode_alnum program s = program_rule s

-- `CmdShellFlavour.argument`
unfoldable pub argument_for : (ℕ → Bool) → ShellTarget → Text → Option Text
unfolding text_value argument_rule
argument_for unicode_alnum target value = elim (text_value value) [
  | none ↦ none
  | some s ↦ argument_rule unicode_alnum target s
]

-- A program's name in quotes, up to the one that closes it.
unfoldable pub quoted_name : Text → Option Text
quoted_name [] = none
quoted_name (c ∷ s) =
    let rest = quoted_name s in
    if c == quotation then if null s then some [] else none else prefix c rest

-- The program that `CreateProcess` takes from a text that is one token.
unfoldable pub program_read : Text → Option Text
unfolding quoted_name is_space
program_read [] = some []
program_read (c ∷ s) =
    if c == quotation then quoted_name s else if any is_space (c ∷ s) then none else some (c ∷ s)

-- What the parser of a target makes of one argument, with the variables that cmd has.
unfoldable pub read_by : (Text → Option Text) → ShellTarget → Text → Option Text
unfolding received builtin_read batch_received program_read
read_by value_of native line = received line
read_by value_of shell line = builtin_read outside [] line
read_by value_of batch line = batch_received value_of line
read_by value_of unresolved line = received line
read_by value_of program line = program_read line

quoted_name-whole :
    (s : Text) → among quotation s ≡ false → quoted_name (s ++ quotation ∷ []) ≡ some s
unfolding quoted_name
quoted_name-whole [] h = refl
quoted_name-whole (c ∷ s) h =
    let inner : (c == quotation) ≡ false = ground arith in
    rw inner (ap (prefix c) (quoted_name-whole s (ground arith)))

program_read-quoted :
    (s : Text) → among quotation s ≡ false → program_read (quotation ∷ s ++ quotation ∷ []) ≡ some s
unfolding program_read
program_read-quoted s h = quoted_name-whole s h

program_read-bare :
    (s : Text) → among quotation s ≡ false → any is_space s ≡ false → program_read s ≡ some s
unfolding program_read
program_read-bare [] h k = refl
program_read-bare (c ∷ s) h k =
    let inner : (c == quotation) ≡ false = ground arith in rw (inner, k) refl

program-some :
    (s line : Text)
    → program_rule s ≡ some line
    → (among quotation s ≡ false)
      × ((line ≡ quotation ∷ s ++ quotation ∷ []) ⊎ ((line ≡ s) × (any is_space s ≡ false)))
unfolding program_rule
program-some s line h = elim (Bool-cases (any is_space s)) [
  | inl e ↦ (ground arith, inl (ground arith))
  | inr e ↦ (ground arith, inr (ground arith, e))
]

program-read : (s line : Text) → program_rule s ≡ some line → program_read line ≡ some s
program-read s line h = elim (program-some s line h).1 [
  | inl e ↦ rw e (program_read-quoted s (program-some s line h).0)
  | inr (e, k) ↦ rw e (program_read-bare s (program-some s line h).0 k)
]

module _ (value_of : Text → Option Text) (here : Text) (unnamed : value_of [] ≡ none)
    (cd : value_of (codes "cd") ≡ some here) where
  read_by-argument_rule :
      (unicode_alnum : ℕ → Bool) (target : ShellTarget) (s line : Text)
      → any (λ c. ltb c 32 || c == 127) s ≡ false
      → argument_rule unicode_alnum target s ≡ some line
      → read_by value_of target line ≡ some s
  unfolding argument_rule read_by
  read_by-argument_rule unicode_alnum native s line clean h =
      let same : line ≡ argument s = cc in rw same (received-argument s clean)
  read_by-argument_rule unicode_alnum shell s line clean h =
      let same : line ≡ builtin_argument unicode_alnum s = cc in
      rw same (read-builtin_argument unicode_alnum s (one_line s clean))
  read_by-argument_rule unicode_alnum batch s line clean h =
      let same : line ≡ batch_token s = cc in
      rw same (batch_received-batch_token value_of here unnamed cd s (one_line s clean))
  read_by-argument_rule unicode_alnum unresolved s line clean h =
      let same : line ≡ argument s = ground arith in rw same (received-argument s clean)
  read_by-argument_rule unicode_alnum program s line clean h = program-read s line h

argument_for-some :
    (unicode_alnum : ℕ → Bool) (target : ShellTarget) (value line : Text)
    → argument_for unicode_alnum target value ≡ some line
    → (any (λ c. ltb c 32 || c == 127) value ≡ false)
      × (argument_rule unicode_alnum target value ≡ some line)
unfolding argument_for text_value
argument_for-some unicode_alnum target value line h = (ground arith, ground arith)

no_quote :
    (unicode_alnum : ℕ → Bool) (target : ShellTarget) (s line : Text)
    → target ≡ unresolved
    → argument_rule unicode_alnum target s ≡ some line
    → among quotation s ≡ false
unfolding argument_rule
no_quote unicode_alnum native s line t h = cc
no_quote unicode_alnum shell s line t h = cc
no_quote unicode_alnum batch s line t h = cc
no_quote unicode_alnum unresolved s line t h = ground arith
no_quote unicode_alnum program s line t h = cc

-- For each target, what `CmdShellFlavour.argument` gives is read back as the value by the parsers of that
-- target: the C runtime of a program; for an argument of a batch file cmd, which expands the percent
-- signs and then takes the text, in the command line and in the line of the batch file, as one word
-- that it does not act on, and after it the C runtime; cmd for a builtin; and `CreateProcess` for the
-- program itself. An argument for an unknown program has no quote in it. cmd has a variable `cd`, and
-- none with an empty name.
pub read_by-argument_for :
    (value_of : Text → Option Text) (here : Text) (unicode_alnum : ℕ → Bool) (target : ShellTarget)
    (value line : Text)
    → value_of [] ≡ none
    → value_of (codes "cd") ≡ some here
    → argument_for unicode_alnum target value ≡ some line
    → (read_by value_of target line ≡ some value)
      × (target ≡ unresolved → among quotation value ≡ false)
read_by-argument_for value_of here unicode_alnum target value line unnamed cd h =
    let (clean, rule) = argument_for-some unicode_alnum target value line h in
    (
      read_by-argument_rule value_of here unnamed cd unicode_alnum target value line clean rule,
      (λ t. no_quote unicode_alnum target value line t rule),
    )
