-- ===== src/Shell/Cmd/Lines.antt =====
-- `CmdShellFlavour.script` and `command` of shell/_cmd.py.
use hostctl.Prelude.{
  ℕ, Bool, true, false, ◌≡◌, refl, ap, subst, Option, some, List, [], ◌∷◌, ◌++◌, ◌==◌, ◌||◌, any,
  Result, ok, err, ◌>>=◌, codes, or_value_error, Bool-cases, Option-cases, WhenOk, WhenOk-then,
  WhenOk-if, inl, inr,
}
use hostctl.Shell.Text.{Text, text_value, space, same_text}
use hostctl.Shell.Cmd.{
  echo_argument, builtin_argument, environment_assignment, escape_for_one_parse,
}
use hostctl.Shell.Cmd.Caret.{caret_parse}
use hostctl.Shell.Cmd.Assignment.{parse-escape_for_one_parse}
use hostctl.Shell.Cmd.Target.{ShellTarget, native, shell}
use hostctl.Shell.Cmd.Command.{
  echo_arguments, cmd_argument, program_line, program_target, builtins, cmd_structured,
  cmd_change_directory, paren_group, cmd_operator, cmd_flavour, cmd_command,
}
use hostctl.Shell.Cmd.Visible.{replace_each-IsClean, builtin_argument-IsClean, argument_for-IsClean}
use hostctl.Provider.Failover.{is_environment_name}
use hostctl.Shell.Script.{
  ShellOperator, ShellToken, Element, word, parameter, is_parameter, spaced_arguments, pipe,
  and_then, or_else, redirecting_to, appending_to, sequence,
}
use hostctl.Shell.Script.Flavours.{
  posix_operator, plain_redirect, posix_flavour, zsh_flavour, fish_flavour,
}
use hostctl.Shell.Script.Context.{script}
use hostctl.Shell.Script.Clean.{IsClean, clean_both, CleanFlavour, text_value-IsClean}
use hostctl.Shell.Script.Visible.{script-IsClean}
use hostctl.Shell.Script.ShVisible.{sh_scripts-IsClean, key-IsClean, spaced_arguments-IsClean}

echo_argument-IsClean : (s : Text) → IsClean s → IsClean (echo_argument s)
unfolding echo_argument
echo_argument-IsClean s h = replace_each-IsClean (codes "^&|<>()\"%!") s refl h

value-IsClean : (s t : Text) → text_value s ≡ some t → IsClean t
value-IsClean s t e = subst (λ o. WhenOk IsClean (or_value_error o)) e (text_value-IsClean s)

echo_arguments-IsClean : (values : List Element) → WhenOk IsClean (echo_arguments values)
unfolding echo_arguments
echo_arguments-IsClean [] = refl
echo_arguments-IsClean (parameter s ∷ values) = tt
echo_arguments-IsClean (word s ∷ []) =
    WhenOk-then IsClean IsClean _ (λ t ht. echo_argument-IsClean t ht)
      (or_value_error (text_value s)) (text_value-IsClean s)
echo_arguments-IsClean (word s ∷ v ∷ values) =
    WhenOk-then IsClean IsClean _
      (λ t ht.
        WhenOk-then IsClean IsClean _
          (λ rest hr. clean_both (echo_argument t) (space ∷ rest) (echo_argument-IsClean t ht) hr)
          (echo_arguments (v ∷ values)) (echo_arguments-IsClean (v ∷ values)))
      (or_value_error (text_value s)) (text_value-IsClean s)

cmd_operator-IsClean : (op : ShellOperator) → IsClean (cmd_operator op)
unfolding cmd_operator posix_operator
cmd_operator-IsClean pipe = refl
cmd_operator-IsClean and_then = refl
cmd_operator-IsClean or_else = refl
cmd_operator-IsClean redirecting_to = refl
cmd_operator-IsClean appending_to = refl
cmd_operator-IsClean sequence = refl

assignment-IsClean :
    (key value : Text)
    → is_environment_name key ≡ true
    → WhenOk IsClean (or_value_error (environment_assignment key value))
unfolding environment_assignment
assignment-IsClean key value h = elim (Option-cases (text_value value)) [
  | inl e ↦ rw (e, environment_assignment) tt
  | inr (t, e) ↦
      rw (e, environment_assignment)
        (clean_both (codes "set " ++ key) (b'=' ∷ echo_argument t)
          (clean_both (codes "set ") key refl (key-IsClean key h))
          (echo_argument-IsClean t (value-IsClean value t e)))
]

then_escaped :
    (r q : Result Text) (g : Text → Text → Text) (e : Text → Text) (line : Text)
    → (r >>= λ b. q >>= λ s. ok (g b s)) ≡ ok line
    → (r >>= λ b. q >>= λ s. ok (e (g b s))) ≡ ok (e line)
then_escaped (ok b) (ok s) g e line h = ap (λ x. x >>= λ t. ok (e t)) h
then_escaped (ok b) (err x) g e line h = cc
then_escaped (err x) q g e line h = cc

module _ (alnum : ℕ → Bool) (fold : Text → Text) where
  cmd_argument-IsClean :
      (target : ShellTarget) (s : Text) → WhenOk IsClean (cmd_argument alnum fold target s)
  unfolding cmd_argument
  cmd_argument-IsClean target s = argument_for-IsClean alnum target s

  spaced-IsClean :
      (target : ShellTarget) (values : List Element)
      → WhenOk IsClean (spaced_arguments (cmd_argument alnum fold target) values)
  spaced-IsClean = spaced_arguments-IsClean (cmd_argument alnum fold) cmd_argument-IsClean

  ordinary-IsClean :
      (target : ShellTarget) (name : Text) (values : List Element)
      → WhenOk IsClean (
          cmd_argument alnum fold shell name >>= λ head.
          spaced_arguments (cmd_argument alnum fold target) values >>= λ rest. ok (head ++ rest))
  ordinary-IsClean target name values =
      WhenOk-then IsClean IsClean _
        (λ head hh.
          WhenOk-then IsClean IsClean _ (λ rest hr. clean_both head rest hh hr)
            (spaced_arguments (cmd_argument alnum fold target) values)
            (spaced-IsClean target values))
        (cmd_argument alnum fold shell name) (cmd_argument-IsClean shell name)

  program_line-IsClean :
      (name : Text) (values : List Element) → WhenOk IsClean (program_line alnum fold name values)
  unfolding program_line
  program_line-IsClean name values =
      WhenOk-if IsClean (same_text (fold name) (codes "echo")) _ _
        (WhenOk-then IsClean IsClean _ (λ rest hr. clean_both (codes "echo(") rest refl hr)
          (echo_arguments values) (echo_arguments-IsClean values))
        (WhenOk-if IsClean (same_text (fold name) (codes "call")) _ _ tt (
          WhenOk-if IsClean (same_text (fold name) (codes "start")) _ _
            (WhenOk-then IsClean IsClean _ (λ rest hr. clean_both (codes "start \"\"") rest refl hr)
              (spaced_arguments (cmd_argument alnum fold native) values)
              (spaced-IsClean native values))
            (ordinary-IsClean (program_target fold builtins name) name values)))

  cmd_structured-IsClean :
      (values : List Element) → WhenOk IsClean (cmd_structured alnum fold values)
  unfolding cmd_structured
  cmd_structured-IsClean [] = refl
  cmd_structured-IsClean (parameter s ∷ values) = tt
  cmd_structured-IsClean (word s ∷ values) = elim (Bool-cases (any is_parameter values)) [
    | inl e ↦ rw e tt
    | inr e ↦ rw e (
        WhenOk-then IsClean IsClean _ (λ name hn. program_line-IsClean name values)
          (or_value_error (text_value s)) (text_value-IsClean s))
  ]

  directory-IsClean : (cwd : Text) → WhenOk IsClean (cmd_change_directory alnum fold cwd)
  unfolding cmd_change_directory
  directory-IsClean cwd =
      WhenOk-then IsClean IsClean _
        (λ t ht.
          clean_both (codes "cd /d ") (builtin_argument alnum t) refl
            (builtin_argument-IsClean alnum t ht))
        (or_value_error (text_value cwd)) (text_value-IsClean cwd)

  cmd_flavour-IsClean : CleanFlavour (cmd_flavour alnum fold)
  unfolding cmd_flavour plain_redirect paren_group
  cmd_flavour-IsClean = record {
    separator = refl;
    terminator = refl;
    epilogue = refl;
    argument = cmd_argument-IsClean;
    structured = cmd_structured-IsClean;
    cmdlet_command = tt;
    operator = cmd_operator-IsClean;
    redirect = λ op c s hs. clean_both (cmd_operator op) s (cmd_operator-IsClean op) hs;
    assignment = assignment-IsClean;
    directory = directory-IsClean;
    group = λ s h. clean_both (codes "(" ++ s) (codes ")") h refl;
  }

  -- Whatever the commands, the directory, the environment and the case folding are, the scripts of sh and
  -- bash, of zsh, of fish and of cmd hold no control character but tab, newline and carriage return.
  pub scripts-IsClean :
      (cmds : List ShellToken) (cwd : Option Text) (env : List (Text × Text)) (epilogue : Bool)
      → WhenOk IsClean (script posix_flavour cmds cwd env epilogue)
        × WhenOk IsClean (script zsh_flavour cmds cwd env epilogue)
        × WhenOk IsClean (script fish_flavour cmds cwd env epilogue)
        × WhenOk IsClean (script (cmd_flavour alnum fold) cmds cwd env epilogue)
  scripts-IsClean cmds cwd env epilogue =
      let (posix, zsh, fish) = sh_scripts-IsClean cmds cwd env epilogue in
      (
        posix,
        zsh,
        fish,
        script-IsClean (cmd_flavour alnum fold) cmd_flavour-IsClean cmds cwd env epilogue,
      )

  -- If `command` gives a line of one line of text for a caller that no shell parses, it gives one for a
  -- cmd login shell too, and one parse by that shell makes it the first line.
  pub cmd_command-login :
      (cmds : List ShellToken) (executable cwd : Option Text) (env : List (Text × Text))
      (line : Text)
      → cmd_command alnum fold cmds executable cwd env false ≡ ok line
      → any (λ c. c == b'\n' || c == b'\r') line ≡ false
      → (outer : Text) × (cmd_command alnum fold cmds executable cwd env true ≡ ok outer)
        × (caret_parse false outer ≡ some line)
  unfolding cmd_command
  cmd_command-login cmds executable cwd env line h one = (
    escape_for_one_parse line,
    then_escaped _ _ _ escape_for_one_parse line h,
    parse-escape_for_one_parse line one,
  )
