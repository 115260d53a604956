-- ===== src/Shell/Cmd/Command.antt =====
-- shell/_cmd.py and `program_target` of shell/_vocabulary.py: `CmdShellFlavour` as a value of
-- `ShellFlavour`, and its `command`. `str.casefold` is an argument.
use hostctl.Prelude.{
  ℕ, Bool, true, false, Option, none, some, List, [], ◌∷◌, ◌++◌, ◌||◌, if◌then◌else◌, any, null,
  codes, length, ◌-◌, drop, leb, ◌&&◌, Result, ok, err, type_error, value_error, ◌>>=◌,
  or_value_error,
}
use hostctl.Shell.Text.{Text, space, same_text, text_value}
use hostctl.Shell.Cmd.{
  echo_argument, builtin_argument, escape_for_one_parse, environment_assignment,
}
use hostctl.Shell.Cmd.Target.{
  ShellTarget, native, shell, batch, unresolved, argument_for, program as program_slot,
}
use hostctl.Shell.Script.{
  ShellFlavour, ShellOperator, ShellToken, Element, parameter, word, is_parameter, env_part,
  cwd_part, command_part, by_operator, sequence, spaced_arguments,
}
use hostctl.Shell.Script.Flavours.{posix_operator, plain_redirect}
use hostctl.Shell.Script.Context.{script}

-- `s.endswith(suffix)`
unfoldable pub ends_with : Text → Text → Bool
ends_with suffix s =
    leb (length suffix) (length s) && same_text (drop (length s - length suffix) s) suffix

-- `program_target`
unfoldable pub program_target : (Text → Text) → List Text → Text → ShellTarget
unfolding ends_with
program_target casefold builtins name =
    let folded = casefold name in
    if any (same_text folded) builtins
    then shell
    else if ends_with (codes ".exe") folded || ends_with (codes ".com") folded
    then native
    else if ends_with (codes ".bat") folded || ends_with (codes ".cmd") folded
    then batch
    else unresolved

-- `CmdShellFlavour.builtins`
unfoldable pub builtins : List Text
builtins =
    codes "assoc"
    ∷ codes "break"
    ∷ codes "cd"
    ∷ codes "chdir"
    ∷ codes "cls"
    ∷ codes "color"
    ∷ codes "copy"
    ∷ codes "date"
    ∷ codes "del"
    ∷ codes "dir"
    ∷ codes "echo"
    ∷ codes "endlocal"
    ∷ codes "erase"
    ∷ codes "exit"
    ∷ codes "md"
    ∷ codes "mkdir"
    ∷ codes "mklink"
    ∷ codes "move"
    ∷ codes "path"
    ∷ codes "pause"
    ∷ codes "popd"
    ∷ codes "prompt"
    ∷ codes "pushd"
    ∷ codes "rd"
    ∷ codes "ren"
    ∷ codes "rename"
    ∷ codes "rmdir"
    ∷ codes "set"
    ∷ codes "setlocal"
    ∷ codes "shift"
    ∷ codes "time"
    ∷ codes "title"
    ∷ codes "type"
    ∷ codes "ver"
    ∷ codes "verify"
    ∷ codes "vol"
    ∷ []

-- `" ".join(_echo_argument(self._text(value)) for value in values)`
unfoldable pub echo_arguments : List Element → Result Text
unfolding echo_argument text_value
echo_arguments [] = ok []
echo_arguments (parameter s ∷ values) = err type_error
echo_arguments (word s ∷ []) = or_value_error (text_value s) >>= λ text. ok (echo_argument text)
echo_arguments (word s ∷ v ∷ values) = do
  text ← or_value_error (text_value s)
  rest ← echo_arguments (v ∷ values)
  ok (echo_argument text ++ (space ∷ rest))

-- `CmdShellFlavour.group`
unfoldable pub paren_group : Text → Text
paren_group command = codes "(" ++ (command ++ codes ")")

-- `CmdShellFlavour.operator`
unfoldable pub cmd_operator : ShellOperator → Text
unfolding posix_operator
cmd_operator sequence = codes "&"
cmd_operator op = posix_operator op

-- `executable or self.default_executable`
unfoldable pub executable_or_default : Option Text → Text
executable_or_default none = codes "cmd.exe"
executable_or_default (some executable) = if null executable then codes "cmd.exe" else executable

module _ (unicode_alnum : ℕ → Bool) (casefold : Text → Text) where
  -- `CmdShellFlavour.argument`
  unfoldable pub cmd_argument : ShellTarget → Text → Result Text
  unfolding argument_for
  cmd_argument target s = or_value_error (argument_for unicode_alnum target s)

  -- The branches of `structured_command`, once the first value is text.
  unfoldable pub program_line : Text → List Element → Result Text
  unfolding echo_arguments cmd_argument program_target builtins spaced_arguments
  program_line name values =
      let folded = casefold name in
      if same_text folded (codes "echo")
      then (echo_arguments values >>= λ rest. ok (codes "echo(" ++ rest))
      else if same_text folded (codes "call")
      then err value_error
      else if same_text folded (codes "start")
      then (spaced_arguments (cmd_argument native) values >>= λ rest.
          ok (codes "start \"\"" ++ rest))
      else cmd_argument shell name >>= λ head.
          spaced_arguments (cmd_argument (program_target casefold builtins name)) values >>= λ rest.
          ok (head ++ rest)

  -- `CmdShellFlavour.structured_command`
  unfoldable pub cmd_structured : List Element → Result Text
  unfolding is_parameter program_line text_value
  cmd_structured [] = ok []
  cmd_structured (parameter s ∷ values) = err type_error
  cmd_structured (word s ∷ values) =
      if any is_parameter values
      then err type_error
      else or_value_error (text_value s) >>= λ name. program_line name values

  -- `CmdShellFlavour.change_directory`
  unfoldable pub cmd_change_directory : Text → Result Text
  unfolding text_value builtin_argument
  cmd_change_directory cwd = do
    text ← or_value_error (text_value cwd)
    ok (codes "cd /d " ++ builtin_argument unicode_alnum text)

  -- `CmdShellFlavour`
  unfoldable pub cmd_flavour : ShellFlavour
  unfolding cmd_argument cmd_structured cmd_operator cmd_change_directory paren_group plain_redirect
      environment_assignment
  cmd_flavour = record {
    command_separator = codes "&";
    line_terminator = 10 ∷ [];
    multiline_source = false;
    execution_epilogue = [];
    context_order = env_part ∷ cwd_part ∷ command_part ∷ [];
    cwd_guard = by_operator;
    argument = cmd_argument;
    structured_command = cmd_structured;
    cmdlet_command = err type_error;
    operator = λ op. ok (cmd_operator op);
    redirect = λ op target operand. plain_redirect cmd_operator op operand;
    environment_assignment = λ key value. or_value_error (environment_assignment key value);
    change_directory = cmd_change_directory;
    group = paren_group;
  }

  -- `CmdShellFlavour.command`; `is_cmd_login` is `login_shell == "cmd"`.
  unfoldable pub cmd_command :
      List ShellToken → Option Text → Option Text → List (Text × Text) → Bool → Result Text
  unfolding script cmd_flavour executable_or_default cmd_argument escape_for_one_parse
  cmd_command cmds executable cwd env is_cmd_login = do
    body ← script cmd_flavour cmds cwd env true
    slot ← cmd_argument program_slot (executable_or_default executable)
    let line = slot ++ (codes " /d /v:off /s /c \"" ++ (body ++ codes "\""))
    ok (if is_cmd_login then escape_for_one_parse line else line)
