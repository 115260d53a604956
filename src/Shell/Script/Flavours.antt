-- ===== src/Shell/Script/Flavours.antt =====
-- shell/_posix.py and shell/_fish.py: `PosixShellFlavour`, `ZshShellFlavour` and `FishShellFlavour`
-- as values of `ShellFlavour`, and their `command`.
use hostctl.Prelude.{
  true, Option, none, some, List, [], ◌∷◌, ◌++◌, ◌==◌, ◌&&◌, ◌||◌, not, if◌then◌else◌, null,
  filter_by, codes, Result, ok, err, type_error, ◌>>=◌, or_value_error,
}
use hostctl.Shell.Text.{Text, among}
use hostctl.Shell.Quote.{posix_quote, zsh_quote, fish_quote}
use hostctl.Shell.Login.{login_join}
use hostctl.Shell.Cmd.Target.{native}
use hostctl.Container.Archive.{slash, split, is_dot, is_dot_dot}
use hostctl.Shell.Script.{
  ShellFlavour, ShellOperator, ShellToken, pipe, and_then, or_else, redirecting_to, appending_to,
  sequence, env_part, cwd_part, command_part, by_operator, structured_command_by,
}
use hostctl.Shell.Script.Context.{script}

-- The root that `PurePosixPath` reads: two slashes stay two, three or more are one.
unfoldable pub root_of : Text → Text
root_of [] = []
root_of (c ∷ []) = if c == slash then slash ∷ [] else []
root_of (c ∷ d ∷ []) =
    if c == slash then if d == slash then slash ∷ slash ∷ [] else slash ∷ [] else []
root_of (c ∷ d ∷ e ∷ s) =
    if c == slash
    then if d == slash && not (e == slash) then slash ∷ slash ∷ [] else slash ∷ []
    else []

-- The components that it keeps.
unfoldable pub components : Text → List Text
components cwd = filter_by (λ part. not (null part || is_dot part)) (split cwd)

-- `"/".join(parts)`
unfoldable pub slash_joined : List Text → Text
slash_joined [] = []
slash_joined (p ∷ []) = p
slash_joined (p ∷ q ∷ parts) = p ++ slash ∷ slash_joined (q ∷ parts)

-- `as_posix()` of a path with these parts.
unfoldable pub path_text : Text → List Text → Text
unfolding slash_joined
path_text root parts =
    let text = root ++ slash_joined parts in if null text then codes "." else text

-- `posix_cwd_operand`, with the root and the components.
unfoldable pub operand_of : Text → List Text → Text
unfolding path_text
operand_of [] [] = path_text [] []
operand_of [] (p ∷ parts) =
    let text = path_text [] (p ∷ parts) in
    if is_dot p || is_dot_dot p then text else codes "./" ++ text
operand_of (c ∷ root) parts = path_text (c ∷ root) parts

-- `posix_cwd_operand` of shell/_vocabulary.py
unfoldable pub posix_cwd_operand : Text → Text
unfolding root_of components operand_of
posix_cwd_operand cwd = operand_of (root_of cwd) (components cwd)

-- `PosixShellFlavour.operator`
unfoldable pub posix_operator : ShellOperator → Text
posix_operator pipe = codes "|"
posix_operator and_then = codes "&&"
posix_operator or_else = codes "||"
posix_operator redirecting_to = codes " > "
posix_operator appending_to = codes " >> "
posix_operator sequence = codes ";"

-- `FishShellFlavour.operator`
unfoldable pub fish_operator : ShellOperator → Text
fish_operator pipe = codes "|"
fish_operator and_then = codes "; and "
fish_operator or_else = codes "; or "
fish_operator redirecting_to = codes " > "
fish_operator appending_to = codes " >> "
fish_operator sequence = codes ";"

-- `PosixShellFlavour.environment_assignment`
unfoldable pub posix_assignment : (Text → Result Text) → Text → Text → Result Text
posix_assignment quote key value = do
  quoted ← quote value
  ok (codes "export " ++ (key ++ b'=' ∷ quoted))

-- `FishShellFlavour.environment_assignment`
unfoldable pub fish_assignment : Text → Text → Result Text
unfolding fish_quote
fish_assignment key value = do
  quoted ← or_value_error (fish_quote value)
  ok (codes "set -gx " ++ (key ++ b' ' ∷ quoted))

-- `change_directory` of both.
unfoldable pub cd_command : (Text → Result Text) → Text → Result Text
unfolding posix_cwd_operand
cd_command quote cwd = do quoted ← quote (posix_cwd_operand cwd); ok (codes "cd -- " ++ quoted)

-- `ShellFlavour.group`
unfoldable pub brace_group : Text → Text
brace_group command =
    codes "{ " ++ (command ++ (if among 10 command then 10 ∷ codes "}" else codes "; }"))

-- `FishShellFlavour.group`
unfoldable pub fish_group : Text → Text
fish_group command =
    codes "begin; " ++ (command ++ (if among 10 command then 10 ∷ codes "end" else codes "; end"))

-- `redirect` of `ShellFlavour`
unfoldable pub plain_redirect : (ShellOperator → Text) → ShellOperator → Text → Result Text
plain_redirect operator op operand = ok (operator op ++ operand)

-- `PosixShellFlavour`, with the `quote` of one of its subclasses.
unfoldable pub sh_flavour : (Text → Result Text) → ShellFlavour
unfolding posix_operator posix_assignment cd_command brace_group structured_command_by
    plain_redirect
sh_flavour quote = record {
  command_separator = codes ";";
  line_terminator = 10 ∷ [];
  multiline_source = true;
  execution_epilogue = [];
  context_order = env_part ∷ cwd_part ∷ command_part ∷ [];
  cwd_guard = by_operator;
  argument = λ target s. quote s;
  structured_command = structured_command_by (λ target s. quote s) native;
  cmdlet_command = err type_error;
  operator = λ op. ok (posix_operator op);
  redirect = λ op target operand. plain_redirect posix_operator op operand;
  environment_assignment = posix_assignment quote;
  change_directory = cd_command quote;
  group = brace_group;
}

unfoldable pub posix_flavour : ShellFlavour
unfolding sh_flavour posix_quote
posix_flavour = sh_flavour (λ s. or_value_error (posix_quote s))

unfoldable pub zsh_flavour : ShellFlavour
unfolding sh_flavour zsh_quote
zsh_flavour = sh_flavour (λ s. or_value_error (zsh_quote s))

unfoldable pub fish_flavour : ShellFlavour
unfolding fish_operator fish_assignment cd_command fish_group structured_command_by plain_redirect
fish_flavour =
    let quote = λ (s : Text). or_value_error (fish_quote s) in
    record {
      command_separator = codes ";";
      line_terminator = 10 ∷ [];
      multiline_source = true;
      execution_epilogue = [];
      context_order = env_part ∷ cwd_part ∷ command_part ∷ [];
      cwd_guard = by_operator;
      argument = λ target s. quote s;
      structured_command = structured_command_by (λ target s. quote s) native;
      cmdlet_command = err type_error;
      operator = λ op. ok (fish_operator op);
      redirect = λ op target operand. plain_redirect fish_operator op operand;
      environment_assignment = fish_assignment;
      change_directory = cd_command quote;
      group = fish_group;
    }

-- `invocation` of both; an empty `executable` counts as none.
unfoldable pub invocation : Text → Option Text → Text → List Text
invocation default_executable none script = default_executable ∷ codes "-c" ∷ script ∷ []
invocation default_executable (some executable) script =
    (if null executable then default_executable else executable) ∷ codes "-c" ∷ script ∷ []

-- `command` of both.
unfoldable pub command :
    ShellFlavour
    → Text
    → List ShellToken
    → Option Text
    → Option Text
    → List (Text × Text)
    → Result Text
unfolding script invocation login_join
command f default_executable cmds executable cwd env = do
  body ← script f cmds cwd env true
  ok (login_join (invocation default_executable executable body))
