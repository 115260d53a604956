-- ===== src/Host/Dispatch.antt =====
-- `_run_with_provider` and `_render_dispatch` of system/_host.py, with shell/_invocation.py: how a call
-- becomes what a provider executes. `shell` is the flavour that the host was given or resolved.
pub mod Render
pub mod Rendered
pub mod Placement
pub mod Masking
mod Tests
use hostctl.Prelude.{
  String, Bool, true, false, Option, none, some, List, [], ◌∷◌, ◌&&◌, ◌||◌, not, if◌then◌else◌,
  null, map, contains, Result, ok, err, type_error, not_implemented, ◌>>=◌,
}
use hostctl.Shell.Text.{Text, same_text}
use hostctl.Shell.Script.{
  ShellFlavour, ShellToken, Command, Element, exec, structured, word, operator_token, command_token,
}
use hostctl.Shell.Script.Context.{script}

abbrev pub Environment : Type 0
Environment = List (Text × Text)

-- `ShellCommand`
pub record ShellCommand : Type 0 where
  pub command : Text
  pub environment : Option Environment
  pub stdin : Option Text

-- What a shell flavour has beside its scripts.
pub record Shell : Type 0 where
  pub flavour : ShellFlavour
  pub argv_invocation : Bool
  pub accepts_script_stdin : Bool
  pub quote : Text → Result Text
  pub command :
      List ShellToken
      → Option Text
      → Option Text
      → Option Environment
      → Option Text
      → Bool
      → Result ShellCommand
  pub invocation : Text → Option Text → Result (Text × List Text)

-- What the dispatch reads of an executor provider.
pub record Target : Type 0 where
  pub capabilities : List String
  pub shell_executable : Option Text
  pub login_shell : Option Text

-- The arguments of `run` that the dispatch reads.
pub record Call : Type 0 where
  pub cwd : Option Text
  pub env : Option Environment
  pub executable : Option Text
  pub input : Option Text
  pub has_stdin : Bool

-- The options that go to `execute`.
pub record Options : Type 0 where
  pub cwd : Option Text
  pub env : Option Environment
  pub input : Option Text
  pub has_stdin : Bool

-- `(command, args, options)`
pub record Dispatch : Type 0 where
  pub command : Text
  pub args : List Text
  pub options : Options

-- `_ShellContext`
pub record Context : Type 0 where
  pub cwd : Option Text
  pub env : Option Environment
  pub epilogue : Bool

module _ {A : Type 0} where
  unfoldable pub is_given : Option A → Bool
  is_given none = false
  is_given (some a) = true

  -- A value that a provider carries by itself, or that is left to the shell.
  unfoldable pub carried : Bool → Option A → Option A
  carried has value = if has then value else none

  unfoldable pub left_over : Bool → Option A → Option A
  left_over has value = if has then none else value

-- The environment that `script` gets; it takes `None` as no variables.
unfoldable pub variables : Option Environment → Environment
variables none = []
variables (some env) = env

-- `executable or default`
unfoldable pub or_default : Option Text → Option Text → Option Text
or_default none default = default
or_default (some s) default = if null s then default else some s

module _ (shell : Shell) where
  -- `render_command`
  unfoldable pub render_command :
      List ShellToken
      → Option Text
      → Option Text
      → Option Environment
      → Option Text
      → Bool
      → Result ShellCommand
  render_command cmds executable cwd env login_shell stdin_free =
      shell.command cmds executable cwd env login_shell (stdin_free && shell.accepts_script_stdin)

  -- `shell_invocation`; the text of a `CommandLine` is the command alone.
  unfoldable pub shell_invocation :
      List ShellToken → Context → Option Text → Option Text → Result (Text × List Text)
  unfolding render_command variables script
  shell_invocation cmds context executable login_shell =
      if not shell.argv_invocation
      then (render_command cmds executable context.cwd context.env login_shell false >>= λ rendered.
          ok (rendered.command, []))
      else script shell.flavour cmds context.cwd (variables context.env) context.epilogue
        >>= λ body. shell.invocation body executable

-- `isinstance(value, Exec)`
unfoldable pub is_exec : ShellToken → Bool
is_exec (operator_token op) = false
is_exec (command_token (exec program args)) = true
is_exec (command_token _) = false

unfoldable pub any_exec : List ShellToken → Bool
unfolding is_exec
any_exec [] = false
any_exec (t ∷ ts) = is_exec t || any_exec ts

-- `starts_direct_command`
unfoldable pub starts_direct_command : List ShellToken → Result (Option (Text × List Text))
unfolding any_exec
starts_direct_command [] = ok none
starts_direct_command (command_token (exec program args) ∷ []) = ok (some (program, args))
starts_direct_command (t ∷ ts) = if any_exec (t ∷ ts) then err type_error else ok none

-- `((command, *args),)`
unfoldable pub as_commands : Text → List Text → List ShellToken
as_commands command args = command_token (structured (map word (command ∷ args))) ∷ []

module _ (p : Target) (call : Call) where
  abbrev pub has : String → Bool
  has capability = contains p.capabilities capability

  -- `options` with what the provider carries natively.
  unfoldable pub native_options : Options
  unfolding carried
  native_options = record {
    cwd = carried (has "cwd") call.cwd;
    env = carried (has "env") call.env;
    input = call.input;
    has_stdin = call.has_stdin;
  }

  -- `_shell_context`, with `wants_epilogue`
  unfoldable pub shell_context : Context
  unfolding left_over
  shell_context = record {
    cwd = left_over (has "cwd") call.cwd;
    env = left_over (has "env") call.env;
    epilogue = not (has "manages_status");
  }

  -- `native_cwd` and `native_env`
  unfoldable pub is_native : Bool
  unfolding is_given
  is_native = (not (is_given call.cwd) || has "cwd") && (not (is_given call.env) || has "env")

  -- `_out_of_band_env`
  unfoldable pub out_of_band_env : ShellCommand → Options → Result Options
  unfolding variables
  out_of_band_env rendered options =
      if null (variables rendered.environment)
      then ok options
      else if not (has "env")
      then err not_implemented
      else ok (record options { env = rendered.environment })

  -- `options["input"] = rendered.stdin`
  unfoldable pub with_script_input : Option Text → Options → Options
  with_script_input none options = options
  with_script_input (some text) options = record options { input = some text }

  -- `stdin_free` of `_execute_command_line`
  unfoldable pub is_stdin_free : Bool
  unfolding is_given
  is_stdin_free = is_given p.login_shell && not (is_given call.input) && not call.has_stdin

  -- `_execute_command_line`
  unfoldable pub execute_command_line : Shell → List ShellToken → Option Text → Result Dispatch
  unfolding render_command shell_context is_stdin_free out_of_band_env native_options
      with_script_input
  execute_command_line shell cmds executable = do
    rendered ←
        render_command shell cmds executable shell_context.cwd shell_context.env p.login_shell
          is_stdin_free
    options ← out_of_band_env rendered native_options
    ok record {
      command = rendered.command;
      args = [];
      options = with_script_input rendered.stdin options;
    }
