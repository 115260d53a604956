-- ===== src/Host/Dispatch/Render.antt =====
-- `_render_dispatch` and `_run_with_provider` of system/_host.py.
use hostctl.Prelude.{
  Bool, true, false, Option, none, some, List, [], ◌∷◌, ◌&&◌, not, if◌then◌else◌, null, Result, ok,
  err, not_implemented, ◌>>=◌,
}
use hostctl.Shell.Text.{Text, same_text}
use hostctl.Shell.Script.{ShellToken}
use hostctl.Shell.Script.Context.{script}
use hostctl.Host.Dispatch.{
  Environment, Shell, Target, Call, Dispatch, is_given, variables, or_default, shell_invocation,
  starts_direct_command, as_commands, has, native_options, shell_context, is_native,
  execute_command_line,
}

module _ (p : Target) (call : Call) where
  -- A rendered script as what is executed.
  unfoldable pub as_script : Text → Dispatch
  unfolding native_options
  as_script body = record { command = body; args = []; options = native_options p call }

  unfoldable pub as_leading : Text × List Text → Dispatch
  unfolding native_options
  as_leading leading = record {
    command = leading.0;
    args = leading.1;
    options = native_options p call;
  }

  -- The shell's commands through the first way that the provider has: a script, or an invocation.
  unfoldable pub by_script : Shell → List ShellToken → Result Dispatch
  unfolding shell_context variables as_script script
  by_script shell cmds =
      script shell.flavour cmds (shell_context p call).cwd (variables (shell_context p call).env)
        (shell_context p call).epilogue
      >>= λ body. ok (as_script body)

  unfoldable pub by_invocation : Shell → List ShellToken → Option Text → Result Dispatch
  unfolding shell_invocation shell_context as_leading
  by_invocation shell cmds executable =
      shell_invocation shell cmds (shell_context p call) executable p.login_shell >>= λ leading.
      ok (as_leading leading)

  -- A direct command that a shell renders.
  unfoldable pub direct_in_shell : Shell → Text → List Text → Result Dispatch
  unfolding by_script by_invocation execute_command_line as_commands is_native as_script
  direct_in_shell shell command args =
      let line = execute_command_line p call shell (as_commands command args) p.shell_executable in
      if has p call "script"
      then by_script shell (as_commands command args)
      else if has p call "args"
      then by_invocation shell (as_commands command args) p.shell_executable
      else if null args && is_native p call
      then (shell.quote command >>= λ quoted.
          if same_text quoted command then ok (as_script command) else line)
      else line

  -- A direct command where no shell is configured.
  unfoldable pub direct_alone : Text → List Text → Result Dispatch
  unfolding is_native as_script
  direct_alone command args =
      if not (null args)
      then err not_implemented
      else if not (is_native p call)
      then err not_implemented
      else ok (as_script command)

  -- The shell, if the host has one.
  unfoldable pub direct_by : Option Shell → Text → List Text → Result Dispatch
  unfolding direct_in_shell direct_alone
  direct_by none command args = direct_alone command args
  direct_by (some shell) command args = direct_in_shell shell command args

  -- The branch of `_render_dispatch` for a direct command.
  unfoldable pub render_direct : Option Shell → Text → List Text → Result Dispatch
  unfolding is_given is_native direct_by as_leading
  render_direct shell command args =
      if is_given call.executable
      then err not_implemented
      else if has p call "args" && is_native p call
      then ok (as_leading (command, args))
      else direct_by shell command args

  -- The branch for commands of the shell.
  unfoldable pub render_shell : Option Shell → List ShellToken → Result Dispatch
  unfolding is_given or_default by_script by_invocation execute_command_line
  render_shell none cmds = err not_implemented
  render_shell (some shell) cmds =
      let executable = or_default call.executable p.shell_executable in
      if has p call "script"
      then if is_given call.executable then err not_implemented else by_script shell cmds
      else if not (has p call "args")
      then execute_command_line p call shell cmds executable
      else by_invocation shell cmds executable

  unfoldable pub render_found :
      Option Shell → List ShellToken → Option (Text × List Text) → Result Dispatch
  unfolding render_direct render_shell
  render_found shell cmds (some direct) = render_direct shell direct.0 direct.1
  render_found shell cmds none = render_shell shell cmds

  -- `_render_dispatch`
  unfoldable pub render_dispatch : Option Shell → List ShellToken → Result Dispatch
  unfolding render_found starts_direct_command
  render_dispatch shell cmds = starts_direct_command cmds >>= render_found shell cmds

-- `MASK` for each value, the names kept: `masked_environment`.
unfoldable pub masked_environment : Text → Environment → Environment
masked_environment mask [] = []
masked_environment mask ((key, value) ∷ env) = (key, mask) ∷ masked_environment mask env

unfoldable pub same_texts : List Text → List Text → Bool
same_texts [] [] = true
same_texts [] (t ∷ ts) = false
same_texts (s ∷ ss) [] = false
same_texts (s ∷ ss) (t ∷ ts) = same_text s t && same_texts ss ts

-- What is executed, and the command that is displayed in its place, if another is.
pub record Execution : Type 0 where
  pub dispatch : Dispatch
  pub shown : Option (Text × List Text)

-- `shown[:2] != (command, args)`
unfoldable pub execution : Dispatch → Dispatch → Execution
unfolding same_texts
execution sent masked = record {
  dispatch = sent;
  shown =
      if same_text masked.command sent.command && same_texts masked.args sent.args
      then none
      else some (masked.command, masked.args);
}

-- `_run_with_provider`, once the provider is connected, up to the call of `execute`.
unfoldable pub prepare : Text → Target → Option Shell → List ShellToken → Call → Result Execution
unfolding render_dispatch masked_environment execution variables
prepare mask p shell cmds call = render_dispatch p call shell cmds >>= λ sent.
    if null (variables call.env)
    then ok record { dispatch = sent; shown = none }
    else render_dispatch p
        (record call { env = some (masked_environment mask (variables call.env)) }) shell cmds
      >>= λ masked. ok (execution sent masked)

-- The command that logs and exceptions show.
unfoldable pub displayed : Execution → Text × List Text
displayed e = elim e.shown [ some shown ↦ shown | none ↦ (e.dispatch.command, e.dispatch.args) ]
