-- ===== src/Host/Dispatch/Rendered.antt =====
-- `_render_dispatch` of system/_host.py: what a shell renders gets the part of the context that the provider lacks.
use hostctl.Prelude.{
  true, ◌≡◌, refl, ◌⊎◌, inl, inr, Option, none, some, List, [], null, contains, ok, WhenOk,
  WhenOk-then, WhenOk-with, Bool-cases,
}
use hostctl.Shell.Text.{Text}
use hostctl.Shell.Script.{ShellToken}
use hostctl.Shell.Script.Context.{script}
use hostctl.Host.Dispatch.{
  Environment, Shell, ShellCommand, Target, Call, Context, Options, Dispatch, carried, variables,
  render_command, shell_invocation, has, native_options, shell_context, is_stdin_free,
  out_of_band_env, with_script_input, execute_command_line,
}
use hostctl.Host.Dispatch.Render.{as_script, as_leading, by_script, by_invocation}

module _ (p : Target) (call : Call) where
  abbrev pub native_env : Option Environment
  native_env = carried (has p call "env") call.env

  -- A shell renders the commands with a context: as a script, as an invocation, or as a command line,
  -- whose environment may go beside it. `env` is the environment among the options.
  module _ (env : Option Environment) (context : Context) where
    abbrev pub IsScript : Shell → List ShellToken → Dispatch → Type 0
    IsScript shell cmds d =
        (script shell.flavour cmds context.cwd (variables context.env) context.epilogue
          ≡ ok d.command)
        × (d.options.env ≡ env)

    abbrev pub IsInvocation : Shell → List ShellToken → Dispatch → Type 0
    IsInvocation shell cmds d =
        (executable : Option Text) × (shell_invocation shell cmds context executable p.login_shell
          ≡ ok (d.command, d.args))
        × (d.options.env ≡ env)

    abbrev pub IsLine : Shell → List ShellToken → Dispatch → Type 0
    IsLine shell cmds d =
        (executable : Option Text) × (rendered : ShellCommand) × (render_command shell cmds
            executable context.cwd context.env p.login_shell (is_stdin_free p call)
          ≡ ok rendered)
        × (d.command ≡ rendered.command)
        × ((d.options.env ≡ env)
            ⊎ ((has p call "env" ≡ true) × (d.options.env ≡ rendered.environment)))

    abbrev pub IsRenderedBy : Shell → List ShellToken → Dispatch → Type 0
    IsRenderedBy shell cmds d =
        IsScript shell cmds d ⊎ IsInvocation shell cmds d ⊎ IsLine shell cmds d

    -- A direct command is sent as it is, with nothing left to render.
    abbrev pub IsSent : Text → List Text → Dispatch → Type 0
    IsSent command args d =
        (d.command ≡ command)
        × (d.args ≡ args)
        × (context.cwd ≡ none)
        × (context.env ≡ none)
        × (d.options.env ≡ env)

  abbrev pub HasNativeCwd : Dispatch → Type 0
  HasNativeCwd d = d.options.cwd ≡ carried (has p call "cwd") call.cwd

  abbrev pub IsRendering : Shell → List ShellToken → Dispatch → Type 0
  IsRendering shell cmds d =
      HasNativeCwd d × IsRenderedBy native_env (shell_context p call) shell cmds d

  pub by_script-IsRendering :
      (shell : Shell) (cmds : List ShellToken)
      → WhenOk (IsRendering shell cmds) (by_script p call shell cmds)
  unfolding by_script as_script native_options
  by_script-IsRendering shell cmds =
      WhenOk-with (IsRendering shell cmds) (λ body. ok (as_script p call body))
        (script shell.flavour cmds (shell_context p call).cwd (variables (shell_context p call).env)
          (shell_context p call).epilogue)
        (λ body e. (refl, inl (e, refl)))

  pub by_invocation-IsRendering :
      (shell : Shell) (cmds : List ShellToken) (executable : Option Text)
      → WhenOk (IsRendering shell cmds) (by_invocation p call shell cmds executable)
  unfolding by_invocation as_leading native_options
  by_invocation-IsRendering shell cmds executable =
      WhenOk-with (IsRendering shell cmds) (λ leading. ok (as_leading p call leading))
        (shell_invocation shell cmds (shell_context p call) executable p.login_shell)
        (λ leading e. (refl, inr (inl (executable, e, refl))))

  abbrev HasEnvOf : ShellCommand → Options → Type 0
  HasEnvOf rendered o =
      (o.cwd ≡ carried (has p call "cwd") call.cwd)
      × ((o.env ≡ native_env) ⊎ ((has p call "env" ≡ true) × (o.env ≡ rendered.environment)))

  out_of_band_env-HasEnvOf :
      (rendered : ShellCommand)
      → WhenOk (HasEnvOf rendered) (out_of_band_env p call rendered (native_options p call))
  unfolding out_of_band_env native_options
  out_of_band_env-HasEnvOf rendered = elim (Bool-cases (null (variables rendered.environment))) [
    | inl e ↦ rw e (refl, inl refl)
    | inr e ↦ elim (Bool-cases (contains p.capabilities "env")) [
      | inl h ↦ rw (e, h) (refl, inr (h, refl))
      | inr h ↦ rw (e, h) tt
    ]
  ]

  pub execute_command_line-IsRendering :
      (shell : Shell) (cmds : List ShellToken) (executable : Option Text)
      → WhenOk (IsRendering shell cmds) (execute_command_line p call shell cmds executable)
  unfolding execute_command_line
  execute_command_line-IsRendering shell cmds executable =
      WhenOk-with (IsRendering shell cmds) _ _ (λ rendered e.
        WhenOk-then (HasEnvOf rendered) (IsRendering shell cmds) _
          (λ o h. line_of rendered.stdin rendered o h e)
          (out_of_band_env p call rendered (native_options p call))
          (out_of_band_env-HasEnvOf rendered))
    where
      line_of :
          (stdin : Option Text) (rendered : ShellCommand) (o : Options)
          → HasEnvOf rendered o
          → render_command shell cmds executable
              (shell_context p call).cwd
              (shell_context p call).env
              p.login_shell
              (is_stdin_free p call)
            ≡ ok rendered
          → IsRendering shell cmds record {
            command = rendered.command;
            args = [];
            options = with_script_input p call stdin o;
          }
      line_of none rendered o h e = (h.0, inr (inr (executable, rendered, e, refl, h.1)))
      line_of (some text) rendered o h e = (h.0, inr (inr (executable, rendered, e, refl, h.1)))
