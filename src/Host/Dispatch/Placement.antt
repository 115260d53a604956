-- ===== src/Host/Dispatch/Placement.antt =====
-- `_render_dispatch` of system/_host.py: where the directory and the environment of a call go.
use hostctl.Prelude.{
  Bool, true, ◌≡◌, refl, sym, subst, contains, false, ◌⊎◌, inl, inr, Option, none, some, List, [],
  ◌∷◌, arith, ◌&&◌, not, if◌then◌else◌, null, Result, ok, err, type_error, not_implemented, WhenOk,
  WhenOk-then, WhenOk-with, WhenOk-if, WhenOk-split,
}
use hostctl.Shell.Text.{Text, same_text}
use hostctl.Shell.Script.{
  ShellToken, exec, cmdlet, ps_param, path_like, raw, structured, scalar, operator_token,
  command_token,
}
use hostctl.Host.Dispatch.{
  Shell, Target, Environment, Call, Context, Dispatch, shell_context, carried, is_given, left_over,
  or_default, starts_direct_command, any_exec, as_commands, has, native_options, is_native,
  execute_command_line,
}
use hostctl.Host.Dispatch.Render.{
  as_script, as_leading, by_script, by_invocation, direct_in_shell, direct_alone, direct_by,
  render_direct, render_shell, render_found, render_dispatch,
}
use hostctl.Host.Dispatch.Rendered.{
  native_env, HasNativeCwd, IsSent, IsRenderedBy, IsRendering, by_script-IsRendering,
  by_invocation-IsRendering, execute_command_line-IsRendering,
}

-- What `starts_direct_command` finds is the only command.
abbrev IsOnly : List ShellToken → Option (Text × List Text) → Type 0
IsOnly cmds none = Unit
IsOnly cmds (some direct) = cmds ≡ command_token (exec direct.0 direct.1) ∷ []

no_direct :
    (cmds : List ShellToken)
    → WhenOk (IsOnly cmds) (if any_exec cmds then err type_error else ok none)
no_direct cmds = WhenOk-if (IsOnly cmds) (any_exec cmds) (err type_error) (ok none) tt tt

starts_direct_command-IsOnly :
    (cmds : List ShellToken) → WhenOk (IsOnly cmds) (starts_direct_command cmds)
unfolding starts_direct_command
starts_direct_command-IsOnly [] = tt
starts_direct_command-IsOnly (command_token (exec program args) ∷ []) = refl
starts_direct_command-IsOnly (command_token (exec program args) ∷ t ∷ ts) =
    no_direct (command_token (exec program args) ∷ t ∷ ts)
starts_direct_command-IsOnly (operator_token op ∷ ts) = no_direct (operator_token op ∷ ts)
starts_direct_command-IsOnly (command_token cmdlet ∷ ts) = no_direct (command_token cmdlet ∷ ts)
starts_direct_command-IsOnly (command_token ps_param ∷ ts) = no_direct (command_token ps_param ∷ ts)
starts_direct_command-IsOnly (command_token (path_like s) ∷ ts) =
    no_direct (command_token (path_like s) ∷ ts)
starts_direct_command-IsOnly (command_token (raw s) ∷ ts) = no_direct (command_token (raw s) ∷ ts)
starts_direct_command-IsOnly (command_token (structured vs) ∷ ts) =
    no_direct (command_token (structured vs) ∷ ts)
starts_direct_command-IsOnly (command_token (scalar s) ∷ ts) =
    no_direct (command_token (scalar s) ∷ ts)

null_empty : (xs : List Text) → null xs ≡ true → [] ≡ xs
null_empty [] h = refl
null_empty (x ∷ xs) h = cc

and_left : (a b : Bool) → a && b ≡ true → a ≡ true
and_left a b h = ground arith

and_right : (a b : Bool) → a && b ≡ true → b ≡ true
and_right a b h = ground arith

-- A value goes to one place: to the provider that declares that it carries it, or else to the shell.
abbrev pub IsSplit : {A : Type 0} → Bool → Option A → Option A → Option A → Type 0
IsSplit true given native rendered = (native ≡ given) × (rendered ≡ none)
IsSplit false given native rendered = (native ≡ none) × (rendered ≡ given)

carried-IsSplit :
    {A : Type 0} (has : Bool) (given : Option A)
    → IsSplit has given (carried has given) (left_over has given)
unfolding carried left_over
carried-IsSplit true given = (refl, refl)
carried-IsSplit false given = (refl, refl)

module _ (p : Target) (call : Call) where
  -- The one direct command is sent with nothing for a shell to render, or the shell renders the commands,
  -- or the direct command as one of its own, with the context.
  abbrev pub IsServed :
      Option Environment → Context → Option Shell → List ShellToken → Dispatch → Type 0
  IsServed env context shell cmds d =
      ((command : Text) × (args : List Text) × (cmds ≡ command_token (exec command args) ∷ [])
        × IsSent p call env context command args d)
      ⊎ ((sh : Shell) × (shell ≡ some sh)
          × (IsRenderedBy p call env context sh cmds d
              ⊎ ((command : Text) × (args : List Text) × (cmds
                    ≡ command_token (exec command args) ∷ [])
                  × IsRenderedBy p call env context sh (as_commands command args) d)))

  -- What a dispatch of the commands must be.
  abbrev pub IsPlaced : Option Shell → List ShellToken → Dispatch → Type 0
  IsPlaced shell cmds d =
      (env : Option Environment) × (context : Context) × IsSplit (contains p.capabilities "cwd")
        call.cwd d.options.cwd context.cwd
      × IsSplit (contains p.capabilities "env") call.env env context.env
      × (context.epilogue ≡ not (contains p.capabilities "manages_status"))
      × IsServed env context shell cmds d

  -- What is known of a dispatch, by the code's own contexts.
  abbrev IsPut : Option Shell → List ShellToken → Dispatch → Type 0
  IsPut shell cmds d =
      HasNativeCwd p call d × IsServed (native_env p call) (shell_context p call) shell cmds d

  -- A direct command, by what is done with it.
  abbrev IsDirect : Option Shell → Text → List Text → Dispatch → Type 0
  IsDirect shell command args d =
      HasNativeCwd p call d
      × (IsSent p call (native_env p call) (shell_context p call) command args d
          ⊎ ((sh : Shell) × (shell ≡ some sh)
              × IsRenderedBy p call (native_env p call) (shell_context p call) sh
                  (as_commands command args) d))

  nothing_left :
      is_native p call ≡ true
      → ((shell_context p call).cwd ≡ none) × ((shell_context p call).env ≡ none)
  unfolding is_native is_given left_over shell_context
  nothing_left h = (ground arith, ground arith)

  sent_alone :
      (shell : Option Shell) (command : Text) (args : List Text)
      → null args ≡ true
      → is_native p call ≡ true
      → IsDirect shell command args (as_script p call command)
  unfolding as_script native_options
  sent_alone shell command args hn h =
      let (hc, he) = nothing_left h in (refl, inl (refl, null_empty args hn, hc, he, refl))

  rendered_shell :
      (shell : Shell) (cmds : List ShellToken) (r : Result Dispatch)
      → WhenOk (IsRendering p call shell cmds) r
      → WhenOk (IsPut (some shell) cmds) r
  rendered_shell shell cmds (ok d) h = (h.0, inr (shell, refl, inl h.1))
  rendered_shell shell cmds (err x) h = tt

  module _ (shell : Shell) (command : Text) (args : List Text) where
    abbrev Placed : Dispatch → Type 0
    Placed = IsDirect (some shell) command args

    rendered_direct :
        (r : Result Dispatch)
        → WhenOk (IsRendering p call shell (as_commands command args)) r
        → WhenOk Placed r
    rendered_direct (ok d) h = (h.0, inr (shell, refl, h.1))
    rendered_direct (err x) h = tt

    direct_in_shell-IsDirect : WhenOk Placed (direct_in_shell p call shell command args)
    unfolding direct_in_shell
    direct_in_shell-IsDirect =
        let cmds = as_commands command args in
        let line = execute_command_line p call shell cmds p.shell_executable in
        let by_line : WhenOk Placed line =
          rendered_direct line
            (execute_command_line-IsRendering p call shell cmds p.shell_executable) in
        WhenOk-if Placed (has p call "script") (by_script p call shell cmds) _
          (rendered_direct (by_script p call shell cmds) (by_script-IsRendering p call shell cmds))
          (WhenOk-if Placed (has p call "args") (by_invocation p call shell cmds p.shell_executable)
            _
            (rendered_direct (by_invocation p call shell cmds p.shell_executable)
              (by_invocation-IsRendering p call shell cmds p.shell_executable))
            (WhenOk-split Placed (null args && is_native p call) _ line
              (λ e. WhenOk-with Placed _ (shell.quote command) (λ quoted _.
                WhenOk-if Placed (same_text quoted command) (ok (as_script p call command)) line
                  (sent_alone (some shell) command args (and_left _ _ e) (and_right _ _ e))
                  by_line))
              (λ _. by_line)))

  direct_alone-IsDirect :
      (command : Text) (args : List Text)
      → WhenOk (IsDirect none command args) (direct_alone p call command args)
  unfolding direct_alone
  direct_alone-IsDirect command args =
      WhenOk-split (IsDirect none command args) (not (null args)) (err not_implemented) _ (λ _. tt)
        (λ e.
          WhenOk-split (IsDirect none command args) (not (is_native p call)) (err not_implemented)
            (ok (as_script p call command)) (λ _. tt)
            (λ h. sent_alone none command args (ground arith) (ground arith)))

  direct_by-IsDirect :
      (shell : Option Shell) (command : Text) (args : List Text)
      → WhenOk (IsDirect shell command args) (direct_by p call shell command args)
  unfolding direct_by
  direct_by-IsDirect none command args = direct_alone-IsDirect command args
  direct_by-IsDirect (some shell) command args = direct_in_shell-IsDirect shell command args

  render_direct-IsDirect :
      (shell : Option Shell) (command : Text) (args : List Text)
      → WhenOk (IsDirect shell command args) (render_direct p call shell command args)
  unfolding render_direct as_leading native_options
  render_direct-IsDirect shell command args =
      WhenOk-if (IsDirect shell command args) (is_given call.executable) (err not_implemented) _ tt
        (WhenOk-split (IsDirect shell command args) (has p call "args" && is_native p call)
          (ok (as_leading p call (command, args))) (direct_by p call shell command args)
          (λ e.
            let (hc, he) = nothing_left (and_right _ _ e) in (refl, inl (refl, refl, hc, he, refl)))
          (λ _. direct_by-IsDirect shell command args))

  render_shell-IsPut :
      (shell : Option Shell) (cmds : List ShellToken)
      → WhenOk (IsPut shell cmds) (render_shell p call shell cmds)
  unfolding render_shell
  render_shell-IsPut none cmds = tt
  render_shell-IsPut (some shell) cmds =
      let executable = or_default call.executable p.shell_executable in
      WhenOk-if (IsPut (some shell) cmds) (has p call "script") _ _
        (WhenOk-if (IsPut (some shell) cmds) (is_given call.executable) (err not_implemented)
          (by_script p call shell cmds) tt
          (rendered_shell shell cmds (by_script p call shell cmds)
            (by_script-IsRendering p call shell cmds)))
        (WhenOk-if (IsPut (some shell) cmds) (not (has p call "args"))
          (execute_command_line p call shell cmds executable)
          (by_invocation p call shell cmds executable)
          (rendered_shell shell cmds (execute_command_line p call shell cmds executable)
            (execute_command_line-IsRendering p call shell cmds executable))
          (rendered_shell shell cmds (by_invocation p call shell cmds executable)
            (by_invocation-IsRendering p call shell cmds executable)))

  direct-IsPut :
      (shell : Option Shell) (cmds : List ShellToken) (command : Text) (args : List Text)
      (r : Result Dispatch)
      → cmds ≡ command_token (exec command args) ∷ []
      → WhenOk (IsDirect shell command args) r
      → WhenOk (IsPut shell cmds) r
  direct-IsPut shell cmds command args (err x) e h = tt
  direct-IsPut shell cmds command args (ok d) e (hc, inl sent) = (hc, inl (command, args, e, sent))
  direct-IsPut shell cmds command args (ok d) e (hc, inr (sh, es, by)) =
      (hc, inr (sh, es, inr (command, args, e, by)))

  render_dispatch-IsPut :
      (shell : Option Shell) (cmds : List ShellToken)
      → WhenOk (IsPut shell cmds) (render_dispatch p call shell cmds)
  unfolding render_dispatch
  render_dispatch-IsPut shell cmds =
      WhenOk-then (IsOnly cmds) (IsPut shell cmds) (render_found p call shell cmds)
        (found shell cmds) (starts_direct_command cmds) (starts_direct_command-IsOnly cmds)
    where
      found :
          (shell : Option Shell) (cmds : List ShellToken) (o : Option (Text × List Text))
          → IsOnly cmds o
          → WhenOk (IsPut shell cmds) (render_found p call shell cmds o)
      found shell cmds none h = render_shell-IsPut shell cmds
      found shell cmds (some direct) h =
          direct-IsPut shell cmds direct.0 direct.1 _ h
            (render_direct-IsDirect shell direct.0 direct.1)

  put-IsPlaced :
      (shell : Option Shell) (cmds : List ShellToken) (r : Result Dispatch)
      → WhenOk (IsPut shell cmds) r
      → WhenOk (IsPlaced shell cmds) r
  unfolding shell_context
  put-IsPlaced shell cmds (err x) h = tt
  put-IsPlaced shell cmds (ok d) (cwd, served) = (
    native_env p call,
    shell_context p call,
    subst
        (λ native.
          IsSplit (contains p.capabilities "cwd") call.cwd native
            (left_over (has p call "cwd") call.cwd))
        (sym cwd) (carried-IsSplit (has p call "cwd") call.cwd),
    carried-IsSplit (has p call "env") call.env,
    refl,
    served,
  )

  -- Whatever is dispatched has the directory and the environment of the call exactly once. A part that
  -- the provider declares is among its options and is not rendered; any other part is rendered and not
  -- among the options. Either nothing is to be rendered and the one direct command is sent as it is, or
  -- the configured shell renders with this context the commands of the call, or the direct command as
  -- one of its own. Only the environment of a command line that has one beside it replaces the one
  -- among the options, for a provider that carries environments.
  pub render_dispatch-IsPlaced :
      (shell : Option Shell) (cmds : List ShellToken)
      → WhenOk (IsPlaced shell cmds) (render_dispatch p call shell cmds)
  render_dispatch-IsPlaced shell cmds =
      put-IsPlaced shell cmds (render_dispatch p call shell cmds) (render_dispatch-IsPut shell cmds)
