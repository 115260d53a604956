-- ===== src/Host/Dispatch/Tests.antt =====
-- Dispatches of concrete calls to a provider that reads scripts and to one with a login shell.
use hostctl.Prelude.{
  ◌≡◌, refl, true, false, none, some, List, [], ◌∷◌, ◌++◌, codes, ok, or_value_error, ◌>>=◌,
  filter_by, WhenOk,
}
use mathlib.Core.List.{flatten}
use hostctl.Shell.Text.{Text}
use hostctl.Shell.Quote.{posix_quote, shlex_quote}
use hostctl.Shell.Login.{login_join}
use hostctl.Shell.Script.{ShellToken, command_token, raw, exec}
use hostctl.Shell.Script.Flavours.{posix_flavour, command}
use hostctl.Host.Dispatch.{Environment, Shell, Target, Call, variables}
use hostctl.Host.Dispatch.Render.{render_dispatch, prepare, Execution, displayed}
use hostctl.Host.Dispatch.Placement.{IsPlaced, render_dispatch-IsPlaced}
use hostctl.Host.Dispatch.Masking.{displayed-values}

abbrev posix_shell : Shell
posix_shell = record {
  flavour = posix_flavour;
  argv_invocation = true;
  accepts_script_stdin = false;
  quote = λ s. or_value_error (posix_quote s);
  command = λ cmds executable cwd env login stdin_free.
      command posix_flavour (codes "/bin/sh") cmds executable cwd (variables env) >>= λ line.
      ok record { command = line; environment = none; stdin = none };
  invocation = λ body executable. ok (codes "/bin/sh", codes "-c" ∷ body ∷ []);
}

abbrev script_target : Target
script_target = record {
  capabilities = "script" ∷ "cwd" ∷ [];
  shell_executable = none;
  login_shell = none;
}

abbrev login_target : Target
login_target = record {
  capabilities = [];
  shell_executable = none;
  login_shell = some (codes "posix");
}

abbrev call_in : Text → Environment → Call
call_in cwd env = record {
  cwd = some cwd;
  env = some env;
  executable = none;
  input = none;
  has_stdin = false;
}

abbrev listing : List ShellToken
listing = command_token (raw (codes "ls")) ∷ []

login_dispatch :
    render_dispatch login_target
      (call_in (codes "/srv") ((codes "K", codes "v") ∷ []))
      (some posix_shell)
      (command_token (exec (codes "ls") (codes "-l" ∷ [])) ∷ [])
    ≡ ok record {
      command = codes "/bin/sh -c 'export K=v;cd -- /srv&&{ ls -l; }'";
      args = [];
      options = record { cwd = none; env = none; input = none; has_stdin = false };
    }
unfolding render_dispatch command posix_flavour filter_by flatten shlex_quote login_join
login_dispatch = refl

render_dispatch-IsPlaced_example :
    WhenOk
      (IsPlaced login_target
        (call_in (codes "/srv") ((codes "K", codes "v") ∷ []))
        (some posix_shell)
        listing)
      (render_dispatch login_target
        (call_in (codes "/srv") ((codes "K", codes "v") ∷ []))
        (some posix_shell)
        listing)
render_dispatch-IsPlaced_example =
    render_dispatch-IsPlaced login_target (call_in (codes "/srv") ((codes "K", codes "v") ∷ []))
      (some posix_shell) listing

abbrev executed : Text → Execution
executed quoted = record {
  dispatch = record {
    command = codes "export K=" ++ (quoted ++ codes ";ls");
    args = [];
    options = record { cwd = some (codes "/srv"); env = none; input = none; has_stdin = false };
  };
  shown = some (codes "export K='<redacted>';ls", []);
}

secret_run :
    prepare
      (codes "<redacted>")
      script_target
      (some posix_shell)
      listing
      (call_in (codes "/srv") ((codes "K", codes "a b") ∷ []))
    ≡ ok (executed (codes "'a b'"))
unfolding prepare posix_flavour filter_by flatten shlex_quote
secret_run = refl

other_run :
    prepare
      (codes "<redacted>")
      script_target
      (some posix_shell)
      listing
      (call_in (codes "/srv") ((codes "K", codes "it") ∷ []))
    ≡ ok (executed (codes "it"))
unfolding prepare posix_flavour filter_by flatten shlex_quote
other_run = refl

displayed-values_example : displayed (executed (codes "'a b'")) ≡ displayed (executed (codes "it"))
displayed-values_example =
    displayed-values (codes "<redacted>") script_target (some posix_shell) listing
      (call_in (codes "/srv") []) ((codes "K", codes "a b") ∷ []) ((codes "K", codes "it") ∷ [])
      (executed (codes "'a b'")) (executed (codes "it")) refl secret_run other_run
