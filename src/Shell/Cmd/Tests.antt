-- ===== src/Shell/Cmd/Tests.antt =====
-- The quoting of cmd at awkward values.
use mathlib.Core.List.{flatten}
use hostctl.Shell.Script.{ShellToken, command_token, structured, word}
use hostctl.Shell.Script.Context.{script}
use hostctl.Shell.Script.Clean.{IsClean}
use hostctl.Shell.Script.Flavours.{posix_flavour, zsh_flavour, fish_flavour}
use hostctl.Shell.Cmd.Command.{cmd_command, cmd_flavour}
use hostctl.Shell.Cmd.Lines.{cmd_command-login, scripts-IsClean}
use hostctl.Prelude.{
  ◌≡◌, refl, Option, true, false, none, some, List, [], ◌∷◌, ◌+◌, leb, ◌&&◌, if◌then◌else◌, map,
  filter_by, codes, ok, WhenOk,
}
use hostctl.Provider.Failover.{is_environment_name}
use hostctl.Shell.Cmd.Expansion.{plain, expand}
use hostctl.Shell.Text.{Text, same_text, quotation, among}
use hostctl.Shell.Cmd.{
  argument, echo_argument, environment_assignment, builtin_argument, batch_token, program,
}
use hostctl.Shell.Cmd.Caret.{caret_parse}
use hostctl.Shell.Cmd.Target.{
  batch, unresolved, argument_for, argument_rule, read_by, read_by-argument_for,
}
use hostctl.Shell.Cmd.Operand.{outside, builtin_read}
use hostctl.Shell.Cmd.Builtin.{read-builtin_argument}

read-builtin_argument_example :
    builtin_read outside [] (builtin_argument (λ c. false) (codes "a=b %OS%.txt\""))
    ≡ some (codes "a=b %OS%.txt\"")
read-builtin_argument_example = read-builtin_argument (λ c. false) (codes "a=b %OS%.txt\"") refl

name_valid : is_environment_name (codes "OS_2") ≡ true
unfolding is_environment_name
name_valid = refl

assigned : environment_assignment (codes "OS_2") (codes "100%") ≡ some (codes "set OS_2=100^%")
unfolding environment_assignment echo_argument
assigned = refl

given_batch :
    argument_for (λ c. false) batch (codes "50% \"off\"")
    ≡ some (codes "\"50%%cd:~,% \"\"off\"\"\"")
unfolding argument_for argument_rule batch_token
given_batch = refl

abbrev variables : Text → Option Text
variables name =
    if same_text name (codes "cd")
    then some (codes "C:\\x")
    else if same_text name (codes "OS")
    then some (codes "Windows_NT")
    else none

read_by-argument_for_example :
    (read_by variables batch (codes "\"50%%cd:~,% \"\"off\"\"\"") ≡ some (codes "50% \"off\""))
    × (batch ≡ unresolved → among quotation (codes "50% \"off\"") ≡ false)
read_by-argument_for_example =
    read_by-argument_for variables (codes "C:\\x") (λ c. false) batch (codes "50% \"off\"")
      (codes "\"50%%cd:~,% \"\"off\"\"\"") refl refl given_batch

expanded : expand variables plain (codes "a%OS%b") ≡ some (codes "aWindows_NTb")
unfolding expand
expanded = refl

cut_open : read_by variables batch (codes "\"x\\\"&y\"") ≡ none
unfolding read_by
cut_open = refl

-- ASCII case folding.
abbrev ascii_fold : Text → Text
ascii_fold s = map (λ c. if leb b'A' c && leb c b'Z' then c + 32 else c) s

abbrev deletion : List ShellToken
deletion = command_token (structured (word (codes "DEL") ∷ word (codes "a b") ∷ [])) ∷ []

cmd_line :
    cmd_command (λ c. false) ascii_fold deletion none (some (codes "D:\\x y")) [] false
    ≡ ok (codes "cmd.exe /d /v:off /s /c \"cd /d \"D:\\x y\"&&(DEL \"a b\")\"")
unfolding cmd_command flatten filter_by builtin_argument argument program
cmd_line = refl

cmd_command-login_example :
    (outer : Text) × (cmd_command
        (λ c. false)
        ascii_fold
        deletion
        none
        (some (codes "D:\\x y"))
        []
        true
      ≡ ok outer)
    × (caret_parse false outer
        ≡ some (codes "cmd.exe /d /v:off /s /c \"cd /d \"D:\\x y\"&&(DEL \"a b\")\""))
cmd_command-login_example =
    cmd_command-login (λ c. false) ascii_fold deletion none (some (codes "D:\\x y")) [] _ cmd_line
      refl

scripts-IsClean_example :
    WhenOk IsClean (script posix_flavour deletion none [] true)
    × WhenOk IsClean (script zsh_flavour deletion none [] true)
    × WhenOk IsClean (script fish_flavour deletion none [] true)
    × WhenOk IsClean (script (cmd_flavour (λ c. false) ascii_fold) deletion none [] true)
scripts-IsClean_example = scripts-IsClean (λ c. false) ascii_fold deletion none [] true
