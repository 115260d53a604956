-- ===== src/Shell/Script/Tests.antt =====
-- Scripts and command lines of the flavours at concrete commands.
use hostctl.Shell.Script.CwdOperand.{uses_cdpath, posix_cwd_operand_lem}
use hostctl.Prelude.{
  ◌≡◌, refl, true, false, none, some, List, [], ◌∷◌, ◌++◌, codes, ok, is_ok, filter_by,
}
use mathlib.Core.List.{flatten}
use hostctl.Shell.Quote.{shlex_quote}
use hostctl.Shell.Login.{login_join}
use hostctl.Shell.Script.{
  ShellToken, operator_token, command_token, raw, structured, word, and_then, pipe,
}
use hostctl.Shell.Script.Joining.{join}
use hostctl.Shell.Script.Context.{script}
use hostctl.Shell.Script.Compose.{join-append}
use hostctl.Shell.Script.Placement.{join-misplaced}
use hostctl.Shell.Script.Flavours.{posix_flavour, posix_cwd_operand, command}
use hostctl.Shell.Script.Again.{script-again}
use hostctl.Shell.Script.ShVisible.{posix_flavour-IsClean}

abbrev listing : List ShellToken
listing = command_token (structured (word (codes "ls") ∷ word (codes "a b") ∷ [])) ∷ []

abbrev counting : List ShellToken
counting = command_token (raw (codes "wc -l")) ∷ []

listing_script : join posix_flavour listing ≡ ok (codes "ls 'a b'")
unfolding join posix_flavour shlex_quote flatten
listing_script = refl

counting_script : join posix_flavour counting ≡ ok (codes "wc -l")
unfolding join posix_flavour flatten
counting_script = refl

join-append_example :
    join posix_flavour (listing ++ counting) ≡ ok (codes "ls 'a b'" ++ (codes ";" ++ codes "wc -l"))
unfolding posix_flavour
join-append_example =
    join-append posix_flavour listing counting (codes "ls 'a b'") (codes "wc -l") refl
      listing_script refl counting_script refl

join-misplaced_example :
    (is_ok (join posix_flavour (operator_token pipe ∷ counting)) ≡ false)
    × (is_ok (join posix_flavour (listing ++ operator_token pipe ∷ [])) ≡ false)
    × (is_ok
          (join posix_flavour (listing ++ operator_token pipe ∷ operator_token and_then ∷ counting))
        ≡ false)
join-misplaced_example = join-misplaced posix_flavour listing counting pipe and_then

abbrev both : List ShellToken
both = command_token (raw (codes "a")) ∷ command_token (raw (codes "b")) ∷ []

guarded_script :
    script posix_flavour both (some (codes "srv//x")) ((codes "K", codes "v w") ∷ []) true
    ≡ ok (codes "export K='v w';cd -- ./srv/x&&{ a;b; }")
unfolding script posix_flavour filter_by flatten shlex_quote
guarded_script = refl

script-again_example :
    script posix_flavour
      (command_token (raw (codes "export K='v w';cd -- ./srv/x&&{ a;b; }")) ∷ [])
      none
      []
      false
    ≡ ok (codes "export K='v w';cd -- ./srv/x&&{ a;b; }")
unfolding posix_flavour
script-again_example =
    script-again posix_flavour both (some (codes "srv//x")) ((codes "K", codes "v w") ∷ []) true _
      posix_flavour-IsClean refl guarded_script

sent :
    command posix_flavour (codes "/bin/sh") both none (some (codes "srv")) []
    ≡ ok (codes "/bin/sh -c 'cd -- ./srv&&{ a;b; }'")
unfolding command posix_flavour filter_by flatten shlex_quote login_join
sent = refl

posix_cwd_operand_lem_example : uses_cdpath (posix_cwd_operand (codes "-/srv")) ≡ false
posix_cwd_operand_lem_example = posix_cwd_operand_lem (codes "-/srv")
