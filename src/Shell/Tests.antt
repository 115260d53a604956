-- ===== src/Shell/Tests.antt =====
-- The quoting rules at awkward values.
use hostctl.Prelude.{◌≡◌, refl, true, false, none, some, List, [], ◌∷◌, ◌++◌, codes}
use hostctl.Shell.Text.{Text}
use hostctl.Shell.Login.{login_join}
use hostctl.Shell.Login.ReadBack.{login_join-agrees}
use hostctl.Shell.Quote.{posix_quote, shlex_quote, zsh_rule, zsh_quote, fish_rule, fish_quote}
use hostctl.Shell.Quote.ShWords.{read-posix_quote}
use hostctl.Shell.Quote.FishWords.{read-fish_quote}
use hostctl.Shell.Reader.Posix
use hostctl.Shell.Reader.Fish

abbrev argv : List Text
argv = codes "echo" ∷ codes "it's \\ 'q'" ∷ codes "=ls" ∷ [] ∷ codes "$HOME" ∷ []

login_join-agrees_example :
    (Posix.read false Posix.bare none (login_join argv) ≡ some argv)
    × (Posix.read true Posix.bare none (login_join argv) ≡ some argv)
    × (Fish.read Fish.bare none (login_join argv) ≡ some argv)
login_join-agrees_example = login_join-agrees argv

quoted_posix : posix_quote (codes "it's") ≡ some (codes "'it'\"'\"'s'")
unfolding posix_quote shlex_quote
quoted_posix = refl

read-posix_quote_example :
    Posix.read false Posix.bare none (codes "'it'\"'\"'s'" ++ codes " x")
    ≡ Posix.read false Posix.bare (some (codes "it's")) (codes " x")
read-posix_quote_example =
    read-posix_quote (codes "it's") (codes "'it'\"'\"'s'") (codes " x") quoted_posix

quoted_zsh : zsh_quote (codes "=ls") ≡ some (codes "'=ls'")
unfolding zsh_quote zsh_rule shlex_quote
quoted_zsh = refl

quoted_fish : fish_quote (codes "a'\\") ≡ some (codes "'a\\'\\\\'")
unfolding fish_quote fish_rule
quoted_fish = refl

read-fish_quote_example :
    Fish.read Fish.bare none (codes "'a\\'\\\\'" ++ codes " x")
    ≡ Fish.read Fish.bare (some (codes "a'\\")) (codes " x")
read-fish_quote_example =
    read-fish_quote (codes "a'\\") (codes "'a\\'\\\\'") (codes " x") quoted_fish
