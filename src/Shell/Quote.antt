-- ===== src/Shell/Quote.antt =====
-- `quote` of shell/_posix.py and shell/_fish.py. A path is quoted as its text.
pub mod ShWords
pub mod FishWords
use hostctl.Prelude.{
  ℕ, Bool, true, Option, none, some, List, [], ◌∷◌, ◌++◌, ◌==◌, ◌||◌, false, if◌then◌else◌, all,
  null, codes,
}
use hostctl.Shell.Text.{
  Text, tick, quotation, backslash, among, replace, is_ascii_alnum, text_value,
}

-- The characters that the standard library's `shlex.quote` leaves bare: `\w` in ASCII and others.
unfoldable pub is_shlex_safe : ℕ → Bool
is_shlex_safe c = is_ascii_alnum c || among c (codes "_@%+=:,./-")

-- `shlex.quote`
unfoldable pub shlex_quote : Text → Text
unfolding is_shlex_safe
shlex_quote s =
    if null s
    then tick ∷ tick ∷ []
    else if all is_shlex_safe s
    then s
    else tick ∷ replace tick (tick ∷ quotation ∷ tick ∷ quotation ∷ tick ∷ []) s ++ tick ∷ []

abbrev quoted_by : (Text → Text) → Text → Option Text
quoted_by rule value = elim (text_value value) [ none ↦ none | some s ↦ some (rule s) ]

-- `PosixShellFlavour.quote`
unfoldable pub posix_quote : Text → Option Text
unfolding text_value
posix_quote value = quoted_by shlex_quote value

-- `text.startswith("=")`
unfoldable pub starts_with_equals : Text → Bool
starts_with_equals [] = false
starts_with_equals (c ∷ s) = c == b'='

unfoldable pub zsh_rule : Text → Text
unfolding starts_with_equals
zsh_rule s =
    let quoted = shlex_quote s in
    if starts_with_equals quoted then tick ∷ quoted ++ tick ∷ [] else quoted

-- `ZshShellFlavour.quote`
unfoldable pub zsh_quote : Text → Option Text
unfolding text_value
zsh_quote value = quoted_by zsh_rule value

-- `_SAFE` of shell/_fish.py
unfoldable pub is_fish_safe : ℕ → Bool
is_fish_safe c = is_ascii_alnum c || among c (codes "@+=:,./-_")

unfoldable pub fish_rule : Text → Text
unfolding is_fish_safe
fish_rule s =
    if null s
    then tick ∷ tick ∷ []
    else if all is_fish_safe s
    then s
    else let escaped =
        replace tick (backslash ∷ tick ∷ []) (replace backslash (backslash ∷ backslash ∷ []) s) in
      tick ∷ escaped ++ tick ∷ []

-- `FishShellFlavour.quote`
unfoldable pub fish_quote : Text → Option Text
unfolding text_value
fish_quote value = quoted_by fish_rule value
