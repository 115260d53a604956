-- ===== src/Shell/Login.antt =====
-- shell/_vocabulary.py: `login_join`, one command line for sh, zsh and fish alike.
pub mod ReadBack
use hostctl.Prelude.{
  ℕ, Bool, true, false, ◌≡◌, refl, ap, sym, ◌∙◌, ◌⊎◌, inl, inr, Option, none, some, List, [], ◌∷◌,
  ◌++◌, append_assoc, append-nil, arith, ◌==◌, ◌&&◌, ◌||◌, not, if◌then◌else◌, all, null, codes,
  Bool-cases, map,
}
use mathlib.Core.List.{flatten}
use hostctl.Shell.Text.{Text, tick, backslash, space, among, is_ascii_alnum}
use hostctl.Shell.Reader.{Reader, opened, grown, word_before, is_ordinary}

-- `_LOGIN_SAFE`
unfoldable pub is_login_safe : ℕ → Bool
is_login_safe c = is_ascii_alnum c || among c (codes "@+=:,./_-")

-- `"'" + run + "'"`, if there is a run.
unfoldable pub flush : Text → List Text
flush [] = []
flush (c ∷ run) = (tick ∷ c ∷ run ++ tick ∷ []) ∷ []

-- The loop that cuts a value into parts, from the run on.
unfoldable pub parts : Text → Text → List Text
unfolding flush
parts [] run = flush run
parts (c ∷ s) run =
    let cut = flush run ++ (backslash ∷ c ∷ []) ∷ parts s [] in
    let more = parts s (run ++ c ∷ []) in if c == backslash || c == tick then cut else more

-- `value[0] != "="`
unfoldable pub no_equals_first : Text → Bool
no_equals_first [] = true
no_equals_first (c ∷ s) = not (c == b'=')

-- One word of `login_join`.
unfoldable pub login_word : Text → Text
unfolding parts no_equals_first is_login_safe
login_word s =
    if null s
    then tick ∷ tick ∷ []
    else if no_equals_first s && all is_login_safe s
    then s
    else flatten (parts s [])

-- `" ".join(words)`
unfoldable pub join_words : List Text → Text
join_words [] = []
join_words (w ∷ []) = w
join_words (w ∷ v ∷ ws) = w ++ space ∷ join_words (v ∷ ws)

unfoldable pub login_join : List Text → Text
unfolding login_word join_words
login_join argv = join_words (map login_word argv)
