-- ===== src/Uri/Credentials.antt =====
-- `parse_credentials` of uri/_parse.py. A text is the list of its code points; what `str.casefold` gives
-- is an argument.
pub mod Written
use hostctl.Prelude.{
  ℕ, Bool, true, false, not, ◌||◌, ◌&&◌, Option, none, some, List, [], ◌∷◌, ◌++◌, all, null, leb,
  ◌==◌, if◌then◌else◌, Result, ok, err, value_error, ◌>>=◌,
}
use hostctl.Shell.Text.{Text, same_text, among}

-- The line boundaries of `str.splitlines`.
unfoldable pub is_line_end : ℕ → Bool
is_line_end c = (leb 10 c && leb c 13) || (leb 28 c && leb c 30) || among c (133 ∷ 8232 ∷ 8233 ∷ [])

-- What `str.strip` removes.
unfoldable pub is_whitespace : ℕ → Bool
is_whitespace c =
    (leb 9 c && leb c 13)
    || (leb 28 c && leb c 32)
    || (leb 8192 c && leb c 8202)
    || among c (133 ∷ 160 ∷ 5760 ∷ 8232 ∷ 8233 ∷ 8239 ∷ 8287 ∷ 12288 ∷ [])

unfoldable pub begins : ℕ → Text → Bool
begins d [] = false
begins d (c ∷ cs) = c == d

abbrev pub onto_line : ℕ → List Text → List Text
onto_line c [] = (c ∷ []) ∷ []
onto_line c (line ∷ lines) = (c ∷ line) ∷ lines

-- `str.splitlines`; a carriage return before a newline goes with it.
unfoldable pub split_lines : Text → List Text
unfolding is_line_end begins
split_lines [] = []
split_lines (c ∷ cs) =
    let rest = split_lines cs in
    if c == 13 && begins 10 cs then rest else if is_line_end c then [] ∷ rest else onto_line c rest

unfoldable pub strip_left : Text → Text
unfolding is_whitespace
strip_left [] = []
strip_left (c ∷ cs) = let rest = strip_left cs in if is_whitespace c then rest else c ∷ cs

unfoldable pub strip_right : Text → Text
unfolding is_whitespace
strip_right [] = []
strip_right (c ∷ cs) =
    let rest = strip_right cs in if is_whitespace c && null rest then [] else c ∷ rest

-- `str.strip`
unfoldable pub strip : Text → Text
unfolding strip_left strip_right
strip text = strip_right (strip_left text)

-- `line.partition(":")`, without the colon
unfoldable pub partition : Text → Text × Text
partition [] = ([], [])
partition (c ∷ cs) = let rest = partition cs in if c == b':' then ([], cs) else (c ∷ rest.0, rest.1)

abbrev pub Extras : Type 0
Extras = List (Text × Text)

-- `extras[key] = value`
unfoldable pub set_extra : Text → Text → Extras → Extras
set_extra key value [] = (key, value) ∷ []
set_extra key value ((k, v) ∷ extras) =
    if same_text k key then (k, value) ∷ extras else (k, v) ∷ set_extra key value extras

module _ (casefold : Text → Text) where
  abbrev pub name_of : Text → Text
  name_of line = casefold (strip (partition line).0)

  -- One line of the loop.
  unfoldable pub add_line : Text → Extras → Result Extras
  unfolding is_whitespace strip partition set_extra
  add_line line extras =
      if all is_whitespace line
      then ok extras
      else if null (name_of line)
      then err value_error
      else ok (set_extra (name_of line) (partition line).1 extras)

  unfoldable pub add_lines : List Text → Extras → Result Extras
  unfolding add_line
  add_lines [] extras = ok extras
  add_lines (line ∷ lines) extras = add_line line extras >>= add_lines lines

  unfoldable pub from_lines : Text → List Text → Result (Text × Extras)
  unfolding add_lines
  from_lines password [] = ok (password, [])
  from_lines password (line ∷ []) = ok (password, [])
  from_lines password (line ∷ more ∷ lines) =
      add_lines (more ∷ lines) [] >>= λ extras. ok (line, extras)

  -- `parse_credentials`
  unfoldable pub parse_credentials : Text → Result (Text × Extras)
  unfolding split_lines from_lines
  parse_credentials password = from_lines password (split_lines password)
