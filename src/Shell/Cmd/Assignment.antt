-- ===== src/Shell/Cmd/Assignment.antt =====
-- What cmd makes of the assignments and escaped lines that shell/_cmd.py writes.
use hostctl.Prelude.{
  ℕ, Bool, true, false, ◌≡◌, refl, ap, ◌∙◌, some, [], ◌∷◌, ◌++◌, arith, ltb, ◌==◌, ◌||◌, not, all,
  any, codes,
}
use hostctl.Provider.Failover.{is_name_start, is_name_rest, is_environment_name}
use hostctl.Shell.Text.{Text, text_value}
use hostctl.Shell.Cmd.{caret, echo_argument, escape_for_one_parse, environment_assignment}
use hostctl.Shell.Cmd.Caret.{
  is_meta, prefixed, prefixed-some, caret_parse, caret_parse-plain, replace_each-careted,
  parse-careted,
}

-- One more parse by cmd gives back the line that `CmdShellFlavour.escape_for_one_parse` was given, if
-- the line has no line end.
pub parse-escape_for_one_parse :
    (line : Text)
    → any (λ c. c == b'\n' || c == b'\r') line ≡ false
    → caret_parse false (escape_for_one_parse line) ≡ some line
unfolding escape_for_one_parse echo_argument
parse-escape_for_one_parse line h =
    rw (replace_each-careted (codes "&|<>()\"%!") line refl refl) (parse-careted line h)

abbrev is_plain : ℕ → Bool
is_plain c = not (c == caret || is_meta c)

parse_plain :
    (s tail : Text)
    → all is_plain s ≡ true
    → caret_parse false (s ++ tail) ≡ prefixed s (caret_parse false tail)
parse_plain [] tail h = refl
parse_plain (c ∷ s) tail h =
    caret_parse-plain c (s ++ tail) (ground arith) (ground arith)
    ∙ ap (λ r. prefixed (c ∷ []) r) (parse_plain s tail (ground arith))

name-plain : (c : ℕ) → is_name_rest c ≡ true → is_plain c ≡ true
unfolding is_name_rest is_name_start is_meta
name-plain c h = ground arith

names-plain : (s : Text) → all is_name_rest s ≡ true → all is_plain s ≡ true
names-plain [] h = refl
names-plain (c ∷ s) h = ground (arith, names-plain s, name-plain c)

environment_name-rest :
    (name : Text) → is_environment_name name ≡ true → all is_name_rest name ≡ true
unfolding is_environment_name is_name_rest
environment_name-rest [] h = refl
environment_name-rest (c ∷ name) h = ground arith

pub one_line :
    (s : Text)
    → any (λ c. ltb c 32 || c == 127) s ≡ false
    → any (λ c. c == b'\n' || c == b'\r') s ≡ false
one_line [] h = refl
one_line (c ∷ s) h = ground (arith, one_line s)

environment_assignment-some :
    (key value line : Text)
    → environment_assignment key value ≡ some line
    → (line ≡ codes "set " ++ key ++ b'=' ∷ escape_for_one_parse value)
      × (any (λ c. ltb c 32 || c == 127) value ≡ false)
unfolding environment_assignment text_value escape_for_one_parse
environment_assignment-some key value line h = ground arith

set-plain : all is_plain (codes "set ") ≡ true
unfolding is_meta
set-plain = refl

equals-plain : all is_plain (b'=' ∷ []) ≡ true
unfolding is_meta
equals-plain = refl

parse_set :
    (key text value : Text)
    → is_environment_name key ≡ true
    → caret_parse false text ≡ some value
    → caret_parse false (codes "set " ++ (key ++ b'=' ∷ text))
      ≡ some (codes "set " ++ (key ++ b'=' ∷ value))
parse_set key text value h e =
    parse_plain (codes "set ") (key ++ b'=' ∷ text) set-plain
    ∙ ap (prefixed (codes "set ")) (
        parse_plain key (b'=' ∷ text) (names-plain key (environment_name-rest key h))
        ∙ ap (prefixed key)
            (parse_plain (b'=' ∷ []) text equals-plain ∙ ap (prefixed (b'=' ∷ [])) e)
        ∙ prefixed-some key (b'=' ∷ value))

-- cmd takes the assignment of a value to a valid name as `set`, the name, `=` and the value as it
-- is.
pub parse-environment_assignment :
    (key value line : Text)
    → is_environment_name key ≡ true
    → environment_assignment key value ≡ some line
    → caret_parse false line ≡ some (codes "set " ++ key ++ b'=' ∷ value)
parse-environment_assignment key value line h e =
    let (same, clean) = environment_assignment-some key value line e in
    rw same (
      parse_set key (escape_for_one_parse value) value h
        (parse-escape_for_one_parse value (one_line value clean)))
