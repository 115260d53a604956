-- ===== src/Shell/Cmd.antt =====
-- shell/_cmd.py: the three layers of quoting for cmd.exe.
pub mod Caret
pub mod Crt
pub mod Argument
pub mod Operand
pub mod Expansion
pub mod Batch
pub mod Builtin
pub mod Assignment
pub mod Target
pub mod Command
pub mod Visible
pub mod Lines
mod Tests
use hostctl.Prelude.{
  ℕ, zero, suc, ◌+◌, ◌*◌, Bool, true, false, Option, none, some, List, [], ◌∷◌, ◌++◌, leb, ◌==◌,
  ◌&&◌, ◌||◌, not, if◌then◌else◌, all, any, null, codes,
}
use mathlib.Core.List.{flatten}
use hostctl.Shell.Text.{Text, quotation, backslash, among, replace, is_ascii_alnum, text_value}

abbrev pub caret : ℕ
caret = 94

abbrev pub percent : ℕ
percent = 37

-- `str.isspace` of one character.
unfoldable pub is_space : ℕ → Bool
is_space c =
    (leb 9 c && leb c 13)
    || (leb 28 c && leb c 32)
    || (leb 8192 c && leb c 8202)
    || among c (133 ∷ 160 ∷ 5760 ∷ 8232 ∷ 8233 ∷ 8239 ∷ 8287 ∷ 12288 ∷ [])

-- `text.replace(c, "^" + c)` for each character in turn.
unfoldable pub replace_each : List ℕ → Text → Text
replace_each [] s = s
replace_each (c ∷ cs) s = replace_each cs (replace c (caret ∷ c ∷ []) s)

-- `"\\" * n`
unfoldable pub slashes : ℕ → Text
slashes zero = []
slashes (suc n) = backslash ∷ slashes n

-- The loop of `_argument` over the caret-escaped value, `n` backslashes pending.
unfoldable pub escape_loop : Text → ℕ → Text
unfolding slashes
escape_loop [] n = slashes (n * 2)
escape_loop (c ∷ s) n =
    let more = escape_loop s (n + 1) in
    let rest = escape_loop s 0 in
    if c == backslash
    then more
    else if c == quotation
    then slashes (n * 2 + 1) ++ caret ∷ quotation ∷ rest
    else slashes n ++ c ∷ rest

-- `_argument`
unfoldable pub argument : Text → Text
unfolding is_space replace_each escape_loop
argument value =
    if not (null value) && not (any (λ c. is_space c || among c (codes "&|<>()@^\"%!")) value)
    then value
    else caret ∷ quotation ∷ escape_loop (replace_each (codes "^%!&|<>()") value) 0
      ++ caret ∷ quotation ∷ []

-- `_echo_argument`
unfoldable pub echo_argument : Text → Text
unfolding replace_each
echo_argument value = replace_each (codes "^&|<>()\"%!") value

-- `CmdShellFlavour.quote`
unfoldable pub quote : Text → Option Text
unfolding text_value
quote value = elim (text_value value) [ none ↦ none | some s ↦ some (argument s) ]

-- `CmdShellFlavour.escape_for_one_parse`
unfoldable pub escape_for_one_parse : Text → Text
escape_for_one_parse text = echo_argument text

-- `CmdShellFlavour.environment_assignment`
unfoldable pub environment_assignment : Text → Text → Option Text
unfolding text_value
environment_assignment key value = elim (text_value value) [
  | none ↦ none
  | some s ↦ some (codes "set " ++ key ++ b'=' ∷ echo_argument s)
]

-- A span in quotes.
unfoldable pub span_part : Text → Text
span_part span = quotation ∷ span ++ quotation ∷ []

-- The loop of `_builtin_argument`, with its span and the parts so far.
unfoldable pub builtin_loop : Text → Text → List Text → List Text
unfolding span_part
builtin_loop [] span parts =
    if not (null span) || null parts then parts ++ span_part span ∷ [] else parts
builtin_loop (c ∷ s) span parts =
    let closed = if null span then parts else parts ++ span_part span ∷ [] in
    let cut = builtin_loop s [] (closed ++ (caret ∷ c ∷ []) ∷ []) in
    let more = builtin_loop s (span ++ c ∷ []) parts in
    if c == percent || c == quotation then cut else more

-- `_builtin_argument`; `unicode_alnum` is `str.isalnum` beyond ASCII.
unfoldable pub builtin_argument : (ℕ → Bool) → Text → Text
unfolding builtin_loop
builtin_argument unicode_alnum text =
    let safe =
      λ (c : ℕ). is_ascii_alnum c || (leb 128 c && unicode_alnum c) || among c (codes "._-:\\/") in
    if not (null text) && all safe text then text else flatten (builtin_loop text [] [])

-- `%%cd:~,%`, which cmd expands to one percent sign.
abbrev pub batch_percent : Text
batch_percent = codes "%%cd:~,%"

-- The loop of `_batch_token`, `n` backslashes pending.
unfoldable pub batch_loop : Text → ℕ → Text
unfolding slashes
batch_loop [] n = slashes (n * 2)
batch_loop (c ∷ s) n =
    let more = batch_loop s (n + 1) in
    let rest = batch_loop s 0 in
    if c == backslash
    then more
    else if c == quotation
    then slashes (n * 2) ++ (quotation ∷ quotation ∷ rest)
    else if c == percent
    then slashes n ++ (batch_percent ++ rest)
    else slashes n ++ (c ∷ rest)

-- `_batch_token`
unfoldable pub batch_token : Text → Text
unfolding batch_loop
batch_token text = quotation ∷ (batch_loop text 0 ++ quotation ∷ [])

-- `_program`: `none` is its `ValueError`.
unfoldable pub program : Text → Option Text
unfolding is_space
program path =
    if among quotation path
    then none
    else if any is_space path
    then some (quotation ∷ path ++ quotation ∷ [])
    else some path
