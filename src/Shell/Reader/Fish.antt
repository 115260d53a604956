-- ===== src/Shell/Reader/Fish.antt =====
-- fish: a backslash in single quotes escapes a backslash and a quote.
use hostctl.Prelude.{
  ℕ, ◌<◌, Bool, true, false, ◌≡◌, refl, ap, ◌∙◌, Option, none, some, List, [], ◌∷◌, ◌++◌,
  append_assoc, append-nil, arith, ◌==◌, ◌||◌, not, if◌then◌else◌, all, codes,
}
use hostctl.Prelude.Bytes.{every_ascii, every_ascii-lt}
use hostctl.Shell.Text.{Text, tick, quotation, backslash, space, among, is_ascii_alnum}
use hostctl.Shell.Reader.{Reader, opened, grown, word_before, is_ordinary}

pub data Mode : Type 0 where
  bare single double escape single_escape : Mode

-- Characters with a meaning outside quotes.
unfoldable pub is_special : ℕ → Bool
is_special c = among c (codes "\t\n|&;<>()$*?[]#~{}!^%")

-- Characters with a meaning in double quotes.
unfoldable pub is_active : ℕ → Bool
is_active c = among c (codes "$\\")

unfoldable pub read : Mode → Option Text → Text → Option (List Text)
read bare cur [] = word_before cur (some [])
read bare cur (c ∷ s) =
    let next = read bare none s in
    let in_single = read single (some (opened cur)) s in
    let in_double = read double (some (opened cur)) s in
    let after_escape = read escape cur s in
    let more = read bare (grown cur (c ∷ [])) s in
    if c == space
    then word_before cur next
    else if c == tick
    then in_single
    else if c == quotation
    then in_double
    else if c == backslash
    then after_escape
    else if is_special c
    then none
    else more
read single cur [] = none
read single cur (c ∷ s) =
    let outside = read bare cur s in
    let after_escape = read single_escape cur s in
    let more = read single (grown cur (c ∷ [])) s in
    if c == tick then outside else if c == backslash then after_escape else more
read double cur [] = none
read double cur (c ∷ s) =
    let outside = read bare cur s in
    let more = read double (grown cur (c ∷ [])) s in
    if c == quotation then outside else if is_active c then none else more
read escape cur [] = none
read escape cur (c ∷ s) =
    let more = read bare (grown cur (c ∷ [])) s in
    if is_ascii_alnum c || c == b'\n' then none else more
read single_escape cur [] = none
read single_escape cur (c ∷ s) =
    let escaped = read single (grown cur (c ∷ [])) s in
    let more = read single (grown cur (backslash ∷ c ∷ [])) s in
    if c == tick || c == backslash then escaped else more

-- The characters that need no quotes.
unfoldable pub is_plain : ℕ → Bool
is_plain c = is_ascii_alnum c || among c (codes "@+=:,./-_")

-- a plain character is none of those that the reader acts on
acts : ℕ → Bool
acts c = c == space || c == tick || c == quotation || c == backslash || is_special c

plain_table : every_ascii (λ c. not (is_plain c) || not (acts c)) ≡ true
unfolding every_ascii is_plain acts is_special
plain_table = refl

is_plain-lt : (c : ℕ) → is_plain c ≡ true → c < 128
unfolding is_plain
is_plain-lt c h = ground arith

is_plain-acts : (c : ℕ) → is_plain c ≡ true → acts c ≡ false
is_plain-acts c h =
    let row = every_ascii-lt _ c plain_table (is_plain-lt c h) in ground (arith, row)

pub read_plain :
    (cur : Option Text) (c : ℕ) (s : Text)
    → is_plain c ≡ true
    → read bare cur (c ∷ s) ≡ read bare (grown cur (c ∷ [])) s
unfolding read acts
read_plain none c s h = ground (arith, is_plain-acts c h)
read_plain (some w) c s h = ground (arith, is_plain-acts c h)

read_single_step :
    (c : ℕ) (w s : Text)
    → is_ordinary c ≡ true
    → read single (some w) (c ∷ s) ≡ read single (some (w ++ c ∷ [])) s
unfolding read
read_single_step c w s h = ground arith

read_single :
    (t w s : Text)
    → all is_ordinary t ≡ true
    → read single (some w) (t ++ tick ∷ s) ≡ read bare (some (w ++ t)) s
read_single [] w s h = unfold read in rw append-nil
read_single (c ∷ t) w s h =
    read_single_step c w (t ++ tick ∷ s) (ground arith)
    ∙ read_single t (w ++ c ∷ []) s (ground arith)
    ∙ ap (λ v. read bare (some v) s) (append_assoc w (c ∷ []) t)

pub read_quoted :
    (cur : Option Text) (t s : Text)
    → all is_ordinary t ≡ true
    → read bare cur (tick ∷ t ++ tick ∷ s) ≡ read bare (grown cur t) s
unfolding read
read_quoted cur t s h = read_single t (opened cur) s h

pub read_escaped :
    (cur : Option Text) (c : ℕ) (s : Text)
    → is_ordinary c ≡ false
    → read bare cur (backslash ∷ c ∷ s) ≡ read bare (grown cur (c ∷ [])) s
unfolding read
read_escaped cur c s h = ground arith

pub read-space :
    (cur : Option Text) (s : Text) → read bare cur (space ∷ s) ≡ word_before cur (read bare none s)
unfolding read
read-space cur s = refl

pub read_end : (cur : Option Text) → read bare cur [] ≡ word_before cur (some [])
unfolding read
read_end cur = refl

unfoldable pub fish : Reader
fish = record {
  words = read bare;
  is_plain = is_plain;
  at_end = read_end;
  at_space = read-space;
  plain = λ cur c s h _. read_plain cur c s h;
  quoted = read_quoted;
  escaped = read_escaped;
}
