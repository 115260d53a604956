-- ===== src/Shell/Reader/Posix.antt =====
-- sh, bash, dash and ash, and zsh with its `equals` option.
use hostctl.Prelude.{
  ℕ, ◌<◌, Bool, true, false, ◌≡◌, refl, ap, ◌∙◌, ◌⊎◌, Option, none, some, List, [], ◌∷◌, ◌++◌,
  append_assoc, append-nil, arith, ◌==◌, ◌&&◌, ◌||◌, not, if◌then◌else◌, all, codes,
}
use hostctl.Prelude.Bytes.{every_ascii, every_ascii-lt}
use hostctl.Shell.Text.{Text, tick, quotation, backslash, space, among, is_ascii_alnum}
use hostctl.Shell.Reader.{Reader, opened, grown, word_before, is_ordinary}

pub data Mode : Type 0 where
  bare single double escape : Mode

abbrev pub is_some {ℓ} : {A : Type ℓ} → Option A → Bool
is_some none = false
is_some (some a) = true

-- Characters with a meaning outside quotes.
unfoldable pub is_special : ℕ → Bool
is_special c = among c (codes "\t\n|&;<>()$`*?[]#~{}!^")

-- Characters with a meaning in double quotes.
unfoldable pub is_active : ℕ → Bool
is_active c = among c (codes "$`\\!")

-- `equals` says whether a word that begins with `=` is expanded.
unfoldable pub read : Bool → Mode → Option Text → Text → Option (List Text)
read equals bare cur [] = word_before cur (some [])
read equals bare cur (c ∷ s) =
    let next = read equals bare none s in
    let in_single = read equals single (some (opened cur)) s in
    let in_double = read equals double (some (opened cur)) s in
    let after_escape = read equals escape cur s in
    let more = read equals bare (grown cur (c ∷ [])) s in
    if c == space
    then word_before cur next
    else if c == tick
    then in_single
    else if c == quotation
    then in_double
    else if c == backslash
    then after_escape
    else if is_special c || (equals && c == b'=' && not (is_some cur))
    then none
    else more
read equals single cur [] = none
read equals single cur (c ∷ s) =
    let outside = read equals bare cur s in
    let more = read equals single (grown cur (c ∷ [])) s in if c == tick then outside else more
read equals double cur [] = none
read equals double cur (c ∷ s) =
    let outside = read equals bare cur s in
    let more = read equals double (grown cur (c ∷ [])) s in
    if c == quotation then outside else if is_active c then none else more
read equals escape cur [] = none
read equals escape cur (c ∷ s) =
    let more = read equals bare (grown cur (c ∷ [])) s in if c == b'\n' then none else more

-- The ASCII characters that `shlex.quote` leaves bare, `%` among them.
unfoldable pub is_plain : ℕ → Bool
is_plain c = is_ascii_alnum c || among c (codes "_@%+=:,./-")

-- a plain character is none of those that the reader acts on
acts : ℕ → Bool
acts c = c == space || c == tick || c == quotation || c == backslash || is_special c

plain_table : every_ascii (λ c. not (is_plain c) || not (acts c)) ≡ true
unfolding every_ascii is_plain acts is_special
plain_table = refl

is_plain-lt : (c : ℕ) → is_plain c ≡ true → c < 128
unfolding is_plain
is_plain-lt c h = ground arith

is_plain-acts : (c : ℕ) → is_plain c ≡ true → acts c ≡ false
is_plain-acts c h =
    let row = every_ascii-lt _ c plain_table (is_plain-lt c h) in ground (arith, row)

module _ (equals : Bool) where
  pub read_bare :
      (cur : Option Text) (c : ℕ) (s : Text)
      → is_plain c ≡ true
      → (equals && c == b'=' && not (is_some cur)) ≡ false
      → read equals bare cur (c ∷ s) ≡ read equals bare (grown cur (c ∷ [])) s
  unfolding read acts
  read_bare cur c s h k = ground (arith, is_plain-acts c h)

  pub read_plain :
      (cur : Option Text) (c : ℕ) (s : Text)
      → is_plain c ≡ true
      → ((c == b'=') ≡ false) ⊎ (cur ≡ some (opened cur))
      → read equals bare cur (c ∷ s) ≡ read equals bare (grown cur (c ∷ [])) s
  read_plain none c s h k = read_bare none c s h (ground arith)
  read_plain (some w) c s h k = read_bare (some w) c s h (ground arith)

  read_single_step :
      (c : ℕ) (w s : Text)
      → is_ordinary c ≡ true
      → read equals single (some w) (c ∷ s) ≡ read equals single (some (w ++ c ∷ [])) s
  unfolding read
  read_single_step c w s h = ground arith

  read_single :
      (t w s : Text)
      → all is_ordinary t ≡ true
      → read equals single (some w) (t ++ tick ∷ s) ≡ read equals bare (some (w ++ t)) s
  read_single [] w s h = unfold read in rw append-nil
  read_single (c ∷ t) w s h =
      read_single_step c w (t ++ tick ∷ s) (ground arith)
      ∙ read_single t (w ++ c ∷ []) s (ground arith)
      ∙ ap (λ v. read equals bare (some v) s) (append_assoc w (c ∷ []) t)

  pub read_quoted :
      (cur : Option Text) (t s : Text)
      → all is_ordinary t ≡ true
      → read equals bare cur (tick ∷ t ++ tick ∷ s) ≡ read equals bare (grown cur t) s
  unfolding read
  read_quoted cur t s h = read_single t (opened cur) s h

  pub read_escaped :
      (cur : Option Text) (c : ℕ) (s : Text)
      → is_ordinary c ≡ false
      → read equals bare cur (backslash ∷ c ∷ s) ≡ read equals bare (grown cur (c ∷ [])) s
  unfolding read
  read_escaped cur c s h = ground arith

  pub read-space :
      (cur : Option Text) (s : Text)
      → read equals bare cur (space ∷ s) ≡ word_before cur (read equals bare none s)
  unfolding read
  read-space cur s = refl

  pub read_end : (cur : Option Text) → read equals bare cur [] ≡ word_before cur (some [])
  unfolding read
  read_end cur = refl

  unfoldable pub posix : Reader
  posix = record {
    words = read equals bare;
    is_plain = is_plain;
    at_end = read_end;
    at_space = read-space;
    plain = read_plain;
    quoted = read_quoted;
    escaped = read_escaped;
  }
