-- ===== src/Uri/Credentials/Written.antt =====
-- `parse_credentials` of uri/_parse.py reads back credentials that are written one per line.
use hostctl.Prelude.{
  ℕ, Bool, true, false, not, ◌≡◌, refl, ap, sym, ◌∙◌, ◌||◌, map, [], ◌∷◌, ◌++◌, all, any, null,
  ◌==◌, arith, ok, append_assoc, append-nil,
}
use hostctl.Shell.Text.{Text, same_text, among}
use hostctl.Uri.Credentials.{
  is_line_end, is_whitespace, split_lines, strip, partition, Extras, set_extra, add_line, add_lines,
  from_lines, parse_credentials,
}

abbrev pub one_line : Text → Bool
one_line text = not (any is_line_end text)

is_line_end-return : (c : ℕ) → is_line_end c ≡ false → (c == 13) ≡ false
unfolding is_line_end
is_line_end-return c h = ground arith

one_line-head : (c : ℕ) (cs : Text) → one_line (c ∷ cs) ≡ true → is_line_end c ≡ false
one_line-head c cs h = ground arith

one_line-tail : (c : ℕ) (cs : Text) → one_line (c ∷ cs) ≡ true → one_line cs ≡ true
one_line-tail c cs h = ground arith

split_lines-one :
    (c : ℕ) (cs : Text) → one_line (c ∷ cs) ≡ true → split_lines (c ∷ cs) ≡ (c ∷ cs) ∷ []
unfolding split_lines
split_lines-one c [] h =
    let plain = one_line-head c [] h in rw (is_line_end-return c plain, plain) refl
split_lines-one c (d ∷ cs) h =
    let plain = one_line-head c (d ∷ cs) h in
    rw (is_line_end-return c plain, plain, split_lines-one d cs (one_line-tail c (d ∷ cs) h)) refl

split_lines-append :
    (line rest : Text)
    → one_line line ≡ true
    → split_lines (line ++ 10 ∷ rest) ≡ line ∷ split_lines rest
unfolding split_lines is_line_end
split_lines-append [] rest h = refl
split_lines-append (c ∷ cs) rest h =
    let plain = one_line-head c cs h in
    rw (is_line_end-return c plain, plain, split_lines-append cs rest (one_line-tail c cs h)) refl

abbrev pub line_of : Text × Text → Text
line_of extra = extra.0 ++ b':' ∷ extra.1

-- The extras, one per line after the line of the password.
unfoldable pub written_extras : Extras → Text
written_extras [] = []
written_extras (extra ∷ extras) = 10 ∷ (line_of extra ++ written_extras extras)

-- A name that a line gives back as it is.
pub record IsName (casefold : Text → Text) (key : Text) : Type 0 where
  pub some_name : null key ≡ false
  pub plain : one_line key ≡ true
  pub no_colon : among b':' key ≡ false
  pub stripped : strip key ≡ key
  pub folded : casefold key ≡ key

unfoldable pub has_name : Text → Extras → Bool
has_name key [] = false
has_name key ((k, v) ∷ extras) = same_text k key || has_name key extras

partition-line :
    (key value : Text) → among b':' key ≡ false → partition (key ++ b':' ∷ value) ≡ (key, value)
unfolding partition
partition-line [] value h = refl
partition-line (c ∷ cs) value h =
    let tail : among b':' cs ≡ false = ground arith in
    let other : (c == b':') ≡ false = ground arith in rw (partition-line cs value tail, other) refl

not_blank : (key value : Text) → all is_whitespace (key ++ b':' ∷ value) ≡ false
unfolding is_whitespace
not_blank [] value = refl
not_blank (c ∷ cs) value = rw (not_blank cs value) (ground arith)

set_extra-fresh :
    (key value : Text) (extras : Extras)
    → has_name key extras ≡ false
    → set_extra key value extras ≡ extras ++ (key, value) ∷ []
unfolding set_extra has_name
set_extra-fresh key value [] h = refl
set_extra-fresh key value ((k, v) ∷ extras) h =
    let other : same_text k key ≡ false = ground arith in
    let rest : has_name key extras ≡ false = ground arith in
    rw (other, set_extra-fresh key value extras rest) refl

module _ (casefold : Text → Text) where
  -- Each name is valid and not among those before it, and each value is one line.
  abbrev pub Writable : Extras → Extras → Type 0
  Writable before [] = Unit
  Writable before ((key, value) ∷ extras) =
      IsName casefold key
      × (one_line value ≡ true)
      × (has_name key before ≡ false)
      × Writable (before ++ (key, value) ∷ []) extras

  one_line-append :
      (key value : Text)
      → one_line key ≡ true
      → one_line value ≡ true
      → one_line (key ++ b':' ∷ value) ≡ true
  unfolding is_line_end
  one_line-append [] value h k = k
  one_line-append (c ∷ cs) value h k =
      let plain = one_line-head c cs h in
      let rest = one_line-append cs value (one_line-tail c cs h) k in rw plain rest

  split_lines-some :
      (line : Text) → null line ≡ false → one_line line ≡ true → split_lines line ≡ line ∷ []
  split_lines-some [] e h = cc
  split_lines-some (c ∷ cs) e h = split_lines-one c cs h

  null-line : (key value : Text) → null (key ++ b':' ∷ value) ≡ false
  null-line [] value = refl
  null-line (c ∷ cs) value = refl

  split_lines-written :
      (line : Text) (before extras : Extras)
      → null line ≡ false
      → one_line line ≡ true
      → Writable before extras
      → split_lines (line ++ written_extras extras) ≡ line ∷ map line_of extras
  unfolding written_extras
  split_lines-written line before [] e h w = rw (append-nil line) (split_lines-some line e h)
  split_lines-written line before ((key, value) ∷ extras) e h (name, plain, fresh, w) =
      rw
        (
          split_lines-append line (line_of (key, value) ++ written_extras extras) h,
          split_lines-written (line_of (key, value)) (before ++ (key, value) ∷ []) extras
              (null-line key value) (one_line-append key value name.plain plain) w,
        )
        refl

  add_line-line :
      (key value : Text) (extras : Extras)
      → IsName casefold key
      → has_name key extras ≡ false
      → add_line casefold (line_of (key, value)) extras ≡ ok (extras ++ (key, value) ∷ [])
  unfolding add_line
  add_line-line key value extras name fresh =
      rw
        (
          not_blank key value,
          partition-line key value name.no_colon,
          name.stripped,
          name.folded,
          name.some_name,
          set_extra-fresh key value extras fresh,
        )
        refl

  add_lines-written :
      (before extras : Extras)
      → Writable before extras
      → add_lines casefold (map line_of extras) before ≡ ok (before ++ extras)
  unfolding add_lines
  add_lines-written before [] w = ap ok (sym (append-nil before))
  add_lines-written before ((key, value) ∷ extras) (name, plain, fresh, w) =
      rw (add_line-line key value before name fresh) (
        add_lines-written (before ++ (key, value) ∷ []) extras w
        ∙ ap ok (append_assoc before ((key, value) ∷ []) extras))

  from_lines-nil : from_lines casefold [] (split_lines []) ≡ ok ([], [])
  unfolding from_lines split_lines
  from_lines-nil = refl

  -- If the password and each value is one line, and the names are distinct, not empty, stripped,
  -- case-folded, and without a colon or a line end, then `parse_credentials` reads the password and the
  -- extras back from the text that has the password on its first line and each extra on one more.
  pub parse_credentials-written :
      (password : Text) (extras : Extras)
      → one_line password ≡ true
      → Writable [] extras
      → parse_credentials casefold (password ++ written_extras extras) ≡ ok (password, extras)
  unfolding parse_credentials from_lines written_extras
  parse_credentials-written [] [] h w = from_lines-nil
  parse_credentials-written (c ∷ cs) [] h w = rw (append-nil cs, split_lines-one c cs h) refl
  parse_credentials-written password ((key, value) ∷ extras) h (name, plain, fresh, w) =
      rw
        (
          split_lines-append password (line_of (key, value) ++ written_extras extras) h,
          split_lines-written (line_of (key, value)) ((key, value) ∷ []) extras
              (null-line key value) (one_line-append key value name.plain plain) w,
          add_lines-written [] ((key, value) ∷ extras) (name, plain, fresh, w),
        )
        refl
