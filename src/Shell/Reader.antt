-- ===== src/Shell/Reader.antt =====
-- A shell as the quoting rules see it: how it takes a line apart into words. Not code of the
-- repository; it is what the rules of shell/ are measured against.
pub mod Posix
pub mod Fish
use hostctl.Prelude.{
  ℕ, Bool, true, false, ◌≡◌, ◌⊎◌, Option, none, some, List, [], ◌∷◌, ◌++◌, ◌==◌, ◌&&◌, not, all,
  codes,
}
use hostctl.Shell.Text.{Text, tick, backslash, space, among}

-- The text of the word under way.
abbrev pub opened : Option Text → Text
opened none = []
opened (some w) = w

abbrev pub grown : Option Text → Text → Option Text
grown cur t = some (opened cur ++ t)

-- A word before the words of the rest.
abbrev pub word_before : Option Text → Option (List Text) → Option (List Text)
word_before cur none = none
word_before none (some ws) = some ws
word_before (some w) (some ws) = some (w ∷ ws)

-- The characters that mean themselves in single quotes to sh and fish alike.
abbrev pub is_ordinary : ℕ → Bool
is_ordinary c = not (c == tick) && not (c == backslash)

-- `words cur s` reads `s` outside quotes with the word `cur` under way; `none` is anything but a
-- list of plain words.
pub record Reader : Type 0 where
  pub words : Option Text → Text → Option (List Text)
  -- characters that need no quotes, the first of a word apart
  pub is_plain : ℕ → Bool
  pub at_end : (cur : Option Text) → words cur [] ≡ word_before cur (some [])
  pub at_space :
      (cur : Option Text) (s : Text) → words cur (space ∷ s) ≡ word_before cur (words none s)
  pub plain :
      (cur : Option Text) (c : ℕ) (s : Text)
      → is_plain c ≡ true
      → (c == b'=') ≡ false ⊎ (cur ≡ some (opened cur))
      → words cur (c ∷ s) ≡ words (grown cur (c ∷ [])) s
  pub quoted :
      (cur : Option Text) (t s : Text)
      → all is_ordinary t ≡ true
      → words cur (tick ∷ t ++ tick ∷ s) ≡ words (grown cur t) s
  pub escaped :
      (cur : Option Text) (c : ℕ) (s : Text)
      → is_ordinary c ≡ false
      → words cur (backslash ∷ c ∷ s) ≡ words (grown cur (c ∷ [])) s
