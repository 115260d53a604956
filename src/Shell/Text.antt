-- ===== src/Shell/Text.antt =====
-- What the flavours use of `str`, and `_text` of shell/_flavour.py.
use mathlib.Core.List.{flatten}
use hostctl.Prelude.{
  ◌≡◌, refl, sym, ap, ◌∙◌, append_assoc, arith, ℕ, Bool, true, false, Option, none, some, List, [],
  ◌∷◌, ◌++◌, ltb, leb, ◌==◌, ◌&&◌, ◌||◌, any, if◌then◌else◌,
}

abbrev pub Text : Type 0
Text = List ℕ

abbrev pub tick : ℕ
tick = 39

abbrev pub quotation : ℕ
quotation = 34

abbrev pub backslash : ℕ
backslash = 92

abbrev pub space : ℕ
space = 32

-- `c in "..."`
abbrev pub among : ℕ → List ℕ → Bool
among c [] = false
among c (d ∷ ds) = c == d || among c ds

pub among-append : (c : ℕ) (s t : Text) → among c (s ++ t) ≡ false → among c t ≡ false
among-append c [] t h = h
among-append c (d ∷ s) t h = among-append c s t (ground arith)

pub among-head : (c : ℕ) (s t : Text) → among c (s ++ t) ≡ false → among c s ≡ false
among-head c [] t h = refl
among-head c (d ∷ s) t h =
    let rest : among c s ≡ false = among-head c s t (ground arith) in ground arith

pub flatten-append : (xs ys : List Text) → flatten (xs ++ ys) ≡ flatten xs ++ flatten ys
unfolding flatten
flatten-append [] ys = refl
flatten-append (x ∷ xs) ys = ap (λ t. x ++ t) (flatten-append xs ys) ∙ sym (append_assoc x _ _)

-- `==` of two texts
abbrev pub same_text : Text → Text → Bool
same_text [] [] = true
same_text [] (d ∷ t) = false
same_text (c ∷ s) [] = false
same_text (c ∷ s) (d ∷ t) = c == d && same_text s t

-- `text.replace(c, by)` for one character `c`.
abbrev pub replace : ℕ → Text → Text → Text
replace c by [] = []
replace c by (d ∷ s) = (if d == c then by else d ∷ []) ++ replace c by s

-- `a-z`, `A-Z`, `0-9`
abbrev pub is_ascii_alnum : ℕ → Bool
is_ascii_alnum c =
    (leb b'a' c && leb c b'z') || (leb b'A' c && leb c b'Z') || (leb b'0' c && leb c b'9')

-- `_text`: `none` is its `ValueError`.
unfoldable pub text_value : Text → Option Text
text_value s = if any (λ c. ltb c 32 || c == 127) s then none else some s
