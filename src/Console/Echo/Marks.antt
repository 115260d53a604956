-- ===== src/Console/Echo/Marks.antt =====
-- The marks of console/_posix.py that a token follows. A text is clean if it has none, and a piece of
-- text is sealed if it neither has nor begins one, whatever follows it.
use hostctl.Prelude.{
  ℕ, ◌≤◌, Bool, true, false, ◌≡◌, refl, ap, sym, ◌∙◌, none, List, [], ◌∷◌, ◌++◌, length,
  length-append, drop, not, ◌&&◌, ◌||◌, leb, ◌==◌, All, codes, arith, Bool-cases, inl, inr,
  append_assoc, append-nil,
}
use hostctl.Prelude.Search.{begins_with, find}
use hostctl.Console.Typed.{joined_by}

unfoldable pub is_hex : ℕ → Bool
is_hex c = (leb b'0' c && leb c b'9') || (leb b'a' c && leb c b'f')

-- A text with no underscore.
abbrev pub IsPlain : List ℕ → Type 0
IsPlain = All (λ c. (c == b'_') ≡ false)

abbrev hex_head : List ℕ → Bool
hex_head [] = false
hex_head (c ∷ cs) = is_hex c

-- The word, and then a token.
unfoldable pub opens_by : List ℕ → List ℕ → Bool
opens_by word text = begins_with word text && hex_head (drop (length word) text)

unfoldable pub opens : List ℕ → Bool
opens text =
    opens_by (codes "__ST") text
    || opens_by (codes "__OUT") text
    || opens_by (codes "__EN") text
    || opens_by (codes "__AK") text

unfoldable pub clean : List ℕ → Bool
clean [] = true
clean (c ∷ cs) = let more = clean cs in not (opens (c ∷ cs)) && more

pub record Sealed (piece : List ℕ) : Type 0 where
  pub before : (rest : List ℕ) → clean (piece ++ rest) ≡ clean rest

pub make_Sealed :
    (piece : List ℕ) → ((rest : List ℕ) → clean (piece ++ rest) ≡ clean rest) → Sealed piece
make_Sealed piece h = record { before = h }

pub append-Sealed : {a b : List ℕ} → Sealed a → Sealed b → Sealed (a ++ b)
append-Sealed {a} {b} h k = record {
  before = λ rest. ap clean (append_assoc a b rest) ∙ (h.before (b ++ rest) ∙ k.before rest);
}

clean-plain : (piece rest : List ℕ) → IsPlain piece → clean (piece ++ rest) ≡ clean rest
unfolding clean opens opens_by begins_with
clean-plain [] rest h = refl
clean-plain (c ∷ cs) rest (plain, h) = ground (arith, clean-plain cs rest h)

pub plain-Sealed : (piece : List ℕ) → IsPlain piece → Sealed piece
plain-Sealed piece h = record { before = λ rest. clean-plain piece rest h }

pub joined_by-Sealed :
    (sep : List ℕ) (parts : List (List ℕ))
    → Sealed sep
    → All Sealed parts
    → Sealed (joined_by sep parts)
joined_by-Sealed sep [] h k = make_Sealed [] (λ rest. refl)
joined_by-Sealed sep (part ∷ []) h (one, k) = one
joined_by-Sealed sep (part ∷ next ∷ parts) h (one, k) =
    append-Sealed one (append-Sealed h (joined_by-Sealed sep (next ∷ parts) h k))

pub clean-Sealed : (piece : List ℕ) → Sealed piece → clean piece ≡ true
unfolding clean
clean-Sealed piece h = ap clean (sym (append-nil piece)) ∙ h.before []

-- the marker begins with the word and a token
begins_with-opens :
    (word text rest : List ℕ) (c : ℕ)
    → is_hex c ≡ true
    → opens_by word text ≡ false
    → begins_with (word ++ c ∷ rest) text ≡ false
unfolding opens_by begins_with
begins_with-opens [] [] rest c h k = refl
begins_with-opens [] (x ∷ text) rest c h k = elim (Bool-cases (c == x)) [
  | inl e ↦
      let same : c ≡ x = ground arith in
      (let never : true ≡ false = sym h ∙ (ap is_hex same ∙ k) in cc)
  | inr e ↦ ground arith
]
begins_with-opens (w ∷ word) [] rest c h k = refl
begins_with-opens (w ∷ word) (x ∷ text) rest c h k =
    ground (arith, begins_with-opens word text rest c h)

-- One of the four words.
pub record IsWord (word : List ℕ) : Type 0 where
  pub long : 1 ≤ length word
  pub opened : (text : List ℕ) → opens text ≡ false → opens_by word text ≡ false

pub start_IsWord : IsWord (codes "__ST")
unfolding opens
start_IsWord = record { long = omega arith; opened = λ text h. ground arith }

pub mid_IsWord : IsWord (codes "__OUT")
unfolding opens
mid_IsWord = record { long = omega arith; opened = λ text h. ground arith }

pub end_IsWord : IsWord (codes "__EN")
unfolding opens
end_IsWord = record { long = omega arith; opened = λ text h. ground arith }

pub ack_IsWord : IsWord (codes "__AK")
unfolding opens
ack_IsWord = record { long = omega arith; opened = λ text h. ground arith }

begins_with_nothing : (m : List ℕ) → 1 ≤ length m → begins_with m [] ≡ false
unfolding begins_with
begins_with_nothing [] l = absurd (omega arith)
begins_with_nothing (x ∷ m) l = refl

module _ (word : List ℕ) (w : IsWord word) (c : ℕ) (h : is_hex c ≡ true) (rest : List ℕ) where
  -- a marker is not found in a clean text
  pub find-clean : (text : List ℕ) → clean text ≡ true → find (word ++ c ∷ rest) text ≡ none
  unfolding find clean
  find-clean [] k =
      let long = w.long in
      let both = length-append word (c ∷ rest) in
      rw (begins_with_nothing (word ++ c ∷ rest) (omega arith)) refl
  find-clean (x ∷ text) k =
      let closed : opens (x ∷ text) ≡ false = ground arith in
      let later : clean text ≡ true = ground arith in
      rw
        (
          begins_with-opens word (x ∷ text) rest c h (w.opened (x ∷ text) closed),
          find-clean text later,
        )
        refl
