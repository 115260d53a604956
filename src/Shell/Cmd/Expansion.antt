-- ===== src/Shell/Cmd/Expansion.antt =====
-- cmd expands what `_batch_token` of shell/_cmd.py writes for a percent sign. `expand` is a rule of cmd
-- run with `/v:off`, not code of the repository.
use hostctl.Prelude.{
  ℕ, zero, suc, ◌+◌, ◌*◌, true, false, ◌≡◌, refl, ap, ◌∙◌, sym, Option, none, some, [], ◌∷◌, ◌++◌,
  append_assoc, ◌==◌, ==_iff, if◌then◌else◌, codes, Bool-cases, inl, inr,
}
use hostctl.Shell.Text.{Text, quotation, backslash, same_text}
use hostctl.Shell.Cmd.{percent, slashes, batch_percent, batch_loop}
use hostctl.Shell.Cmd.Caret.{prefix, prefixed, prefixed-append}

-- Plain text, or after a percent sign: the name so far, or a name and what follows its colon.
pub data Expanding : Type 0 where
  plain : Expanding
  named : Text → Expanding
  modified : Text → Text → Expanding

module _ (value_of : Text → Option Text) where
  -- cmd's expansion of a command line. A variable that is not defined leaves its first percent sign and
  -- its name as they are, and the second sign may begin a name again. Of the parts of a value, only
  -- `~,`, the empty one, is modelled: `none` for any other.
  unfoldable pub expand : Expanding → Text → Option Text
  expand plain [] = some []
  expand (named name) [] = some (percent ∷ name)
  expand (modified name part) [] = some (percent ∷ name ++ b':' ∷ part)
  expand plain (c ∷ s) =
      let enter = expand (named []) s in
      let rest = expand plain s in if c == percent then enter else prefix c rest
  expand (named name) (c ∷ s) =
      let again = expand (named []) s in
      let rest = expand plain s in
      let parted = expand (modified name []) s in
      let further = expand (named (name ++ c ∷ [])) s in
      if c == percent
      then elim (value_of name) [
        | some value ↦ prefixed value rest
        | none ↦ prefix percent (prefixed name again)
      ]
      else if c == b':'
      then elim (value_of name) [
        | some value ↦ parted
        | none ↦ prefix percent (prefixed name (prefix c rest))
      ]
      else further
  expand (modified name part) (c ∷ s) =
      let rest = expand plain s in
      let further = expand (modified name (part ++ c ∷ [])) s in
      if c == percent then if same_text part (codes "~,") then rest else none else further

-- `batch_loop` with plain percent signs.
unfoldable pub double_loop : Text → ℕ → Text
double_loop [] n = slashes (n * 2)
double_loop (c ∷ s) n =
    let more = double_loop s (n + 1) in
    let rest = double_loop s 0 in
    if c == backslash
    then more
    else if c == quotation
    then slashes (n * 2) ++ (quotation ∷ quotation ∷ rest)
    else slashes n ++ (c ∷ rest)

loop_more :
    (c : ℕ) (s : Text) (n : ℕ)
    → (c == backslash) ≡ true
    → batch_loop (c ∷ s) n ≡ batch_loop s (n + 1)
unfolding batch_loop
loop_more c s n e = rw e refl

pub double_more :
    (c : ℕ) (s : Text) (n : ℕ)
    → (c == backslash) ≡ true
    → double_loop (c ∷ s) n ≡ double_loop s (n + 1)
unfolding double_loop
double_more c s n e = rw e refl

module _ (c : ℕ) (s : Text) (n : ℕ) (e : (c == backslash) ≡ false) where
  loop_quote :
      (c == quotation) ≡ true
      → batch_loop (c ∷ s) n ≡ slashes (n * 2) ++ (quotation ∷ quotation ∷ batch_loop s 0)
  unfolding batch_loop
  loop_quote q = rw (e, q) refl

  pub double_quote :
      (c == quotation) ≡ true
      → double_loop (c ∷ s) n ≡ slashes (n * 2) ++ (quotation ∷ quotation ∷ double_loop s 0)
  unfolding double_loop
  double_quote q = rw (e, q) refl

  pub double_plain :
      (c == quotation) ≡ false → double_loop (c ∷ s) n ≡ slashes n ++ (c ∷ double_loop s 0)
  unfolding double_loop
  double_plain q = rw (e, q) refl

  loop_percent :
      (c == quotation) ≡ false
      → (c == percent) ≡ true
      → batch_loop (c ∷ s) n ≡ slashes n ++ (batch_percent ++ batch_loop s 0)
  unfolding batch_loop
  loop_percent q p = rw (e, q, p) refl

  loop_plain :
      (c == quotation) ≡ false
      → (c == percent) ≡ false
      → batch_loop (c ∷ s) n ≡ slashes n ++ (c ∷ batch_loop s 0)
  unfolding batch_loop
  loop_plain q p = rw (e, q, p) refl

module _ (value_of : Text → Option Text) where
  pub expand-plain :
      (c : ℕ) (s : Text)
      → (c == percent) ≡ false
      → expand value_of plain (c ∷ s) ≡ prefix c (expand value_of plain s)
  unfolding expand
  expand-plain c s h = rw h refl

  expand-slashes :
      (n : ℕ) (s : Text)
      → expand value_of plain (slashes n ++ s) ≡ prefixed (slashes n) (expand value_of plain s)
  unfolding slashes
  expand-slashes zero s = refl
  expand-slashes (suc n) s =
      expand-plain backslash (slashes n ++ s) refl ∙ ap (prefix backslash) (expand-slashes n s)

  -- backslashes and then `u`, that is expanded to `v`
  expand_run :
      (m : ℕ) (u tail v : Text) (o : Option Text)
      → expand value_of plain (u ++ tail) ≡ prefixed v o
      → expand value_of plain ((slashes m ++ u) ++ tail) ≡ prefixed (slashes m ++ v) o
  expand_run m u tail v o h =
      ap (expand value_of plain) (append_assoc (slashes m) u tail)
      ∙ expand-slashes m (u ++ tail)
      ∙ ap (prefixed (slashes m)) h
      ∙ sym (prefixed-append (slashes m) v o)

  module _ (here : Text) (unnamed : value_of [] ≡ none)
      (cd : value_of (codes "cd") ≡ some here) where
    expand-percent :
        (s : Text)
        → expand value_of plain (batch_percent ++ s) ≡ prefix percent (expand value_of plain s)
    unfolding expand same_text
    expand-percent s = rw (unnamed, cd) refl

    pub expand-batch_loop :
        (s : Text) (n : ℕ) (tail : Text)
        → expand value_of plain (batch_loop s n ++ tail)
          ≡ prefixed (double_loop s n) (expand value_of plain tail)
    expand-batch_loop [] n tail = unfold batch_loop double_loop in expand-slashes (n * 2) tail
    expand-batch_loop (c ∷ s) n tail = elim (Bool-cases (c == backslash)) [
      | inl e ↦ rw (loop_more c s n e, double_more c s n e) (expand-batch_loop s (n + 1) tail)
      | inr e ↦ elim (Bool-cases (c == quotation)) [
        | inl q ↦
            rw (loop_quote c s n e q, double_quote c s n e q)
              (expand_run (n * 2) _ tail _ _ (
                expand-plain quotation _ refl
                ∙ ap (prefix quotation) (
                    expand-plain quotation _ refl
                    ∙ ap (prefix quotation) (expand-batch_loop s 0 tail))))
        | inr q ↦ elim (Bool-cases (c == percent)) [
          | inl p ↦
              rw (loop_percent c s n e q p, double_plain c s n e q)
                (expand_run n _ tail _ _ (
                  expand-percent (batch_loop s 0 ++ tail)
                  ∙ ap (prefix percent) (expand-batch_loop s 0 tail)
                  ∙ ap (λ k. prefix k (prefixed (double_loop s 0) (expand value_of plain tail)))
                      (sym ((==_iff c percent).0 p))))
          | inr p ↦
              rw (loop_plain c s n e q p, double_plain c s n e q)
                (expand_run n _ tail _ _
                  (expand-plain c _ p ∙ ap (prefix c) (expand-batch_loop s 0 tail)))
        ]
      ]
    ]
