-- ===== src/Shell/Quote/ShWords.antt =====
-- sh and zsh read what their flavours quote.
use hostctl.Prelude.{
  ℕ, Bool, true, false, ◌≡◌, refl, ap, ◌∙◌, inl, inr, Option, none, some, [], ◌∷◌, ◌++◌,
  append_assoc, append-nil, arith, ◌==◌, ==_iff, ◌&&◌, all, null, Bool-cases,
}
use hostctl.Shell.Text.{Text, tick, quotation, replace}
use hostctl.Shell.Reader.{opened, is_ordinary}
use hostctl.Shell.Reader.Posix
use hostctl.Shell.Quote.{
  is_shlex_safe, shlex_quote, posix_quote, starts_with_equals, zsh_rule, zsh_quote,
}

shlex_safe-plain : (c : ℕ) → is_shlex_safe c ≡ true → Posix.is_plain c ≡ true
unfolding is_shlex_safe Posix.is_plain
shlex_safe-plain c h = ground arith

module _ (equals : Bool) where
  -- the escaped quote `'"'"'` and any other character, in single quotes
  posix_tick :
      (w s : Text)
      → Posix.read equals Posix.single (some w) (tick ∷ quotation ∷ tick ∷ quotation ∷ tick ∷ s)
        ≡ Posix.read equals Posix.single (some (w ++ tick ∷ [])) s
  unfolding Posix.read Posix.is_active
  posix_tick w s = refl

  posix_open :
      (cur : Option Text) (s : Text)
      → Posix.read equals Posix.bare cur (tick ∷ s)
        ≡ Posix.read equals Posix.single (some (opened cur)) s
  unfolding Posix.read
  posix_open cur s = refl

  posix_other :
      (c : ℕ) (w s : Text)
      → (c == tick) ≡ false
      → Posix.read equals Posix.single (some w) (c ∷ s)
        ≡ Posix.read equals Posix.single (some (w ++ c ∷ [])) s
  unfolding Posix.read
  posix_other c w s h = ground arith

  posix_replaced :
      (t w s : Text)
      → Posix.read equals Posix.single
          (some w)
          (replace tick (tick ∷ quotation ∷ tick ∷ quotation ∷ tick ∷ []) t ++ tick ∷ s)
        ≡ Posix.read equals Posix.bare (some (w ++ t)) s
  posix_replaced [] w s = unfold Posix.read in rw append-nil
  posix_replaced (c ∷ t) w s = elim (Bool-cases (c == tick)) [
    | inl e ↦ rw e (
        posix_tick w _
        ∙ posix_replaced t (w ++ tick ∷ []) s
        ∙ ap (λ v. Posix.read equals Posix.bare (some v) s)
            (rw ((==_iff c tick).0 e) (append_assoc w (tick ∷ []) t)))
    | inr e ↦ rw e (
        posix_other c w _ e
        ∙ posix_replaced t (w ++ c ∷ []) s
        ∙ ap (λ v. Posix.read equals Posix.bare (some v) s) (append_assoc w (c ∷ []) t))
  ]

  posix_word :
      (t rest : Text)
      → Posix.read equals Posix.bare none (
          (tick ∷ replace tick (tick ∷ quotation ∷ tick ∷ quotation ∷ tick ∷ []) t ++ tick ∷ [])
          ++ rest)
        ≡ Posix.read equals Posix.bare (some t) rest
  posix_word t rest =
      ap (λ x. Posix.read equals Posix.bare none (tick ∷ x))
        (append_assoc (replace tick _ t) (tick ∷ []) rest)
      ∙ posix_open none _
      ∙ posix_replaced t [] rest

  posix_bare_more :
      (s w rest : Text)
      → all is_shlex_safe s ≡ true
      → Posix.read equals Posix.bare (some w) (s ++ rest)
        ≡ Posix.read equals Posix.bare (some (w ++ s)) rest
  posix_bare_more [] w rest h = rw append-nil
  posix_bare_more (c ∷ s) w rest h =
      Posix.read_bare equals (some w) c (s ++ rest) (shlex_safe-plain c (ground arith))
        (ground arith)
      ∙ posix_bare_more s (w ++ c ∷ []) rest (ground arith)
      ∙ ap (λ v. Posix.read equals Posix.bare (some v) rest) (append_assoc w (c ∷ []) s)

  posix_bare :
      (s rest : Text)
      → null s ≡ false
      → (equals && starts_with_equals s) ≡ false
      → all is_shlex_safe s ≡ true
      → Posix.read equals Posix.bare none (s ++ rest) ≡ Posix.read equals Posix.bare (some s) rest
  unfolding starts_with_equals
  posix_bare [] rest n k h = cc
  posix_bare (c ∷ s) rest n k h =
      Posix.read_bare equals none c (s ++ rest) (shlex_safe-plain c (ground arith)) (ground arith)
      ∙ posix_bare_more s (c ∷ []) rest (ground arith)

  -- the word that `shlex.quote` writes, unless zsh would expand it
  read-shlex_quote :
      (s rest : Text)
      → (equals && starts_with_equals (shlex_quote s)) ≡ false
      → Posix.read equals Posix.bare none (shlex_quote s ++ rest)
        ≡ Posix.read equals Posix.bare (some s) rest
  unfolding shlex_quote
  read-shlex_quote [] rest h = Posix.read_quoted equals none [] rest refl
  read-shlex_quote (c ∷ s) rest h = elim (Bool-cases (all is_shlex_safe (c ∷ s))) [
    | inl e ↦ rw (e, shlex_quote) (posix_bare (c ∷ s) rest refl (rw (e, shlex_quote) at h) e)
    | inr e ↦ rw (e, shlex_quote) (posix_word (c ∷ s) rest)
  ]

-- A shell that does not expand `=` reads what `PosixShellFlavour.quote` writes as a word of the value,
-- whatever follows.
pub read-posix_quote :
    (value quoted rest : Text)
    → posix_quote value ≡ some quoted
    → Posix.read false Posix.bare none (quoted ++ rest)
      ≡ Posix.read false Posix.bare (some value) rest
unfolding posix_quote
read-posix_quote value quoted rest h =
    let same : quoted ≡ shlex_quote value = ground arith in
    rw same (read-shlex_quote false value rest refl)

shlex_safe-ordinary : (c : ℕ) → is_shlex_safe c ≡ true → is_ordinary c ≡ true
unfolding is_shlex_safe
shlex_safe-ordinary c h = ground arith

all_ordinary : (s : Text) → all is_shlex_safe s ≡ true → all is_ordinary s ≡ true
all_ordinary [] h = refl
all_ordinary (c ∷ s) h = ground (arith, all_ordinary s, shlex_safe-ordinary c)

-- a quoted value that begins with `=` is the bare value
shlex_quote-equals :
    (s : Text)
    → starts_with_equals (shlex_quote s) ≡ true
    → (shlex_quote s ≡ s) × (all is_shlex_safe s ≡ true)
unfolding shlex_quote starts_with_equals
shlex_quote-equals [] h = cc
shlex_quote-equals (c ∷ s) h = ground arith

read-zsh_rule :
    (s rest : Text)
    → Posix.read true Posix.bare none (zsh_rule s ++ rest)
      ≡ Posix.read true Posix.bare (some s) rest
unfolding zsh_rule
read-zsh_rule s rest = elim (Bool-cases (starts_with_equals (shlex_quote s))) [
  | inl e ↦
      let (same, safe) = shlex_quote-equals s e in
      rw (e, zsh_rule, same)
        (simp append_assoc (Posix.read_quoted true none s rest (all_ordinary s safe)))
  | inr e ↦ rw (e, zsh_rule) (read-shlex_quote true s rest e)
]

-- zsh with its `equals` option reads what `ZshShellFlavour.quote` writes as a word of the value,
-- whatever follows.
pub read-zsh_quote :
    (value quoted rest : Text)
    → zsh_quote value ≡ some quoted
    → Posix.read true Posix.bare none (quoted ++ rest)
      ≡ Posix.read true Posix.bare (some value) rest
unfolding zsh_quote
read-zsh_quote value quoted rest h =
    let same : quoted ≡ zsh_rule value = ground arith in rw same (read-zsh_rule value rest)
