-- ===== src/Shell/Quote/FishWords.antt =====
-- fish reads what its flavour quotes.
use hostctl.Prelude.{
  ℕ, true, false, ◌≡◌, refl, ap, ◌∙◌, inl, inr, none, some, [], ◌∷◌, ◌++◌, append_assoc, append-nil,
  arith, ◌==◌, ==_iff, all, Bool-cases,
}
use hostctl.Shell.Text.{Text, tick, backslash, replace}
use hostctl.Shell.Reader.Fish
use hostctl.Shell.Quote.{is_fish_safe, fish_rule, fish_quote}

fish_slash :
    (w s : Text)
    → Fish.read Fish.single (some w) (backslash ∷ backslash ∷ s)
      ≡ Fish.read Fish.single (some (w ++ backslash ∷ [])) s
unfolding Fish.read
fish_slash w s = refl

fish_tick :
    (w s : Text)
    → Fish.read Fish.single (some w) (backslash ∷ tick ∷ s)
      ≡ Fish.read Fish.single (some (w ++ tick ∷ [])) s
unfolding Fish.read
fish_tick w s = refl

fish_other :
    (c : ℕ) (w s : Text)
    → (c == tick) ≡ false
    → (c == backslash) ≡ false
    → Fish.read Fish.single (some w) (c ∷ s) ≡ Fish.read Fish.single (some (w ++ c ∷ [])) s
unfolding Fish.read
fish_other c w s h k = ground arith

abbrev fish_escaped : Text → Text
fish_escaped s =
    replace tick (backslash ∷ tick ∷ []) (replace backslash (backslash ∷ backslash ∷ []) s)

fish_replaced :
    (t w s : Text)
    → Fish.read Fish.single (some w) (fish_escaped t ++ tick ∷ s)
      ≡ Fish.read Fish.bare (some (w ++ t)) s
fish_replaced [] w s = unfold Fish.read in rw append-nil
fish_replaced (c ∷ t) w s = elim (Bool-cases (c == backslash)) [
  | inl e ↦ rw e (
      fish_slash w _
      ∙ fish_replaced t (w ++ backslash ∷ []) s
      ∙ ap (λ v. Fish.read Fish.bare (some v) s)
          (rw ((==_iff c backslash).0 e) (append_assoc w (backslash ∷ []) t)))
  | inr e ↦ elim (Bool-cases (c == tick)) [
    | inl k ↦
        rw (e, k)
          (fish_tick w _
            ∙ fish_replaced t (w ++ tick ∷ []) s
            ∙ ap (λ v. Fish.read Fish.bare (some v) s)
                (rw ((==_iff c tick).0 k) (append_assoc w (tick ∷ []) t)))
    | inr k ↦
        rw (e, k)
          (fish_other c w _ k e
            ∙ fish_replaced t (w ++ c ∷ []) s
            ∙ ap (λ v. Fish.read Fish.bare (some v) s) (append_assoc w (c ∷ []) t))
  ]
]

fish_word :
    (t rest : Text)
    → Fish.read Fish.bare none ((tick ∷ fish_escaped t ++ tick ∷ []) ++ rest)
      ≡ Fish.read Fish.bare (some t) rest
fish_word t rest =
    ap (λ x. Fish.read Fish.bare none (tick ∷ x)) (append_assoc (fish_escaped t) (tick ∷ []) rest)
    ∙ (unfold Fish.read in fish_replaced t [] rest)

fish_safe-plain : (c : ℕ) → is_fish_safe c ≡ true → Fish.is_plain c ≡ true
unfolding is_fish_safe Fish.is_plain
fish_safe-plain c h = ground arith

fish_bare_more :
    (s w rest : Text)
    → all is_fish_safe s ≡ true
    → Fish.read Fish.bare (some w) (s ++ rest) ≡ Fish.read Fish.bare (some (w ++ s)) rest
fish_bare_more [] w rest h = rw append-nil
fish_bare_more (c ∷ s) w rest h =
    Fish.read_plain (some w) c (s ++ rest) (fish_safe-plain c (ground arith))
    ∙ fish_bare_more s (w ++ c ∷ []) rest (ground arith)
    ∙ ap (λ v. Fish.read Fish.bare (some v) rest) (append_assoc w (c ∷ []) s)

read-fish_rule :
    (s rest : Text)
    → Fish.read Fish.bare none (fish_rule s ++ rest) ≡ Fish.read Fish.bare (some s) rest
unfolding fish_rule
read-fish_rule [] rest = Fish.read_quoted none [] rest refl
read-fish_rule (c ∷ s) rest = elim (Bool-cases (all is_fish_safe (c ∷ s))) [
  | inl e ↦
      rw (e, fish_rule)
        (Fish.read_plain none c (s ++ rest) (fish_safe-plain c (ground arith))
          ∙ fish_bare_more s (c ∷ []) rest (ground arith))
  | inr e ↦ rw (e, fish_rule) (fish_word (c ∷ s) rest)
]

-- fish reads what `FishShellFlavour.quote` writes as a word of the value, whatever follows.
pub read-fish_quote :
    (value quoted rest : Text)
    → fish_quote value ≡ some quoted
    → Fish.read Fish.bare none (quoted ++ rest) ≡ Fish.read Fish.bare (some value) rest
unfolding fish_quote
read-fish_quote value quoted rest h =
    let same : quoted ≡ fish_rule value = ground arith in rw same (read-fish_rule value rest)
