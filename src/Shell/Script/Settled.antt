-- ===== src/Shell/Script/Settled.antt =====
-- `ShellFlavour.join` of shell/_flavour.py: what its state keeps from one token to the next.
use hostctl.Prelude.{
  false, ◌≡◌, refl, sym, ap, ◌∙◌, Option, none, some, List, [], ◌∷◌, append-nil, arith, ◌||◌, not,
  null, ok, err, ◌>>=◌, Bool-cases, Result-cases, WhenOk, WhenOk-bind, WhenOk-of, inl, inr,
}
use mathlib.Core.List.{flatten}
use hostctl.Shell.Text.{Text, among, among-append}
use hostctl.Shell.Script.{
  ShellFlavour, ShellToken, ShellOperator, Command, operator_token, command_token, command_text,
  redirect_operand,
}
use hostctl.Shell.Script.Joining.{
  Joining, last, added, redirected, placed, join_command, join_step, join_loop, start, finished,
  join,
}
use hostctl.Shell.Script.Shifted.{null-append}

module _ (f : ShellFlavour) where
  -- What the state keeps between two passes.
  abbrev pub IsSettled : Joining → Type 0
  IsSettled st =
      (st.has_command ≡ not (null st.result))
      × (st.expecting_command ≡ false
          → (st.pending ≡ f.command_separator) × (st.redirecting ≡ none))

  added-IsSettled :
      (st : Joining) (more : List Text) → null more ≡ false → IsSettled (added f st more)
  unfolding added
  added-IsSettled st more h = (rw (null-append st.result more h) refl, λ _. (refl, refl))

  redirected-IsSettled :
      (st : Joining) (op : ShellOperator) (c : Command) (s : Text)
      → IsSettled st
      → WhenOk IsSettled (redirected f st op c s)
  unfolding redirected
  redirected-IsSettled st op c [] h = h
  redirected-IsSettled st op c (d ∷ s) h =
      WhenOk-bind IsSettled _ (λ text. added-IsSettled st (text ∷ []) refl)
        (f.redirect op c (d ∷ s))

  placed-IsSettled : (st : Joining) (s : Text) → IsSettled st → WhenOk IsSettled (placed f st s)
  unfolding placed
  placed-IsSettled st [] h = h
  placed-IsSettled st (d ∷ s) h = added-IsSettled st _ (ground arith)

  join_command-IsSettled :
      (st : Joining) (c : Command) (o : Option ShellOperator)
      → IsSettled st
      → WhenOk IsSettled (join_command f st c o)
  unfolding join_command
  join_command-IsSettled st c (some op) h =
      WhenOk-bind IsSettled _ (λ s. redirected-IsSettled st op c s h) (redirect_operand f c)
  join_command-IsSettled st c none h =
      WhenOk-bind IsSettled _ (λ s. placed-IsSettled st s h) (command_text f c)

  join_step-IsSettled :
      (st : Joining) (t : ShellToken) → IsSettled st → WhenOk IsSettled (join_step f st t)
  unfolding join_step
  join_step-IsSettled st (command_token c) h = join_command-IsSettled st c st.redirecting h
  join_step-IsSettled st (operator_token op) h =
      elim (Bool-cases (not st.has_command || st.expecting_command)) [
        | inl e ↦ rw e tt
        | inr e ↦ rw e (WhenOk-bind IsSettled _ (λ text. (h.0, λ x. cc)) (f.operator op))
      ]

  join_loop-IsSettled :
      (st : Joining) (ts : List ShellToken) → IsSettled st → WhenOk IsSettled (join_loop f st ts)
  unfolding join_loop
  join_loop-IsSettled st [] h = h
  join_loop-IsSettled st (t ∷ ts) h = elim (Result-cases (join_step f st t)) [
    | inl (st', e) ↦
        rw e (join_loop-IsSettled st' ts (WhenOk-of IsSettled _ st' (join_step-IsSettled st t h) e))
    | inr (x, e) ↦ rw e tt
  ]

  -- The last piece of a text without a newline has none.
  pub among-last :
      (pieces : List Text) → among 10 (flatten pieces) ≡ false → among 10 (last pieces) ≡ false
  unfolding flatten last
  among-last [] h = refl
  among-last (s ∷ []) h = rw (sym (append-nil s)) h
  among-last (s ∷ t ∷ pieces) h = among-last (t ∷ pieces) (among-append 10 s _ h)

  pub finished-ok :
      (st : Joining) (s : Text)
      → finished f st ≡ ok s
      → (st.expecting_command ≡ false) × (flatten st.result ≡ s)
  unfolding finished
  finished-ok st s h = (ground arith, ground arith)

  -- A script of `join`, and the state that its loop ended in.
  pub joined_state :
      (ts : List ShellToken) (s : Text)
      → join f ts ≡ ok s
      → (st : Joining) × (join_loop f (start f) ts ≡ ok st) × (finished f st ≡ ok s) × IsSettled st
  unfolding join
  joined_state ts s h = elim (Result-cases (join_loop f (start f) ts)) [
    | inl (st, e) ↦ (
      st,
      e,
      sym (ap (λ r. r >>= finished f) e) ∙ h,
      WhenOk-of IsSettled _ st (join_loop-IsSettled (start f) ts (refl, λ _. (refl, refl))) e,
    )
    | inr (x, e) ↦ let failed : err x ≡ ok s = sym (ap (λ r. r >>= finished f) e) ∙ h in cc
  ]
