-- ===== src/Shell/Script/Shifted.antt =====
-- `ShellFlavour.join` of shell/_flavour.py: pieces put before what was joined so far change nothing else.
use hostctl.Prelude.{
  true, false, ◌≡◌, refl, ap, Option, none, some, List, [], ◌∷◌, ◌++◌, append_assoc, arith, ◌||◌,
  not, null, Result, ok, err, ◌>>=◌, Bool-cases, Result-cases, WhenOk, WhenOk-bind, WhenOk-of, inl,
  inr,
}
use hostctl.Shell.Text.{Text}
use hostctl.Shell.Script.{
  ShellFlavour, ShellToken, ShellOperator, Command, operator_token, command_token, command_text,
  redirect_operand,
}
use hostctl.Shell.Script.Joining.{
  Joining, last, added, link, redirected, placed, join_command, join_step, join_loop,
}

unfoldable pub shifted : List Text → Joining → Joining
shifted pieces st = record st { result = pieces ++ st.result }

unfoldable pub moved : List Text → Result Joining → Result Joining
unfolding shifted
moved pieces (ok st) = ok (shifted pieces st)
moved pieces (err e) = err e

last-append : (xs : List Text) (y : Text) (ys : List Text) → last (xs ++ y ∷ ys) ≡ last (y ∷ ys)
unfolding last
last-append [] y ys = refl
last-append (x ∷ []) y ys = refl
last-append (x ∷ z ∷ xs) y ys = last-append (z ∷ xs) y ys

last_of-append : (xs ys : List Text) → null ys ≡ false → last (xs ++ ys) ≡ last ys
last_of-append xs [] h = ground arith
last_of-append xs (y ∷ ys) h = last-append xs y ys

moved-bind :
    {A : Type 0} (pieces : List Text) (k k' : A → Result Joining)
    → ((a : A) → k' a ≡ moved pieces (k a))
    → (r : Result A) → (r >>= k') ≡ moved pieces (r >>= k)
unfolding moved
moved-bind pieces k k' h (ok a) = h a
moved-bind pieces k k' h (err e) = refl

moved-bind_shifted :
    (pieces : List Text) (k : Joining → Result Joining) (r : Result Joining)
    → (moved pieces r >>= k) ≡ (r >>= λ st. k (shifted pieces st))
unfolding moved
moved-bind_shifted pieces k (ok st) = refl
moved-bind_shifted pieces k (err e) = refl

pub null-append : (xs ys : List Text) → null ys ≡ false → null (xs ++ ys) ≡ false
null-append [] ys h = h
null-append (x ∷ xs) ys h = refl

module _ (f : ShellFlavour) where
  pub join_loop-append :
      (st : Joining) (xs ys : List ShellToken)
      → join_loop f st (xs ++ ys) ≡ (join_loop f st xs >>= λ st'. join_loop f st' ys)
  unfolding join_loop
  join_loop-append st [] ys = refl
  join_loop-append st (x ∷ xs) ys = elim (Result-cases (join_step f st x)) [
    | inl (st', e) ↦ rw e (join_loop-append st' xs ys)
    | inr (x', e) ↦ rw e refl
  ]

  added-shifted :
      (pieces : List Text) (st : Joining) (more : List Text)
      → added f (shifted pieces st) more ≡ shifted pieces (added f st more)
  unfolding shifted added
  added-shifted pieces st more =
      ap
        (λ r. record {
          result = r;
          pending = f.command_separator;
          redirecting = none;
          has_command = true;
          expecting_command = false;
        })
        (append_assoc pieces st.result more)

  link-shifted :
      (pieces : List Text) (st : Joining)
      → null st.result ≡ false
      → link f (shifted pieces st) ≡ link f st
  unfolding link shifted
  link-shifted pieces st h = rw (last_of-append pieces st.result h) refl

  redirected-shifted :
      (pieces : List Text) (st : Joining) (op : ShellOperator) (c : Command) (operand : Text)
      → redirected f (shifted pieces st) op c operand ≡ moved pieces (redirected f st op c operand)
  unfolding redirected moved
  redirected-shifted pieces st op c [] = refl
  redirected-shifted pieces st op c (d ∷ s) =
      moved-bind pieces _ _ (λ text. ap ok (added-shifted pieces st (text ∷ [])))
        (f.redirect op c (d ∷ s))

  placed-shifted :
      (pieces : List Text) (st : Joining) (command : Text)
      → null st.result ≡ false
      → placed f (shifted pieces st) command ≡ moved pieces (placed f st command)
  unfolding placed moved
  placed-shifted pieces st [] h = refl
  placed-shifted pieces st (d ∷ s) h =
      rw (link-shifted pieces st h) (ap ok (added-shifted pieces st _))

  join_command-shifted :
      (pieces : List Text) (st : Joining) (c : Command) (o : Option ShellOperator)
      → null st.result ≡ false
      → join_command f (shifted pieces st) c o ≡ moved pieces (join_command f st c o)
  unfolding join_command
  join_command-shifted pieces st c (some op) h =
      moved-bind pieces _ _ (redirected-shifted pieces st op c) (redirect_operand f c)
  join_command-shifted pieces st c none h =
      moved-bind pieces _ _ (λ text. placed-shifted pieces st text h) (command_text f c)

  join_step-shifted :
      (pieces : List Text) (st : Joining) (t : ShellToken)
      → null st.result ≡ false
      → join_step f (shifted pieces st) t ≡ moved pieces (join_step f st t)
  unfolding join_step shifted moved
  join_step-shifted pieces st (command_token c) h =
      join_command-shifted pieces st c st.redirecting h
  join_step-shifted pieces st (operator_token op) h =
      elim (Bool-cases (not st.has_command || st.expecting_command)) [
        | inl e ↦ rw e refl
        | inr e ↦ rw e (moved-bind pieces _ _ (λ text. refl) (f.operator op))
      ]

  -- Something has been added.
  abbrev pub IsGoing : Joining → Type 0
  IsGoing st = null st.result ≡ false

  pub added-IsGoing :
      (st : Joining) (more : List Text) → null more ≡ false → IsGoing (added f st more)
  unfolding added
  added-IsGoing st more h = null-append st.result more h

  placed-IsGoing : (st : Joining) (s : Text) → IsGoing st → WhenOk IsGoing (placed f st s)
  unfolding placed
  placed-IsGoing st [] h = h
  placed-IsGoing st (d ∷ s) h = added-IsGoing st _ (ground arith)

  redirected-IsGoing :
      (st : Joining) (op : ShellOperator) (c : Command) (s : Text)
      → IsGoing st
      → WhenOk IsGoing (redirected f st op c s)
  unfolding redirected
  redirected-IsGoing st op c [] h = h
  redirected-IsGoing st op c (d ∷ s) h =
      WhenOk-bind IsGoing _ (λ text. added-IsGoing st (text ∷ []) refl) (f.redirect op c (d ∷ s))

  pub join_command-IsGoing :
      (st : Joining) (c : Command) (o : Option ShellOperator)
      → IsGoing st
      → WhenOk IsGoing (join_command f st c o)
  unfolding join_command
  join_command-IsGoing st c (some op) h =
      WhenOk-bind IsGoing _ (λ s. redirected-IsGoing st op c s h) (redirect_operand f c)
  join_command-IsGoing st c none h =
      WhenOk-bind IsGoing _ (λ s. placed-IsGoing st s h) (command_text f c)

  pub join_step-IsGoing :
      (st : Joining) (t : ShellToken) → IsGoing st → WhenOk IsGoing (join_step f st t)
  unfolding join_step
  join_step-IsGoing st (command_token c) h = join_command-IsGoing st c st.redirecting h
  join_step-IsGoing st (operator_token op) h =
      elim (Bool-cases (not st.has_command || st.expecting_command)) [
        | inl e ↦ rw e tt
        | inr e ↦ rw e (WhenOk-bind IsGoing _ (λ text. h) (f.operator op))
      ]

  pub join_loop-shifted :
      (pieces : List Text) (st : Joining) (ts : List ShellToken)
      → IsGoing st
      → join_loop f (shifted pieces st) ts ≡ moved pieces (join_loop f st ts)
  unfolding join_loop moved
  join_loop-shifted pieces st [] h = refl
  join_loop-shifted pieces st (t ∷ ts) h = elim (Result-cases (join_step f st t)) [
    | inl (st', e) ↦
        rw (join_step-shifted pieces st t h, e)
          (join_loop-shifted pieces st' ts (WhenOk-of IsGoing _ st' (join_step-IsGoing st t h) e))
    | inr (x, e) ↦ rw (join_step-shifted pieces st t h, e) refl
  ]
