-- ===== src/Shell/Script/Clean.antt =====
-- `script` of shell/_flavour.py: no script holds a control character that would hide text from a
-- terminal or a log.
use hostctl.Prelude.{
  ℕ, Bool, true, false, ◌≡◌, refl, Option, none, some, List, [], ◌∷◌, ◌++◌, arith, ltb, ◌==◌, ◌&&◌,
  ◌||◌, not, any, or_value_error, Bool-cases, WhenOk, WhenOk-then, All-append, inl, inr, All,
}
use mathlib.Core.List.{flatten}
use hostctl.Shell.Text.{Text, among, same_text, text_value}
use hostctl.Shell.Cmd.Target.{ShellTarget, shell}
use hostctl.Provider.Failover.{is_environment_name}
use hostctl.Shell.Script.{
  ShellFlavour, ShellToken, ShellOperator, Command, Element, operator_token, command_token, exec,
  cmdlet, ps_param, path_like, raw, structured, scalar, word, parameter, command_text,
  redirect_operand, raw_source,
}
use hostctl.Shell.Script.Joining.{
  Joining, last, separator_after, added, link, redirected, placed, join_command, join_step,
  join_loop, start, finished, join,
}

-- A control character that raw source may not hold.
abbrev pub is_hidden : ℕ → Bool
is_hidden c = (ltb c 32 && not (among c (9 ∷ 10 ∷ 13 ∷ []))) || c == 127

abbrev pub IsClean : Text → Type 0
IsClean s = any is_hidden s ≡ false

pub any-append :
    (p : ℕ → Bool) (s t : Text) → any p s ≡ false → any p t ≡ false → any p (s ++ t) ≡ false
any-append p [] t hs ht = ht
any-append p (c ∷ s) t hs ht =
    let rest : any p (s ++ t) ≡ false = any-append p s t (ground arith) ht in ground arith

pub clean_both : (s t : Text) → IsClean s → IsClean t → IsClean (s ++ t)
clean_both = any-append is_hidden

pub flatten-IsClean : (pieces : List Text) → All IsClean pieces → IsClean (flatten pieces)
unfolding flatten
flatten-IsClean [] h = refl
flatten-IsClean (s ∷ pieces) h = clean_both s _ h.0 (flatten-IsClean pieces h.1)

raw_source-IsClean : (s : Text) → WhenOk IsClean (raw_source s)
unfolding raw_source
raw_source-IsClean s = elim (Bool-cases (any is_hidden s)) [ inl e ↦ rw e tt | inr e ↦ rw e e ]

plain_clean : (s : Text) → any (λ c. ltb c 32 || c == 127) s ≡ false → IsClean s
plain_clean [] h = refl
plain_clean (c ∷ s) h = let rest : IsClean s = plain_clean s (ground arith) in ground arith

pub text_value-IsClean : (s : Text) → WhenOk IsClean (or_value_error (text_value s))
unfolding text_value
text_value-IsClean s = elim (Bool-cases (any (λ c. ltb c 32 || c == 127) s)) [
  | inl e ↦ rw e tt
  | inr e ↦ rw e (plain_clean s e)
]

-- What a flavour renders is clean, whatever it is given.
pub record CleanFlavour (f : ShellFlavour) : Type 0 where
  pub separator : IsClean f.command_separator
  pub terminator : IsClean f.line_terminator
  pub epilogue : IsClean f.execution_epilogue
  pub argument : (target : ShellTarget) (s : Text) → WhenOk IsClean (f.argument target s)
  pub structured : (values : List Element) → WhenOk IsClean (f.structured_command values)
  pub cmdlet_command : WhenOk IsClean f.cmdlet_command
  pub operator : (op : ShellOperator) → WhenOk IsClean (f.operator op)
  pub redirect :
      (op : ShellOperator) (c : Command) (s : Text) → IsClean s → WhenOk IsClean (f.redirect op c s)
  pub assignment :
      (key value : Text)
      → is_environment_name key ≡ true
      → WhenOk IsClean (f.environment_assignment key value)
  pub directory : (cwd : Text) → WhenOk IsClean (f.change_directory cwd)
  pub group : (s : Text) → IsClean s → IsClean (f.group s)

module _ (f : ShellFlavour) (k : CleanFlavour f) where
  command_text-IsClean : (c : Command) → WhenOk IsClean (command_text f c)
  unfolding command_text
  command_text-IsClean (exec program args) = tt
  command_text-IsClean cmdlet = k.cmdlet_command
  command_text-IsClean ps_param = tt
  command_text-IsClean (path_like s) = k.structured (word s ∷ [])
  command_text-IsClean (raw s) = raw_source-IsClean s
  command_text-IsClean (structured []) = tt
  command_text-IsClean (structured (v ∷ values)) = k.structured (v ∷ values)
  command_text-IsClean (scalar s) = text_value-IsClean s

  redirect_operand-IsClean : (c : Command) → WhenOk IsClean (redirect_operand f c)
  unfolding redirect_operand
  redirect_operand-IsClean (raw s) = raw_source-IsClean s
  redirect_operand-IsClean (path_like s) = k.argument shell s
  redirect_operand-IsClean (structured []) = tt
  redirect_operand-IsClean (structured (word s ∷ [])) = k.argument shell s
  redirect_operand-IsClean (structured (parameter s ∷ [])) = k.argument shell s
  redirect_operand-IsClean (structured (word s ∷ v ∷ values)) = tt
  redirect_operand-IsClean (structured (parameter s ∷ v ∷ values)) = tt
  redirect_operand-IsClean (exec program args) = tt
  redirect_operand-IsClean cmdlet = tt
  redirect_operand-IsClean ps_param = tt
  redirect_operand-IsClean (scalar s) = tt

  pub separator_after-IsClean : (s : Text) → IsClean (separator_after f s)
  unfolding separator_after
  separator_after-IsClean s = elim (Bool-cases (f.multiline_source && among 10 s)) [
    | inl e ↦ rw e k.terminator
    | inr e ↦ rw e k.separator
  ]

  abbrev IsCleanState : Joining → Type 0
  IsCleanState st = All IsClean st.result × IsClean st.pending

  added-IsClean :
      (st : Joining) (more : List Text)
      → IsCleanState st
      → All IsClean more
      → IsCleanState (added f st more)
  unfolding added
  added-IsClean st more h hm = (All-append IsClean st.result more h.0 hm, k.separator)

  last-IsClean : (pieces : List Text) → All IsClean pieces → IsClean (last pieces)
  unfolding last
  last-IsClean [] h = refl
  last-IsClean (s ∷ []) h = h.0
  last-IsClean (s ∷ t ∷ pieces) h = last-IsClean (t ∷ pieces) h.1

  link-IsClean : (st : Joining) → IsCleanState st → IsClean (link f st)
  unfolding link
  link-IsClean st h = elim (Bool-cases (same_text st.pending f.command_separator)) [
    | inl e ↦ rw e (separator_after-IsClean (last st.result))
    | inr e ↦ rw e h.1
  ]

  redirected-IsClean :
      (st : Joining) (op : ShellOperator) (c : Command) (s : Text)
      → IsCleanState st
      → IsClean s
      → WhenOk IsCleanState (redirected f st op c s)
  unfolding redirected
  redirected-IsClean st op c [] h hs = h
  redirected-IsClean st op c (d ∷ s) h hs =
      WhenOk-then IsClean IsCleanState _ (λ text ht. added-IsClean st (text ∷ []) h (ht, tt))
        (f.redirect op c (d ∷ s)) (k.redirect op c (d ∷ s) hs)

  placed-IsClean :
      (st : Joining) (s : Text) → IsCleanState st → IsClean s → WhenOk IsCleanState (placed f st s)
  unfolding placed
  placed-IsClean st [] h hs = h
  placed-IsClean st (d ∷ s) h hs = elim (Bool-cases st.has_command) [
    | inl e ↦ rw e (added-IsClean st (link f st ∷ (d ∷ s) ∷ []) h (link-IsClean st h, (hs, tt)))
    | inr e ↦ rw e (added-IsClean st ((d ∷ s) ∷ []) h (hs, tt))
  ]

  join_command-IsClean :
      (st : Joining) (c : Command) (o : Option ShellOperator)
      → IsCleanState st
      → WhenOk IsCleanState (join_command f st c o)
  unfolding join_command
  join_command-IsClean st c (some op) h =
      WhenOk-then IsClean IsCleanState _ (λ s hs. redirected-IsClean st op c s h hs)
        (redirect_operand f c) (redirect_operand-IsClean c)
  join_command-IsClean st c none h =
      WhenOk-then IsClean IsCleanState _ (λ s hs. placed-IsClean st s h hs) (command_text f c)
        (command_text-IsClean c)

  join_step-IsClean :
      (st : Joining) (t : ShellToken) → IsCleanState st → WhenOk IsCleanState (join_step f st t)
  unfolding join_step
  join_step-IsClean st (command_token c) h = join_command-IsClean st c st.redirecting h
  join_step-IsClean st (operator_token op) h =
      elim (Bool-cases (not st.has_command || st.expecting_command)) [
        | inl e ↦ rw e tt
        | inr e ↦ rw e (
            WhenOk-then IsClean IsCleanState _ (λ text ht. (h.0, ht)) (f.operator op)
              (k.operator op))
      ]

  join_loop-IsClean :
      (st : Joining) (ts : List ShellToken)
      → IsCleanState st
      → WhenOk IsCleanState (join_loop f st ts)
  unfolding join_loop
  join_loop-IsClean st [] h = h
  join_loop-IsClean st (t ∷ ts) h =
      WhenOk-then IsCleanState IsCleanState _ (λ st' h'. join_loop-IsClean st' ts h')
        (join_step f st t) (join_step-IsClean st t h)

  pub join-IsClean : (ts : List ShellToken) → WhenOk IsClean (join f ts)
  unfolding join finished
  join-IsClean ts =
      WhenOk-then IsCleanState IsClean _ finished_clean (join_loop f (start f) ts)
        (join_loop-IsClean (start f) ts (tt, k.separator))
    where
      finished_clean : (st : Joining) → IsCleanState st → WhenOk IsClean (finished f st)
      finished_clean st h = elim (Bool-cases st.expecting_command) [
        | inl e ↦ rw e tt
        | inr e ↦ rw e (flatten-IsClean st.result h.0)
      ]
