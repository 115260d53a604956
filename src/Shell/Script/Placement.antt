-- ===== src/Shell/Script/Placement.antt =====
-- `ShellFlavour.join` of shell/_flavour.py: where an operator may stand.
use hostctl.Prelude.{
  true, false, ◌≡◌, refl, List, [], ◌∷◌, ◌++◌, ◌||◌, not, err, ◌>>=◌, is_ok, Bool-cases,
  Result-cases, WhenOk, WhenOk-bind, WhenOk-of, inl, inr, value_error,
}
use hostctl.Shell.Script.{ShellFlavour, ShellToken, ShellOperator, operator_token}
use hostctl.Shell.Script.Joining.{Joining, join_step, join_loop, start, finished, join}
use hostctl.Shell.Script.Shifted.{join_loop-append}

module _ (f : ShellFlavour) where
  operator_after_operator :
      (st : Joining) (op : ShellOperator) (ts : List ShellToken)
      → st.expecting_command ≡ true
      → join_loop f st (operator_token op ∷ ts) ≡ err value_error
  unfolding join_loop join_step
  operator_after_operator st op ts h = elim (Bool-cases st.has_command) [
    | inl e ↦ rw (e, h) refl
    | inr e ↦ rw e refl
  ]

  -- After an operator the state expects a command.
  operator-IsExpecting :
      (st : Joining) (op : ShellOperator)
      → WhenOk (λ st'. st'.expecting_command ≡ true) (join_step f st (operator_token op))
  unfolding join_step
  operator-IsExpecting st op = elim (Bool-cases (not st.has_command || st.expecting_command)) [
    | inl e ↦ rw e tt
    | inr e ↦
        rw e (WhenOk-bind (λ st'. st'.expecting_command ≡ true) _ (λ text. refl) (f.operator op))
  ]

  expecting-fails : (st : Joining) → st.expecting_command ≡ true → is_ok (finished f st) ≡ false
  unfolding finished
  expecting-fails st h = rw h refl

  module _ (op : ShellOperator) (ts : List ShellToken)
      (h : (st : Joining)
        → st.expecting_command ≡ true
        → is_ok (join_loop f st ts >>= finished f) ≡ false) where
    fails_from :
        (st : Joining) → is_ok (join_loop f st (operator_token op ∷ ts) >>= finished f) ≡ false
    unfolding join_loop
    fails_from st = elim (Result-cases (join_step f st (operator_token op))) [
      | inl (st', e) ↦ rw e (h st' (WhenOk-of _ _ st' (operator-IsExpecting st op) e))
      | inr (x, e) ↦ rw e refl
    ]

    -- If every state after an operator fails on what follows, so does every join with the two of them.
    fails_after : (xs : List ShellToken) → is_ok (join f (xs ++ operator_token op ∷ ts)) ≡ false
    unfolding join
    fails_after xs =
        rw (join_loop-append f (start f) xs (operator_token op ∷ ts))
          (elim (Result-cases (join_loop f (start f) xs)) [
            | inl (st, e) ↦ rw e (fails_from st)
            | inr (x, e) ↦ rw e refl
          ])

  -- `join` refuses an operator at the start, at the end or directly after another operator, whatever the
  -- other tokens are.
  pub join-misplaced :
      (xs ys : List ShellToken) (op next : ShellOperator)
      → (is_ok (join f (operator_token op ∷ ys)) ≡ false)
        × (is_ok (join f (xs ++ operator_token op ∷ [])) ≡ false)
        × (is_ok (join f (xs ++ operator_token op ∷ operator_token next ∷ ys)) ≡ false)
  unfolding join join_loop join_step
  join-misplaced xs ys op next = (
    refl,
    fails_after op [] expecting-fails xs,
    fails_after op (operator_token next ∷ ys)
        (λ st h. rw (operator_after_operator st next ys h) refl) xs,
  )
