-- ===== src/Shell/Script/Compose.antt =====
-- `ShellFlavour.join` of shell/_flavour.py: the script of two token lists is made of their scripts.
use hostctl.Prelude.{
  ℕ, Error, Bool, true, false, ◌≡◌, refl, sym, ap, ◌∙◌, none, List, [], ◌∷◌, ◌++◌, append_assoc,
  append-nil, arith, ◌&&◌, not, null, Result, ok, err, ◌>>=◌, Result-cases, inl, inr,
}
use mathlib.Core.List.{flatten}
use hostctl.Shell.Text.{Text, among, same_text, flatten-append}
use hostctl.Shell.Script.{
  ShellFlavour, ShellToken, ShellOperator, Command, operator_token, command_token, command_text,
}
use hostctl.Shell.Script.Joining.{
  Joining, last, separator_after, added, link, placed, join_command, join_step, join_loop, start,
  finished, join, redirection,
}
use hostctl.Shell.Script.Shifted.{
  shifted, moved, join_loop-append, join_loop-shifted, added-IsGoing,
}
use hostctl.Shell.Script.Settled.{IsSettled, joined_state, finished-ok, among-last}

same_text_refl : (s : Text) → same_text s s ≡ true
same_text_refl [] = refl
same_text_refl (c ∷ s) = let rest : same_text s s ≡ true = same_text_refl s in ground arith

null-flatten : (pieces : List Text) → null (flatten pieces) ≡ false → null pieces ≡ false
unfolding flatten
null-flatten [] h = h
null-flatten (s ∷ pieces) h = refl

module _ (f : ShellFlavour) where
  command_step :
      (st : Joining) (c : Command) (s : Text)
      → st.redirecting ≡ none
      → command_text f c ≡ ok s
      → join_step f st (command_token c) ≡ placed f st s
  unfolding join_step join_command
  command_step st c s hr e = rw (hr, e) refl

  command_fails :
      (c : Command) (x : Error)
      → command_text f c ≡ err x
      → join_step f (start f) (command_token c) ≡ err x
  unfolding join_step join_command
  command_fails c x e = rw e refl

  join_loop-step :
      (st : Joining) (t : ShellToken) (ts : List ShellToken) (r : Result Joining)
      → join_step f st t ≡ r
      → join_loop f st (t ∷ ts) ≡ (r >>= λ st'. join_loop f st' ts)
  unfolding join_loop
  join_loop-step st t ts r e = rw e refl

  placed-first :
      (d : ℕ) (s : Text) → placed f (start f) (d ∷ s) ≡ ok (added f (start f) ((d ∷ s) ∷ []))
  unfolding placed
  placed-first d s = refl

  placed-next :
      (st : Joining) (d : ℕ) (s : Text)
      → st.has_command ≡ true
      → placed f st (d ∷ s)
        ≡ ok (shifted (st.result ++ link f st ∷ []) (added f (start f) ((d ∷ s) ∷ [])))
  unfolding placed added shifted
  placed-next st d s h = rw (h, append_assoc st.result (link f st ∷ []) ((d ∷ s) ∷ [])) refl

  -- What `join` gives from its first state with something added stays the same after a command.
  resume :
      (st z : Joining) (ts : List ShellToken)
      → st.has_command ≡ true
      → st.redirecting ≡ none
      → join_loop f (start f) ts ≡ ok z
      → null z.result ≡ false
      → join_loop f st ts ≡ ok (shifted (st.result ++ link f st ∷ []) z)
  unfolding join_loop moved
  resume st z [] hc hr e h = ground arith
  resume st z (operator_token op ∷ ts) hc hr e h = cc
  resume st z (command_token c ∷ ts) hc hr e h = elim (Result-cases (command_text f c)) [
    | inl ([], k) ↦
        join_loop-step st (command_token c) ts _ (command_step st c [] hr k)
        ∙ resume st z ts hc hr
            (sym (
                join_loop-step (start f) (command_token c) ts _
                  (command_step (start f) c [] refl k))
              ∙ e)
            h
    | inl (d ∷ s, k) ↦
        join_loop-step st (command_token c) ts _
          (command_step st c (d ∷ s) hr k ∙ placed-next st d s hc)
        ∙ join_loop-shifted f (st.result ++ link f st ∷ []) (added f (start f) ((d ∷ s) ∷ [])) ts
            (added-IsGoing f (start f) ((d ∷ s) ∷ []) refl)
        ∙ ap (moved _) (
            sym (
              join_loop-step (start f) (command_token c) ts _
                (command_step (start f) c (d ∷ s) refl k ∙ placed-first d s))
            ∙ e)
    | inr (x, k) ↦
        let failed : err x ≡ ok z =
          sym (join_loop-step (start f) (command_token c) ts (err x) (command_fails c x k)) ∙ e in
        cc
  ]

  finished-shifted :
      (pieces : List Text) (z : Joining) (s : Text)
      → finished f z ≡ ok s
      → finished f (shifted pieces z) ≡ ok (flatten pieces ++ s)
  unfolding finished shifted
  finished-shifted pieces z s h =
      let (going, text) = finished-ok f z s h in
      rw (going, flatten-append pieces z.result, text) refl

  flatten_snoc : (pieces : List Text) (s : Text) → flatten (pieces ++ s ∷ []) ≡ flatten pieces ++ s
  unfolding flatten
  flatten_snoc pieces s =
      flatten-append pieces (s ∷ []) ∙ ap (λ t. flatten pieces ++ t) (append-nil s)

  -- The end of `join` after a state that has a command, when what follows joins to `r`.
  join_after :
      (ys : List ShellToken) (st : Joining) (r : Text)
      → st.has_command ≡ true
      → st.redirecting ≡ none
      → join f ys ≡ ok r
      → null r ≡ false
      → (join_loop f st ys >>= finished f) ≡ ok (flatten st.result ++ (link f st ++ r))
  join_after ys st r hc hr hy hn =
      let (z, ez, fz, sz) = joined_state f ys r hy in
      let text : flatten z.result ≡ r = (finished-ok f z r fz).1 in
      let going : null z.result ≡ false = null-flatten z.result (rw text hn) in
      ap (λ q. q >>= finished f) (resume st z ys hc hr ez going)
      ∙ finished-shifted _ z r fz
      ∙ ap (λ t. ok (t ++ r)) (flatten_snoc st.result (link f st))
      ∙ ap ok (append_assoc (flatten st.result) (link f st) r)

  -- A state that `join` ends in with a text has a command.
  ended_with :
      (st : Joining) (s : Text)
      → finished f st ≡ ok s
      → IsSettled f st
      → null s ≡ false
      → (st.has_command ≡ true) × (st.pending ≡ f.command_separator) × (st.redirecting ≡ none)
  ended_with st s h settled hn =
      let (going, text) = finished-ok f st s h in
      let (hp, hr) = settled.1 going in
      (settled.0 ∙ ap not (null-flatten st.result (rw text hn)), hp, hr)

  plain_last :
      (m : Bool) (pieces : List Text)
      → m && among 10 (flatten pieces) ≡ false
      → m && among 10 (last pieces) ≡ false
  plain_last true pieces h = among-last f pieces h
  plain_last false pieces h = refl

  link_operator :
      (st : Joining) → same_text st.pending f.command_separator ≡ false → link f st ≡ st.pending
  unfolding link
  link_operator st h = rw h refl

  link_plain :
      (st : Joining)
      → st.pending ≡ f.command_separator
      → f.multiline_source && among 10 (last st.result) ≡ false
      → link f st ≡ f.command_separator
  unfolding link separator_after
  link_plain st hp h = rw (hp, same_text_refl f.command_separator, h) refl

  operator_step :
      (st : Joining) (op : ShellOperator) (t : Text)
      → st.has_command ≡ true
      → st.expecting_command ≡ false
      → redirection op ≡ none
      → f.operator op ≡ ok t
      → join_step f st (operator_token op)
        ≡ ok (record st { pending = t; redirecting = none; expecting_command = true })
  unfolding join_step
  operator_step st op t hc hx hr ht = rw (hc, hx, ht, hr) refl

  -- Two scripts that are not empty, with an operator between them that does not redirect and is not
  -- spelled like the separator, join to their texts with the operator's text between them.
  pub join-operator :
      (xs ys : List ShellToken) (op : ShellOperator) (t s r : Text)
      → redirection op ≡ none
      → f.operator op ≡ ok t
      → same_text t f.command_separator ≡ false
      → join f xs ≡ ok s
      → null s ≡ false
      → join f ys ≡ ok r
      → null r ≡ false
      → join f (xs ++ operator_token op ∷ ys) ≡ ok (s ++ (t ++ r))
  unfolding join
  join-operator xs ys op t s r hr ht hd hx hs hy hn =
      let (st, e, fin, settled) = joined_state f xs s hx in
      let (going, text) = finished-ok f st s fin in
      let (hc, _, _) = ended_with st s fin settled hs in
      let after : Joining = record st {
        pending = t;
        redirecting = none;
        expecting_command = true;
      } in
      ap (λ q. q >>= finished f)
        (join_loop-append f (start f) xs (operator_token op ∷ ys)
          ∙ ap (λ q. q >>= λ st'. join_loop f st' (operator_token op ∷ ys)) e
          ∙ join_loop-step st (operator_token op) ys (ok after)
              (operator_step st op t hc going hr ht))
      ∙ join_after ys after r hc refl hy hn
      ∙ rw (link_operator after hd, text) refl

  -- Two scripts that are not empty join to their texts with the separator between them, if the flavour
  -- has no source of several lines or the first text has no newline.
  pub join-append :
      (xs ys : List ShellToken) (s r : Text)
      → f.multiline_source && among 10 s ≡ false
      → join f xs ≡ ok s
      → null s ≡ false
      → join f ys ≡ ok r
      → null r ≡ false
      → join f (xs ++ ys) ≡ ok (s ++ (f.command_separator ++ r))
  unfolding join
  join-append xs ys s r hm hx hs hy hn =
      let (st, e, fin, settled) = joined_state f xs s hx in
      let (going, text) = finished-ok f st s fin in
      let (hc, hp, hr) = ended_with st s fin settled hs in
      let plain : f.multiline_source && among 10 (last st.result) ≡ false =
        plain_last f.multiline_source st.result (rw text hm) in
      ap (λ q. q >>= finished f)
        (join_loop-append f (start f) xs ys ∙ ap (λ q. q >>= λ st'. join_loop f st' ys) e)
      ∙ join_after ys st r hc hr hy hn
      ∙ rw (link_plain st hp plain, text) refl
