-- ===== src/Host/Dispatch/Masking.antt =====
-- `_run_with_provider` of system/_host.py: what logs and exceptions show of an environment.
use hostctl.Prelude.{
  true, false, ◌≡◌, refl, sym, ap, ◌∙◌, inl, inr, Option, none, some, List, [], ◌∷◌, arith, ◌&&◌,
  null, Result, ok, err, WhenOk, WhenOk-with, WhenOk-split, WhenOk-of, Bool-cases,
}
use hostctl.Shell.Text.{Text, same_text}
use hostctl.Shell.Script.{ShellToken}
use hostctl.Host.Dispatch.{Environment, Shell, Target, Call, Dispatch, variables}
use hostctl.Host.Dispatch.Render.{
  render_dispatch, masked_environment, same_texts, Execution, execution, prepare, displayed,
}

-- The names of an environment, in order.
abbrev pub names : Environment → List Text
names [] = []
names ((key, value) ∷ env) = key ∷ names env

masked-names :
    (mask : Text) (e e' : Environment)
    → names e ≡ names e'
    → masked_environment mask e ≡ masked_environment mask e'
unfolding masked_environment
masked-names mask [] [] h = refl
masked-names mask [] (b ∷ e') h = cc
masked-names mask (a ∷ e) [] h = cc
masked-names mask ((k, v) ∷ e) ((k', v') ∷ e') h =
    let key : k ≡ k' = ground arith in
    let rest : names e ≡ names e' = ground arith in rw (key, masked-names mask e e' rest) refl

same_text-eq : (s t : Text) → same_text s t ≡ true → s ≡ t
same_text-eq [] [] h = refl
same_text-eq [] (d ∷ t) h = cc
same_text-eq (c ∷ s) [] h = cc
same_text-eq (c ∷ s) (d ∷ t) h =
    let rest : s ≡ t = same_text-eq s t (ground arith) in
    let head : c ≡ d = ground arith in rw (head, rest) refl

same_texts-eq : (s t : List Text) → same_texts s t ≡ true → s ≡ t
unfolding same_texts
same_texts-eq [] [] h = refl
same_texts-eq [] (d ∷ t) h = cc
same_texts-eq (c ∷ s) [] h = cc
same_texts-eq (c ∷ s) (d ∷ t) h =
    let rest : s ≡ t = same_texts-eq s t (ground arith) in
    let head : c ≡ d = same_text-eq c d (ground arith) in rw (head, rest) refl

pair_eq : (a b : Text) (c d : List Text) → a ≡ b → c ≡ d → ◌≡◌ {A = Text × List Text} (a, c) (b, d)
pair_eq a b c d h h' = rw (h, h') refl

displayed-execution :
    (sent masked : Dispatch) → displayed (execution sent masked) ≡ (masked.command, masked.args)
unfolding displayed execution
displayed-execution sent masked =
    elim (Bool-cases (same_text masked.command sent.command && same_texts masked.args sent.args)) [
      | inl e ↦ rw e (
          pair_eq _ _ _ _ (sym (same_text-eq masked.command sent.command (ground arith)))
            (sym (same_texts-eq masked.args sent.args (ground arith))))
      | inr e ↦ rw e refl
    ]

ok_eq : (m n : Dispatch) → Result.ok m ≡ ok n → m ≡ n
ok_eq m n h = ap (λ r. elim r [ ok d ↦ d | err e ↦ m ]) h

execution_eq : (x y : Execution) → Result.ok x ≡ ok y → x ≡ y
execution_eq x y h = ap (λ r. elim r [ ok d ↦ d | err e ↦ x ]) h

module _ (mask : Text) (p : Target) (shell : Option Shell) (cmds : List ShellToken)
    (call : Call) where
  abbrev with_env : Environment → Call
  with_env env = record call { env = some env }

  -- What is displayed is what the masked environment renders to.
  abbrev IsMasked : Environment → Execution → Type 0
  IsMasked env x =
      (masked : Dispatch) × (render_dispatch p (with_env (masked_environment mask env)) shell cmds
        ≡ ok masked)
      × (displayed x ≡ (masked.command, masked.args))

  prepare-IsMasked :
      (env : Environment)
      → null env ≡ false
      → WhenOk (IsMasked env) (prepare mask p shell cmds (with_env env))
  unfolding prepare variables
  prepare-IsMasked env h =
      WhenOk-with (IsMasked env) _ (render_dispatch p (with_env env) shell cmds) (λ sent _.
        WhenOk-split (IsMasked env) (null env) (ok record { dispatch = sent; shown = none }) _
          (λ e. cc)
          (λ _.
            WhenOk-with (IsMasked env) (λ masked. ok (execution sent masked))
              (render_dispatch p (with_env (masked_environment mask env)) shell cmds)
              (λ masked e. (masked, e, displayed-execution sent masked))))

  shown_alike :
      (env env' : Environment) (x y : Execution)
      → names env ≡ names env'
      → IsMasked env x
      → IsMasked env' y
      → displayed x ≡ displayed y
  shown_alike env env' x y h (m, em, dm) (n, en, dn) =
      let same : m ≡ n = ok_eq m n (
        sym em
        ∙ ap (λ e. render_dispatch p (with_env e) shell cmds) (masked-names mask env env' h)
        ∙ en) in
      dm ∙ ap (λ d. (d.command, d.args)) same ∙ sym dn

  -- If two calls differ only in the values of their environments and both are executed, logs and
  -- exceptions show the same command for both.
  pub displayed-values :
      (env env' : Environment) (x y : Execution)
      → names env ≡ names env'
      → prepare mask p shell cmds (record call { env = some env }) ≡ ok x
      → prepare mask p shell cmds (record call { env = some env' }) ≡ ok y
      → displayed x ≡ displayed y
  displayed-values [] [] x y h hx hy = ap displayed (execution_eq x y (sym hx ∙ hy))
  displayed-values [] (b ∷ env') x y h hx hy = cc
  displayed-values (a ∷ env) [] x y h hx hy = cc
  displayed-values (a ∷ env) (b ∷ env') x y h hx hy =
      shown_alike (a ∷ env) (b ∷ env') x y h
        (WhenOk-of (IsMasked (a ∷ env)) _ x (prepare-IsMasked (a ∷ env) refl) hx)
        (WhenOk-of (IsMasked (b ∷ env')) _ y (prepare-IsMasked (b ∷ env') refl) hy)
