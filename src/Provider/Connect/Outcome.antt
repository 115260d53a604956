-- ===== src/Provider/Connect/Outcome.antt =====
-- What a host's `connect()` leaves behind.
use hostctl.Prelude.{
  true, false, ◌≡◌, refl, ap, ◌∙◌, sym, subst, List, [], ◌∷◌, ◌++◌, arith, append-nil, All-append,
  null,
}
use hostctl.Provider.Contracts.{Provider}
use hostctl.Provider.Selector.{Env, Selector}
use hostctl.Provider.Connect.{
  Attached, connected, refused, failed, Connecting, Found, attached, none_left, broken, no_fuel,
  Pass, called, Connected, established, closed_after, nothing_connected, gave_out, Connection,
  reversed, finish, path_outcome, connect_one, connect_path, connect_locked,
}
use hostctl.Provider.Connect.Cleanup.{
  Declines, AllRefused, add_attached, attached_in, IsPass, connect_one-Passes,
}

add_attached-append :
    (r : Attached) (p : Provider) (ps qs : List Provider)
    → add_attached r p (ps ++ qs) ≡ add_attached r p ps ++ qs
add_attached-append connected p ps qs = refl
add_attached-append (refused e) p ps qs = refl
add_attached-append (failed f) p ps qs = refl

attached_in-append :
    (cs ds : List Connecting) → attached_in (cs ++ ds) ≡ attached_in cs ++ attached_in ds
attached_in-append [] ds = refl
attached_in-append (c ∷ cs) ds =
    ap (add_attached c.result c.provider) (attached_in-append cs ds)
    ∙ add_attached-append c.result c.provider (attached_in cs) (attached_in ds)

add_attached-Declines :
    (r : Attached) (p : Provider) (ps : List Provider) → Declines r → add_attached r p ps ≡ ps
add_attached-Declines connected p ps h = absurd h
add_attached-Declines (refused e) p ps h = refl
add_attached-Declines (failed f) p ps h = absurd h

attached_in-AllRefused : (cs : List Connecting) → AllRefused cs → attached_in cs ≡ []
attached_in-AllRefused [] h = refl
attached_in-AllRefused (c ∷ cs) (h, hs) =
    add_attached-Declines c.result c.provider (attached_in cs) h ∙ attached_in-AllRefused cs hs

-- declined calls in between attach nothing
attached_in-declined :
    (base mid : List Connecting) → AllRefused mid → attached_in (base ++ mid) ≡ attached_in base
attached_in-declined base mid h =
    attached_in-append base mid
    ∙ ap (λ ps. attached_in base ++ ps) (attached_in-AllRefused mid h)
    ∙ append-nil (attached_in base)

attached_in-called :
    (base mid : List Connecting) (p : Provider) (r : Attached)
    → AllRefused mid
    → attached_in (called (base ++ mid) p r) ≡ attached_in base ++ add_attached r p []
attached_in-called base mid p r h =
    attached_in-append (base ++ mid) (record { provider = p; result = r } ∷ [])
    ∙ ap (λ ps. ps ++ add_attached r p []) (attached_in-declined base mid h)

-- What the outcome says of the calls of `connect`.
abbrev pub Tidy : Connected → List Connecting → Type 0
Tidy (established ps) calls = (ps ≡ attached_in calls) × (null ps ≡ true → calls ≡ [])
Tidy (closed_after f ps) calls =
    (ps ≡ reversed (attached_in calls))
    × ((before : List Connecting) × (p : Provider) × (calls ≡ called before p (failed f)))
Tidy (nothing_connected e) calls = AllRefused calls × (null calls ≡ false)
Tidy gave_out calls = ⊥

null_append : (ps : List Provider) (q : Provider) → null (ps ++ q ∷ []) ≡ false
null_append [] q = refl
null_append (p ∷ ps) q = refl

absurd_null : {A : Type 0} → (ps : List Provider) (q : Provider) → null (ps ++ q ∷ []) ≡ true → A
absurd_null [] q h = ground arith
absurd_null (p ∷ ps) q h = ground arith

-- the end of both loops, with nothing connected by the last one
finish-Tidy :
    (env : Env) (ps : List Provider) (calls : List Connecting)
    → ps ≡ attached_in calls
    → (null ps ≡ true → AllRefused calls)
    → Tidy (finish env ps calls) calls
unfolding finish
finish-Tidy env [] [] h k = (h, (λ e. refl))
finish-Tidy env [] (c ∷ cs) h k = (k refl, refl)
finish-Tidy env (p ∷ ps) [] h k = (h, (λ e. refl))
finish-Tidy env (p ∷ ps) (c ∷ cs) h k = (h, (λ e. ground arith))

path_outcome-Tidy :
    (env : Env) (ps : List Provider) (base : List Connecting)
    → ps ≡ attached_in base
    → (null ps ≡ true → AllRefused base)
    → (found : Found) (calls : List Connecting) → IsPass base found calls
    → Tidy (path_outcome env ps found calls) calls
unfolding path_outcome
path_outcome-Tidy env ps base h k (attached q) calls (mid, e, declined) =
    finish-Tidy env (ps ++ q ∷ []) calls
      (ap (λ xs. xs ++ q ∷ []) h
        ∙ sym (attached_in-called base mid q connected declined)
        ∙ ap attached_in (sym e))
      (λ empty. absurd_null ps q empty)
path_outcome-Tidy env ps base h k none_left calls (mid, e, declined) =
    finish-Tidy env ps calls
      (h ∙ sym (attached_in-declined base mid declined) ∙ ap attached_in (sym e))
      (λ empty.
        subst AllRefused (sym e)
          (All-append (λ (c : Connecting). Declines c.result) base mid (k empty) declined))
path_outcome-Tidy env ps base h k (broken f) calls (mid, p, e, declined) = (
  ap reversed (
      h
      ∙ sym (append-nil (attached_in base))
      ∙ sym (attached_in-called base mid p (failed f) declined)
      ∙ ap attached_in (sym e)),
  (base ++ mid, p, e),
)
path_outcome-Tidy env ps base h k no_fuel calls none_left_over = none_left_over

module _ (env : Env) (hook : Provider → List Connecting → Attached) (executor path : Selector) where
  abbrev first : Pass
  first = connect_one env hook [] executor

  abbrev whole : Connection
  whole = connect_locked env hook executor path

  abbrev IsTidy : Connection → Type 0
  IsTidy c = Tidy c.outcome c.calls

  path-Tidy :
      (ps : List Provider)
      → ps ≡ attached_in first.calls
      → (null ps ≡ true → AllRefused first.calls)
      → IsTidy (connect_path env hook ps first path)
  unfolding connect_path
  path-Tidy ps h k =
      let second = connect_one env hook first.calls path in
      path_outcome-Tidy env ps first.calls h k second.found second.calls
        (connect_one-Passes env hook first.calls path)

  first-Tidy : (found : Found) → first.found ≡ found → IsPass [] found first.calls → IsTidy whole
  unfolding connect_locked
  first-Tidy (attached p) e (mid, same, declined) =
      rw (e, connect_locked)
        (path-Tidy (p ∷ [])
          (sym (attached_in-called [] mid p connected declined) ∙ ap attached_in (sym same))
          (λ empty. ground arith))
  first-Tidy none_left e (mid, same, declined) =
      rw (e, connect_locked)
        (path-Tidy [] (sym (attached_in-AllRefused mid declined) ∙ ap attached_in (sym same))
          (λ empty. subst AllRefused (sym same) declined))
  first-Tidy (broken f) e (mid, p, same, declined) =
      rw (e, connect_locked)
        (
          ap reversed
              (sym (attached_in-called [] mid p (failed f) declined) ∙ ap attached_in (sym same)),
          (mid, p, same),
        )
  first-Tidy no_fuel e left = absurd left

  -- A call of `connect()` ends. It leaves the host connected to just the providers whose `connect`
  -- succeeded, and to none only if no selector offered one; or it raises what the last `connect`
  -- raised, after closing the providers connected before it, the last first; or it raises that no
  -- provider connected, when each of the calls, and at least one, declined.
  pub connect_locked-Tidy : IsTidy whole
  connect_locked-Tidy = first-Tidy first.found refl (connect_one-Passes env hook [] executor)
