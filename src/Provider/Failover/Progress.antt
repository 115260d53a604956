-- ===== src/Provider/Failover/Progress.antt =====
-- The loop of `run` ends, and gives up only when no provider is left.
use hostctl.Prelude.{
  ℕ, zero, suc, ◌+◌, ◌≤◌, ◌<◌, String, ◌≡◌, refl, sym, subst, ap, ◌∙◌, false, not, some, none, List,
  [], ◌∷◌, ◌++◌, arith, eq_iff, contains, filter_by, length, null, inl, inr, Bool-cases,
}
use hostctl.Provider.Contracts.{NotStarted, Provider}
use hostctl.Provider.Selector.{Env, Selector, Request, decline}
use hostctl.Provider.Selector.Select.{
  selected, not_started, Selected, Selection, out_of_fuel, select, readmit,
}
use hostctl.Provider.Selector.Verdict.{FirstAccepted}
use hostctl.Provider.Selector.Termination.{
  Settled, found, nothing, select_settles, select_total, pass-Later,
}
use hostctl.Provider.Selector.Choice.{Contract, select-Contract}
use hostctl.Provider.Failover.{
  Attempt, returned, declined, raised, Tried, Outcome, no_provider, no_fuel, Run, excluding,
  as_fault, logged, valid_environment, run_loop, run,
}
use hostctl.Provider.Failover.Steps.{
  choice, selected-fresh, accepts-not_excluded, loop_none, loop_returned, loop_raised,
  loop_declined,
}
use hostctl.Provider.Failover.Safety.{
  tried_names, IsPending, next_IsPending, start_IsPending, contains-append,
}

-- How many providers are not excluded.
unfoldable pub remaining : List String → List Provider → ℕ
remaining excluded ps = length (filter_by (λ p. not (contains excluded p.name)) ps)

remaining_mono :
    (excluded : List String) (name : String) (ps : List Provider)
    → remaining (excluded ++ name ∷ []) ps ≤ remaining excluded ps
unfolding remaining filter_by
remaining_mono excluded name [] = omega arith
remaining_mono excluded name (p ∷ ps) =
    ground (arith, remaining_mono excluded name ps, contains-append excluded name p.name)

pub remaining_le_length :
    (excluded : List String) (ps : List Provider) → remaining excluded ps ≤ length ps
unfolding remaining filter_by
remaining_le_length excluded [] = omega arith
remaining_le_length excluded (p ∷ ps) = ground (arith, remaining_le_length excluded ps)

remaining_head :
    (excluded : List String) (p : Provider) (ps : List Provider)
    → contains excluded p.name ≡ false
    → remaining (excluded ++ p.name ∷ []) (p ∷ ps) < remaining excluded (p ∷ ps)
unfolding remaining filter_by
remaining_head excluded p ps h = ground (
  arith,
  remaining_mono excluded p.name ps,
  contains-append excluded p.name p.name,
  eq_iff p.name p.name,
)

remaining_tail :
    (excluded : List String) (name : String) (p : Provider) (ps : List Provider)
    → remaining (excluded ++ name ∷ []) ps < remaining excluded ps
    → remaining (excluded ++ name ∷ []) (p ∷ ps) < remaining excluded (p ∷ ps)
unfolding remaining filter_by
remaining_tail excluded name p ps h = ground (arith, contains-append excluded name p.name)

-- a chosen provider is one of those remaining
pub remaining_chosen :
    (q : Request) (t : Selector) (ps : List Provider) (p : Provider)
    → FirstAccepted q t ps (some p)
    → remaining (q.exclude ++ p.name ∷ []) ps < remaining q.exclude ps
remaining_chosen q t [] p h = cc
remaining_chosen q t (x ∷ ps) p (inl (taken, e)) =
    let same : x ≡ p = cc in
    subst
      (λ (y : Provider).
        remaining (q.exclude ++ y.name ∷ []) (x ∷ ps) < remaining q.exclude (x ∷ ps))
      same (remaining_head q.exclude x ps (accepts-not_excluded q t x taken))
remaining_chosen q t (x ∷ ps) p (inr (_, h)) =
    remaining_tail q.exclude p.name x ps (remaining_chosen q t ps p h)

pub select-providers :
    (env : Env) (q : Request) (s : Selector) → (select 2 env q s).1.providers ≡ s.providers
select-providers env q s = go _ (select_settles env q 0 s)
  where
    go : (r : Selected × Selector) → Settled env q s r → r.1.providers ≡ s.providers
    go r (found p t same _ e) =
        ap (λ (x : Selected × Selector). x.1.providers) e ∙ (pass-Later env q t).providers ∙ same
    go r (nothing t same _ _ e) =
        ap (λ (x : Selected × Selector). x.1.providers) e
        ∙ (unfold readmit in (pass-Later env q t).providers ∙ same)

-- What the outcome of a call says of the providers `ps`.
abbrev pub Completed : {A : Type 0} → List Provider → Outcome A → List (Tried A) → Selector → Type 0
Completed ps (no_provider e) tried t = FirstAccepted (excluding (tried_names tried)) t ps none
Completed ps no_fuel tried t = ⊥
Completed _ _ _ _ = Unit

module _ {A : Type 0} (env : Env) (attempt : Provider → List (Tried A) → Attempt A) where
  abbrev pub CompletedRun : List Provider → Run A → Type 0
  CompletedRun ps r = Completed ps r.outcome r.tried r.selector

  module _ (fuel : ℕ) (excluded : List String) (tried : List (Tried A)) (s : Selector)
      (h : IsPending env attempt excluded tried)
      (rec : (ex : List String) (tr : List (Tried A)) (t : Selector)
        → IsPending env attempt ex tr
        → remaining ex t.providers < fuel
        → CompletedRun t.providers (run_loop env attempt fuel ex tr t))
      (enough : remaining excluded s.providers < suc fuel) where
    abbrev after : Run A
    after = run_loop env attempt (suc fuel) excluded tried s

    contract :
        (c : Selected)
        → (choice env excluded s).0 ≡ c
        → Contract (excluding excluded) s.providers c (choice env excluded s).1
    contract c k =
        subst (λ c. Contract (excluding excluded) s.providers c (choice env excluded s).1) k
          (select-Contract env (excluding excluded) 0 s)

    -- the selector for the next pass
    abbrev declining : Selection → NotStarted → Selector
    declining sel e =
        decline sel.provider.name e.reason (some (as_fault e)) (choice env excluded s).1

    declining-providers :
        (sel : Selection) (e : NotStarted) → (declining sel e).providers ≡ s.providers
    unfolding decline
    declining-providers sel e = select-providers env (excluding excluded) s

    fewer :
        (sel : Selection)
        → (choice env excluded s).0 ≡ selected sel
        → remaining (excluded ++ sel.provider.name ∷ []) s.providers
          < remaining excluded s.providers
    unfolding excluding
    fewer sel k =
        remaining_chosen (excluding excluded) (choice env excluded s).1 s.providers sel.provider
          (contract (selected sel) k).0

    attempted-Completed :
        (sel : Selection)
        → (choice env excluded s).0 ≡ selected sel
        → (given : Attempt A) → attempt sel.provider tried ≡ given
        → CompletedRun s.providers after
    attempted-Completed sel k (returned a) g =
        rw (loop_returned env attempt fuel excluded tried s sel a k g) tt
    attempted-Completed sel k (raised e) g =
        rw (loop_raised env attempt fuel excluded tried s sel e k g) tt
    attempted-Completed sel k (declined e) g =
        let ex = excluded ++ sel.provider.name ∷ [] in
        let tr = logged tried sel.provider (declined e) in
        let t = declining sel e in
        let same = declining-providers sel e in
        rw (loop_declined env attempt fuel excluded tried s sel e k g) (
          subst (λ ps. CompletedRun ps (run_loop env attempt fuel ex tr t)) same
            (rec ex tr t
              (next_IsPending env attempt excluded tried sel.provider e h
                (selected-fresh env excluded s sel k))
              (subst (λ ps. remaining ex ps < fuel) (sym same) (omega (arith, fewer sel k)))))

    chosen-Completed :
        (c : Selected) → (choice env excluded s).0 ≡ c → CompletedRun s.providers after
    chosen-Completed out_of_fuel k = absurd ((select_total env (excluding excluded) 0 s).0 k)
    chosen-Completed (not_started e) k =
        rw (loop_none env attempt fuel excluded tried s e k, h.names) (contract _ k).0
    chosen-Completed (selected sel) k = attempted-Completed sel k (attempt sel.provider tried) refl

  run_loop-Completed :
      (fuel : ℕ) (excluded : List String) (tried : List (Tried A)) (s : Selector)
      → IsPending env attempt excluded tried
      → remaining excluded s.providers < fuel
      → CompletedRun s.providers (run_loop env attempt fuel excluded tried s)
  run_loop-Completed zero excluded tried s h lt = absurd (omega arith)
  run_loop-Completed (suc fuel) excluded tried s h lt =
      chosen-Completed fuel excluded tried s h (run_loop-Completed fuel) lt
        (choice env excluded s).0 refl

  -- A call of `run` always ends: its loop needs no more passes than there are providers and one. It
  -- gives up only when each provider has been tried by this call, has declined, or has a cached probe
  -- that does not serve.
  pub run-Completed :
      (keys : List String) (s : Selector) → CompletedRun s.providers (run env attempt keys s)
  run-Completed keys s = elim (Bool-cases (null s.providers)) [
    | inl e ↦ unfold run in rw (e, run) tt
    | inr e ↦ elim (Bool-cases (valid_environment keys)) [
      | inl v ↦
          unfold run in
          rw (e, v, run)
            (run_loop-Completed (length s.providers + 1) [] [] s (start_IsPending env attempt)
              (omega (arith, remaining_le_length [] s.providers)))
      | inr v ↦ unfold run in rw (e, v, run) tt
    ]
  ]
