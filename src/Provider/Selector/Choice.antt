-- ===== src/Provider/Selector/Choice.antt =====
-- The contract of `ProviderSelector.select`.
use hostctl.Prelude.{
  ℕ, suc, String, ◌≡◌, refl, sym, subst, ◌∙◌, true, false, none, some, List, [], ◌∷◌, inl, inr,
  arith, map, null, filter_by, All, Bool-cases,
}
use hostctl.Prelude.Dict.{Dict}
use hostctl.Provider.Contracts.{Provider}
use hostctl.Provider.Selector.{Env, Selector, Request}
use hostctl.Provider.Selector.Select.{
  is_stale, pop_all, readmit, Selected, selected, selection, not_started, out_of_fuel, start_trace,
  select,
}
use hostctl.Provider.Selector.Verdict.{FirstAccepted, scan-FirstAccepted}
use hostctl.Provider.Selector.Termination.{
  pass, Settled, found, nothing, select_settles, pass-Later,
}

null_eq {ℓ} : {A : Type ℓ} (xs : List A) → null xs ≡ true → xs ≡ []
null_eq [] h = refl
null_eq (x ∷ xs) h = cc

module _ (q : Request) where
  stale_nil :
      (d : Dict String) (ps : List Provider)
      → map (λ p. p.name) (filter_by (is_stale q d) ps) ≡ []
      → All (λ p. is_stale q d p ≡ false) ps
  unfolding filter_by
  stale_nil d [] h = tt
  stale_nil d (p ∷ ps) h = elim (Bool-cases (is_stale q d p)) [
    | inl e ↦ ground arith
    | inr e ↦ (e, stale_nil d ps (ground arith))
  ]

  -- when nothing is readmitted, nothing changes
  readmit_nothing :
      (s : Selector)
      → (readmit q s).0 ≡ false
      → ((readmit q s).1 ≡ s) × All (λ p. is_stale q s.declined p ≡ false) s.providers
  readmit_nothing s h =
      let none_stale : map (λ p. p.name) (filter_by (is_stale q s.declined) s.providers) ≡ [] =
        null_eq _ (unfold readmit in ground arith) in
      (unfold readmit pop_all in rw none_stale, stale_nil s.declined s.providers none_stale)

-- What `select` promises of its result over the providers `ps`, the last argument being the
-- selector afterwards.
abbrev pub Contract : Request → List Provider → Selected → Selector → Type 0
Contract q ps (selected sel) t =
    FirstAccepted q t ps (some sel.provider)
    × (sel.trace ≡ t.trace)
    × (sel.generation ≡ t.generation)
    × (sel.pinned ≡ q.pin)
Contract q ps (not_started e) t =
    FirstAccepted q t ps none × All (λ p. is_stale q t.declined p ≡ false) ps
Contract q ps out_of_fuel t = ⊥

module _ (env : Env) (q : Request) where
  pass-FirstAccepted :
      (s : Selector) → FirstAccepted q (pass env q s).1 s.providers (pass env q s).0
  pass-FirstAccepted s = scan-FirstAccepted env q s.providers (start_trace q s)

  Settled-Contract :
      (s : Selector) (r : Selected × Selector) → Settled env q s r → Contract q s.providers r.0 r.1
  Settled-Contract s r (found p t same e eq) =
      subst (λ (x : Selected × Selector). Contract q s.providers x.0 x.1) (sym eq)
        (unfold selection in
          (
            subst (λ ps. FirstAccepted q (pass env q t).1 ps (some p)) same
                (subst (FirstAccepted q (pass env q t).1 t.providers) e (pass-FirstAccepted t)),
            refl,
            refl,
            refl,
          ))
  Settled-Contract s r (nothing t same e h eq) =
      let u = (pass env q t).1 in
      let (kept, fresh) = readmit_nothing q u h in
      let at_pass : FirstAccepted q u s.providers none
          × All (λ p. is_stale q u.declined p ≡ false) s.providers =
        (
          subst (λ ps. FirstAccepted q (pass env q t).1 ps none) same
              (subst (FirstAccepted q (pass env q t).1 t.providers) e (pass-FirstAccepted t)),
          subst (λ ps. All (λ p. is_stale q u.declined p ≡ false) ps)
              ((pass-Later env q t).providers ∙ same) fresh,
        ) in
      subst (λ (x : Selected × Selector). Contract q s.providers x.0 x.1) (sym eq)
        (subst
          (λ v.
            FirstAccepted q v s.providers none
            × All (λ p. is_stale q v.declined p ≡ false) s.providers)
          (sym kept) at_pass)

  -- `select` returns the first provider, in order, that in the selector's final state has not
  -- declined, is not excluded and has a cached probe that serves the request; each provider before it
  -- has declined, is excluded or has a cached probe that does not serve. It fails only if all
  -- providers are of the second sort, and then each that declined is excluded or does not declare the
  -- capability.
  pub select-Contract :
      (fuel : ℕ) (s : Selector)
      → Contract q s.providers
          (select (suc (suc fuel)) env q s).0
          (select (suc (suc fuel)) env q s).1
  select-Contract fuel s = Settled-Contract s _ (select_settles env q fuel s)
