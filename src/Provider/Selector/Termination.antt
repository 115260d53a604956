-- ===== src/Provider/Selector/Termination.antt =====
-- `select` calls itself at most once: the declines that it forgets do not come back.
use hostctl.Prelude.{
  ℕ, suc, String, ◌≡◌, ◌≢◌, refl, sym, ◌∙◌, ap, true, false, Option, none, some, List, [], ◌∷◌, inl,
  inr, arith, eq_iff, map, contains, filter_by, All, All-map, Option-cases, Bool-cases,
  if◌then◌else◌,
}
use hostctl.Prelude.Dict.{Dict, get, pop, get-pop}
use hostctl.Provider.Contracts.{Provider}
use hostctl.Provider.Selector.{Env, Selector, Request}
use hostctl.Provider.Selector.Select.{
  scan, is_stale, pop_all, readmit, start_trace, Selected, selected, selection, no_provider,
  not_started, out_of_fuel, select,
}
use hostctl.Provider.Selector.Scan.{Later, Later-trans, scan-Later}

pub get-pop_all {ℓ} :
    {V : Type ℓ} (ks : List String) (j : String) (d : Dict V)
    → get j (pop_all ks d) ≡ (if contains ks j then none else get j d)
unfolding pop_all
get-pop_all [] j d = refl
get-pop_all (k ∷ ks) j d = ground (arith, get-pop_all ks j (pop k d), get-pop k j d)

module _ (q : Request) where
  abbrev stale_names : Dict String → List Provider → List String
  stale_names d ps = map (λ p. p.name) (filter_by (is_stale q d) ps)

  -- a stale provider's name is among those popped
  is_stale-mem :
      (d : Dict String) (ps : List Provider)
      → All (λ p. is_stale q d p ≡ true → contains (stale_names d ps) p.name ≡ true) ps
  unfolding filter_by
  is_stale-mem d [] = tt
  is_stale-mem d (p ∷ ps) = (
    λ stale. ground (arith, eq_iff p.name p.name),
    All-map (λ x h stale. ground (arith, h stale)) ps (is_stale-mem d ps),
  )

  -- what is stale once the stale declines are popped
  filter-stale_nil :
      (d : Dict String) (names : List String) (ps : List Provider)
      → All (λ p. is_stale q d p ≡ true → contains names p.name ≡ true) ps
      → filter_by (is_stale q (pop_all names d)) ps ≡ []
  unfolding filter_by
  filter-stale_nil d names [] h = refl
  filter-stale_nil d names (p ∷ ps) (hp, hps) =
      let gone : is_stale q (pop_all names d) p ≡ false =
        unfold is_stale in
        elim (Bool-cases (is_stale q d p)) [
          | inl e ↦ ground (arith, get-pop_all names p.name d, hp e)
          | inr e ↦ ground (arith, get-pop_all names p.name d)
        ] in
      rw (gone, filter-stale_nil d names ps hps)

module _ (env : Env) (q : Request) where
  -- one pass over the providers
  abbrev pub pass : Selector → Option Provider × Selector
  pass s = scan env q s.providers (start_trace q s)

  -- The state that the second pass begins with.
  abbrev pub second : Selector → Selector
  second s = (readmit q (pass s).1).1

  -- How a call of `select` ends, on its first pass or on its second.
  pub data Settled (s : Selector) (r : Selected × Selector) : Type 0 where
    found :
        (p : Provider) (t : Selector)
        → t.providers ≡ s.providers
        → (pass t).0 ≡ some p
        → r ≡ (selected (selection q p (pass t).1), (pass t).1)
        → Settled s r
    nothing :
        (t : Selector)
        → t.providers ≡ s.providers
        → (pass t).0 ≡ none
        → (readmit q (pass t).1).0 ≡ false
        → r ≡ (not_started (no_provider env (second t)), second t)
        → Settled s r

  pub select_found :
      (fuel : ℕ) (s : Selector) (p : Provider)
      → (pass s).0 ≡ some p
      → select (suc fuel) env q s ≡ (selected (selection q p (pass s).1), (pass s).1)
  unfolding select
  select_found fuel s p e = ground arith

  pub select_again :
      (fuel : ℕ) (s : Selector)
      → (pass s).0 ≡ none
      → (readmit q (pass s).1).0 ≡ true
      → select (suc fuel) env q s ≡ select fuel env q (second s)
  unfolding select
  select_again fuel s e h = ground arith

  pub select_nothing :
      (fuel : ℕ) (s : Selector)
      → (pass s).0 ≡ none
      → (readmit q (pass s).1).0 ≡ false
      → select (suc fuel) env q s ≡ (not_started (no_provider env (second s)), second s)
  unfolding select
  select_nothing fuel s e h = ground arith

  start_trace-Later : (s : Selector) → Later s (start_trace q s)
  unfolding start_trace
  start_trace-Later s = record {
    providers = ground arith;
    declined = ground arith;
    causes = ground arith;
    generation = ground arith;
    cached = λ n r h. ground arith;
  }

  pub pass-Later : (s : Selector) → Later s (pass s).1
  pass-Later s = Later-trans (start_trace-Later s) (scan-Later env q s.providers (start_trace q s))

  second-providers : (s : Selector) → (second s).providers ≡ s.providers
  unfolding readmit
  second-providers s = (pass-Later s).providers

  -- Nothing is left to readmit after a second pass.
  readmit_once : (s : Selector) → (readmit q (pass (second s)).1).0 ≡ false
  readmit_once s =
      let u = (pass s).1 in
      let later = pass-Later (second s) in
      let gone =
        filter-stale_nil q u.declined (stale_names q u.declined u.providers) u.providers
          (is_stale-mem q u.declined u.providers) in
      unfold readmit in rw (later.declined, later.providers, gone)

  pub select_settles : (fuel : ℕ) (s : Selector) → Settled s (select (suc (suc fuel)) env q s)
  select_settles fuel s = elim (Option-cases (pass s).0) [
    | inr (p, e) ↦ found p s refl e (select_found (suc fuel) s p e)
    | inl e ↦ elim (Bool-cases (readmit q (pass s).1).0) [
      | inr h ↦ nothing s refl e h (select_nothing (suc fuel) s e h)
      | inl h ↦ rw (select_again (suc fuel) s e h) (elim (Option-cases (pass (second s)).0) [
        | inr (p, e') ↦
            found p (second s) (second-providers s) e' (select_found fuel (second s) p e')
        | inl e' ↦
            nothing (second s) (second-providers s) e' (readmit_once s)
              (select_nothing fuel (second s) e' (readmit_once s))
      ])
    ]
  ]

  select_twice : (fuel : ℕ) (s : Selector) → select (suc (suc fuel)) env q s ≡ select 2 env q s
  select_twice fuel s = elim (Option-cases (pass s).0) [
    | inr (p, e) ↦ select_found (suc fuel) s p e ∙ sym (select_found 1 s p e)
    | inl e ↦ elim (Bool-cases (readmit q (pass s).1).0) [
      | inr h ↦ select_nothing (suc fuel) s e h ∙ sym (select_nothing 1 s e h)
      | inl h ↦
          select_again (suc fuel) s e h
          ∙ elim (Option-cases (pass (second s)).0) [
            | inr (p, e') ↦ select_found fuel (second s) p e' ∙ sym (select_found 0 (second s) p e')
            | inl e' ↦
                select_nothing fuel (second s) e' (readmit_once s)
                ∙ sym (select_nothing 0 (second s) e' (readmit_once s))
          ]
          ∙ sym (select_again 1 s e h)
    ]
  ]

  Settled-ne : (s : Selector) (r : Selected × Selector) → Settled s r → r.0 ≢ out_of_fuel
  Settled-ne s r (found p t _ _ e) h = cc (ap (λ (x : Selected × Selector). x.0) e)
  Settled-ne s r (nothing t _ _ _ e) h = cc (ap (λ (x : Selected × Selector). x.0) e)

  -- The recursion of `select` ends: with fuel for two passes it never runs out, and more fuel does
  -- not change the result.
  pub select_total :
      (fuel : ℕ) (s : Selector)
      → ((select (suc (suc fuel)) env q s).0 ≢ out_of_fuel)
        × (select (suc (suc fuel)) env q s ≡ select 2 env q s)
  select_total fuel s = (Settled-ne s _ (select_settles fuel s), select_twice fuel s)
