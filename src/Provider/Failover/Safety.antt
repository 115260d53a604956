-- ===== src/Provider/Failover/Safety.antt =====
-- A command is not sent again once a provider has started it, and no provider is tried twice.
use hostctl.Prelude.{
  ℕ, zero, suc, String, ◌≡◌, refl, ap, false, ◌||◌, List, [], ◌∷◌, ◌++◌, map, arith, eq_iff,
  contains, str_eq, ◌+◌, null, length, Bool-cases, All, All-append, inl, inr,
}
use hostctl.Provider.Contracts.{NotStarted, Provider}
use hostctl.Provider.Selector.{Env, Selector, has_duplicate}
use hostctl.Provider.Selector.Select.{selected, not_started, Selected, Selection, out_of_fuel}
use hostctl.Provider.Selector.Termination.{select_total}
use hostctl.Provider.Failover.Steps.{
  selected-fresh, choice, loop_none, loop_returned, loop_raised, loop_declined,
}
use hostctl.Provider.Failover.{
  Attempt, returned, declined, raised, Tried, Outcome, result, failure, Run, excluding, logged,
  valid_environment, run_loop, run,
}

abbrev pub tried_names : {A : Type 0} → List (Tried A) → List String
tried_names = map (λ t. t.name)

-- The attempt proved that nothing was started.
abbrev pub IsDecline : {A : Type 0} → Tried A → Type 0
IsDecline t = elim t.attempt [ declined _ ↦ Unit | _ ↦ ⊥ ]

-- Every attempt but the last declined, and the last is `final`.
abbrev pub EndsWith : {A : Type 0} → List (Tried A) → Attempt A → Type 0
EndsWith {A} tried final =
    (earlier : List (Tried A)) × (name : String) × (tried
      ≡ earlier ++ record { name = name; attempt = final } ∷ [])
    × All IsDecline earlier

-- How the attempts of a call account for its outcome.
abbrev pub Accounts : {A : Type 0} → Outcome A → List (Tried A) → Type 0
Accounts (result a) tried = EndsWith tried (returned a)
Accounts (failure e) tried = EndsWith tried (raised e)
Accounts _ tried = All IsDecline tried

pub contains-append :
    (xs : List String) (y n : String) → contains (xs ++ y ∷ []) n ≡ (contains xs n || str_eq y n)
contains-append [] y n = ground arith
contains-append (x ∷ xs) y n = ground (arith, contains-append xs y n)

pub has_duplicate-append :
    (xs : List String) (y : String)
    → has_duplicate xs ≡ false
    → contains xs y ≡ false
    → has_duplicate (xs ++ y ∷ []) ≡ false
unfolding has_duplicate
has_duplicate-append [] y h k = refl
has_duplicate-append (x ∷ xs) y h k =
    ground (arith, contains-append xs y x, has_duplicate-append xs y, eq_iff x y, eq_iff y x)

module _ {A : Type 0} (env : Env) (attempt : Provider → List (Tried A) → Attempt A) where
  -- What a call promises of the attempts it made.
  abbrev pub SafeRun : Run A → Type 0
  SafeRun r = (has_duplicate (tried_names r.tried) ≡ false) × Accounts r.outcome r.tried

  tried_names-append :
      (xs : List (Tried A)) (t : Tried A)
      → tried_names (xs ++ t ∷ []) ≡ tried_names xs ++ t.name ∷ []
  tried_names-append [] t = refl
  tried_names-append (x ∷ xs) t = ap (◌∷◌ x.name) (tried_names-append xs t)

  -- the excluded names are those of the attempts so far, which all declined
  pub record IsPending (excluded : List String) (tried : List (Tried A)) : Type 0 where
    pub names : tried_names tried ≡ excluded
    pub distinct : has_duplicate excluded ≡ false
    pub declines : All IsDecline tried

  pub start_IsPending : IsPending [] []
  unfolding has_duplicate
  start_IsPending = record { names = refl; distinct = refl; declines = tt }

  -- one more attempt keeps the names distinct
  next_names :
      (excluded : List String) (tried : List (Tried A)) (p : Provider) (given : Attempt A)
      → IsPending excluded tried
      → contains excluded p.name ≡ false
      → has_duplicate (tried_names (logged tried p given)) ≡ false
  unfolding logged
  next_names excluded tried p given h fresh =
      rw (tried_names-append, h.names) (has_duplicate-append excluded p.name h.distinct fresh)

  pub next_IsPending :
      (excluded : List String) (tried : List (Tried A)) (p : Provider) (e : NotStarted)
      → IsPending excluded tried
      → contains excluded p.name ≡ false
      → IsPending (excluded ++ p.name ∷ []) (logged tried p (declined e))
  unfolding logged
  next_IsPending excluded tried p e h fresh = record {
    names = rw (tried_names-append, h.names);
    distinct = has_duplicate-append excluded p.name h.distinct fresh;
    declines = All-append IsDecline tried _ h.declines (tt, tt);
  }

  module _ (fuel : ℕ) (excluded : List String) (tried : List (Tried A)) (s : Selector) where
    abbrev after : Run A
    after = run_loop env attempt (suc fuel) excluded tried s

    attempted-SafeRun :
        ((ex : List String) (tr : List (Tried A)) (t : Selector)
          → IsPending ex tr
          → SafeRun (run_loop env attempt fuel ex tr t))
        → IsPending excluded tried
        → (sel : Selection) → (choice env excluded s).0 ≡ selected sel
        → contains excluded sel.provider.name ≡ false
        → (given : Attempt A) → attempt sel.provider tried ≡ given
        → SafeRun after
    attempted-SafeRun rec h sel k fresh (returned a) g =
        rw (loop_returned env attempt fuel excluded tried s sel a k g) (
          next_names excluded tried sel.provider (returned a) h fresh,
          (tried, sel.provider.name, unfold logged in refl, h.declines),
        )
    attempted-SafeRun rec h sel k fresh (raised e) g =
        rw (loop_raised env attempt fuel excluded tried s sel e k g) (
          next_names excluded tried sel.provider (raised e) h fresh,
          (tried, sel.provider.name, unfold logged in refl, h.declines),
        )
    attempted-SafeRun rec h sel k fresh (declined e) g =
        rw (loop_declined env attempt fuel excluded tried s sel e k g)
          (rec _ _ _ (next_IsPending excluded tried sel.provider e h fresh))

    chosen-SafeRun :
        ((ex : List String) (tr : List (Tried A)) (t : Selector)
          → IsPending ex tr
          → SafeRun (run_loop env attempt fuel ex tr t))
        → IsPending excluded tried
        → (c : Selected) → (choice env excluded s).0 ≡ c
        → SafeRun after
    chosen-SafeRun rec h out_of_fuel k = absurd ((select_total env (excluding excluded) 0 s).0 k)
    chosen-SafeRun rec h (not_started e) k =
        rw (loop_none env attempt fuel excluded tried s e k) (rw h.names h.distinct, h.declines)
    chosen-SafeRun rec h (selected sel) k =
        attempted-SafeRun rec h sel k (selected-fresh env excluded s sel k)
          (attempt sel.provider tried) refl

  run_loop-SafeRun :
      (fuel : ℕ) (excluded : List String) (tried : List (Tried A)) (s : Selector)
      → IsPending excluded tried
      → SafeRun (run_loop env attempt fuel excluded tried s)
  run_loop-SafeRun zero excluded tried s h = unfold run_loop in (rw h.names h.distinct, h.declines)
  run_loop-SafeRun (suc fuel) excluded tried s h =
      chosen-SafeRun fuel excluded tried s (run_loop-SafeRun fuel) h (choice env excluded s).0 refl

  -- A call of `run` tries no provider twice. It returns a result, or raises what an attempt raised,
  -- only from its last attempt, and every attempt before that one declined before dispatch; in each
  -- other outcome every attempt declined.
  pub run-SafeRun : (keys : List String) (s : Selector) → SafeRun (run env attempt keys s)
  unfolding run has_duplicate
  run-SafeRun keys s = elim (Bool-cases (null s.providers)) [
    | inl e ↦ rw (e, run) (refl, tt)
    | inr e ↦ elim (Bool-cases (valid_environment keys)) [
      | inl v ↦ rw (e, v, run) (run_loop-SafeRun (length s.providers + 1) [] [] s start_IsPending)
      | inr v ↦ rw (e, v, run) (refl, tt)
    ]
  ]
