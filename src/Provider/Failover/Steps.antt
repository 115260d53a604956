-- ===== src/Provider/Failover/Steps.antt =====
-- One pass of the loop of `run`: which provider it picks, and how it goes on.
use hostctl.Prelude.{
  ℕ, suc, String, ◌≡◌, subst, true, false, some, none, List, [], ◌∷◌, ◌++◌, arith, contains, inl,
  inr,
}
use hostctl.Provider.Contracts.{Fault, NotStarted, Provider}
use hostctl.Provider.Selector.{Env, Selector, Request, decline}
use hostctl.Provider.Selector.Select.{selected, not_started, Selected, Selection, select, served}
use hostctl.Provider.Selector.Verdict.{FirstAccepted, accepts}
use hostctl.Provider.Selector.Choice.{Contract, select-Contract}
use hostctl.Provider.Failover.{
  Attempt, returned, declined, raised, Tried, result, failure, no_provider, excluding, as_fault,
  logged, run_loop,
}

-- The first accepted provider of a list is accepted.
pub FirstAccepted-accepts :
    (q : Request) (t : Selector) (ps : List Provider) (p : Provider)
    → FirstAccepted q t ps (some p)
    → accepts q t p ≡ true
FirstAccepted-accepts q t [] p h = cc
FirstAccepted-accepts q t (x ∷ ps) p (inl (yes_x, e)) = cc
FirstAccepted-accepts q t (x ∷ ps) p (inr (no_x, h)) = FirstAccepted-accepts q t ps p h

pub accepts-not_excluded :
    (q : Request) (t : Selector) (p : Provider)
    → accepts q t p ≡ true
    → contains q.exclude p.name ≡ false
unfolding accepts
accepts-not_excluded q t p h = ground arith

module _ (env : Env) where
  -- what `run_loop` uses of a selection
  pub selected-fresh :
      (excluded : List String) (s : Selector) (sel : Selection)
      → (select 2 env (excluding excluded) s).0 ≡ selected sel
      → contains excluded sel.provider.name ≡ false
  unfolding excluding
  selected-fresh excluded s sel e =
      let r = select 2 env (excluding excluded) s in
      let ok : Contract (excluding excluded) s.providers (selected sel) r.1 =
        subst (λ c. Contract (excluding excluded) s.providers c r.1) e
          (select-Contract env (excluding excluded) 0 s) in
      accepts-not_excluded (excluding excluded) r.1 sel.provider
        (FirstAccepted-accepts (excluding excluded) r.1 s.providers sel.provider ok.0)

-- The selection that the loop makes.
abbrev pub choice : Env → List String → Selector → Selected × Selector
choice env excluded s = select 2 env (excluding excluded) s

module _ {A : Type 0} (env : Env) (attempt : Provider → List (Tried A) → Attempt A) where
  module _ (fuel : ℕ) (excluded : List String) (tried : List (Tried A)) (s : Selector) where
    pub loop_none :
        (e : NotStarted)
        → (choice env excluded s).0 ≡ not_started e
        → run_loop env attempt (suc fuel) excluded tried s ≡ record {
          outcome = no_provider e;
          tried = tried;
          fallback = none;
          selector = (choice env excluded s).1;
        }
    unfolding run_loop
    loop_none e h = rw (h, run_loop)

    pub loop_returned :
        (sel : Selection) (a : A)
        → (choice env excluded s).0 ≡ selected sel
        → attempt sel.provider tried ≡ returned a
        → run_loop env attempt (suc fuel) excluded tried s ≡ record {
          outcome = result a;
          tried = logged tried sel.provider (returned a);
          fallback = served env sel.provider (choice env excluded s).1;
          selector = (choice env excluded s).1;
        }
    unfolding run_loop
    loop_returned sel a h k = rw (h, k, run_loop)

    pub loop_raised :
        (sel : Selection) (e : Fault)
        → (choice env excluded s).0 ≡ selected sel
        → attempt sel.provider tried ≡ raised e
        → run_loop env attempt (suc fuel) excluded tried s ≡ record {
          outcome = failure e;
          tried = logged tried sel.provider (raised e);
          fallback = served env sel.provider (choice env excluded s).1;
          selector = (choice env excluded s).1;
        }
    unfolding run_loop
    loop_raised sel e h k = rw (h, k, run_loop)

    pub loop_declined :
        (sel : Selection) (e : NotStarted)
        → (choice env excluded s).0 ≡ selected sel
        → attempt sel.provider tried ≡ declined e
        → run_loop env attempt (suc fuel) excluded tried s
          ≡ run_loop env attempt fuel
              (excluded ++ sel.provider.name ∷ [])
              (logged tried sel.provider (declined e))
              (decline sel.provider.name e.reason (some (as_fault e)) (choice env excluded s).1)
    unfolding run_loop
    loop_declined sel e h k = rw (h, k, run_loop)
