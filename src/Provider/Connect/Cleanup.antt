-- ===== src/Provider/Connect/Cleanup.antt =====
-- A connection that fails closes what it opened, and connecting ends.
use hostctl.Prelude.{
  ℕ, zero, suc, ◌+◌, ◌<◌, String, ◌≡◌, refl, sym, subst, List, [], ◌∷◌, ◌++◌, arith, append_assoc,
  append-nil, All, All-append, length,
}
use hostctl.Provider.Contracts.{Fault, NotStarted, Provider}
use hostctl.Provider.Selector.{Env, Selector}
use hostctl.Provider.Selector.Select.{selected, not_started, Selected, Selection, out_of_fuel}
use hostctl.Provider.Selector.Termination.{select_total}
use hostctl.Provider.Selector.Choice.{Contract, select-Contract}
use hostctl.Provider.Failover.{excluding}
use hostctl.Provider.Failover.Steps.{choice}
use hostctl.Provider.Failover.Progress.{
  remaining, remaining_le_length, remaining_chosen, select-providers,
}
use hostctl.Provider.Connect.{
  Attached, connected, refused, failed, Connecting, Found, attached, none_left, broken, no_fuel,
  Pass, called, connect_loop, connect_one,
}

abbrev pub Declines : Attached → Type 0
Declines connected = ⊥
Declines (refused e) = Unit
Declines (failed f) = ⊥

-- Every call declined before anything was started.
abbrev pub AllRefused : List Connecting → Type 0
AllRefused = All (λ c. Declines c.result)

abbrev pub add_attached : Attached → Provider → List Provider → List Provider
add_attached connected p ps = p ∷ ps
add_attached (refused e) p ps = ps
add_attached (failed f) p ps = ps

-- The providers that were connected.
abbrev pub attached_in : List Connecting → List Provider
attached_in [] = []
attached_in (c ∷ cs) = add_attached c.result c.provider (attached_in cs)

-- How the calls of one loop continue those before it.
abbrev pub IsPass : List Connecting → Found → List Connecting → Type 0
IsPass base (attached p) calls =
    (mid : List Connecting) × (calls ≡ called (base ++ mid) p connected) × AllRefused mid
IsPass base none_left calls = (mid : List Connecting) × (calls ≡ base ++ mid) × AllRefused mid
IsPass base (broken f) calls =
    (mid : List Connecting) × (p : Provider) × (calls ≡ called (base ++ mid) p (failed f))
    × AllRefused mid
IsPass base no_fuel calls = ⊥

module _ (env : Env) (hook : Provider → List Connecting → Attached) where
  abbrev pub Passes : List Connecting → Pass → Type 0
  Passes base r = IsPass base r.found r.calls

  module _ (fuel : ℕ) (excluded : List String) (calls : List Connecting) (s : Selector) where
    abbrev step : Pass
    step = connect_loop env hook (suc fuel) excluded calls s

    step_none :
        (e : NotStarted)
        → (choice env excluded s).0 ≡ not_started e
        → step ≡ record { found = none_left; calls = calls; selector = (choice env excluded s).1 }
    unfolding connect_loop
    step_none e h = rw (h, connect_loop)

    step_connected :
        (sel : Selection)
        → (choice env excluded s).0 ≡ selected sel
        → hook sel.provider calls ≡ connected
        → step ≡ record {
          found = attached sel.provider;
          calls = called calls sel.provider connected;
          selector = (choice env excluded s).1;
        }
    unfolding connect_loop
    step_connected sel h k = rw (h, k, connect_loop)

    step_failed :
        (sel : Selection) (f : Fault)
        → (choice env excluded s).0 ≡ selected sel
        → hook sel.provider calls ≡ failed f
        → step ≡ record {
          found = broken f;
          calls = called calls sel.provider (failed f);
          selector = (choice env excluded s).1;
        }
    unfolding connect_loop
    step_failed sel f h k = rw (h, k, connect_loop)

    step_refused :
        (sel : Selection) (e : NotStarted)
        → (choice env excluded s).0 ≡ selected sel
        → hook sel.provider calls ≡ refused e
        → step
          ≡ connect_loop env hook fuel
              (excluded ++ sel.provider.name ∷ [])
              (called calls sel.provider (refused e))
              (choice env excluded s).1
    unfolding connect_loop
    step_refused sel e h k = rw (h, k, connect_loop)

    fewer :
        (sel : Selection)
        → (choice env excluded s).0 ≡ selected sel
        → remaining (excluded ++ sel.provider.name ∷ []) s.providers
          < remaining excluded s.providers
    unfolding excluding
    fewer sel k =
        let r = choice env excluded s in
        let ok =
          subst (λ c. Contract (excluding excluded) s.providers c r.1) k
            (select-Contract env (excluding excluded) 0 s) in
        remaining_chosen (excluding excluded) r.1 s.providers sel.provider ok.0

  module _ (fuel : ℕ) (excluded : List String) (base mid : List Connecting) (s : Selector)
      (h : AllRefused mid)
      (rec : (ex : List String) (m : List Connecting) (t : Selector)
        → AllRefused m
        → remaining ex t.providers < fuel
        → Passes base (connect_loop env hook fuel ex (base ++ m) t))
      (enough : remaining excluded s.providers < suc fuel) where
    attempted-Passes :
        (sel : Selection)
        → (choice env excluded s).0 ≡ selected sel
        → (given : Attached) → hook sel.provider (base ++ mid) ≡ given
        → Passes base (connect_loop env hook (suc fuel) excluded (base ++ mid) s)
    attempted-Passes sel k connected g =
        rw (step_connected fuel excluded (base ++ mid) s sel k g) (mid, refl, h)
    attempted-Passes sel k (failed f) g =
        rw (step_failed fuel excluded (base ++ mid) s sel f k g) (mid, sel.provider, refl, h)
    attempted-Passes sel k (refused e) g =
        let same = select-providers env (excluding excluded) s in
        let ex = excluded ++ sel.provider.name ∷ [] in
        let last : Connecting = record { provider = sel.provider; result = refused e } in
        rw (step_refused fuel excluded (base ++ mid) s sel e k g, append_assoc base mid (last ∷ []))
          (rec ex (mid ++ last ∷ []) (choice env excluded s).1
            (All-append (λ (c : Connecting). Declines c.result) mid (last ∷ []) h (tt, tt))
            (subst (λ ps. remaining ex ps < fuel) (sym same)
              (omega (arith, fewer fuel excluded (base ++ mid) s sel k))))

    chosen-Passes :
        (c : Selected)
        → (choice env excluded s).0 ≡ c
        → Passes base (connect_loop env hook (suc fuel) excluded (base ++ mid) s)
    chosen-Passes out_of_fuel k = absurd ((select_total env (excluding excluded) 0 s).0 k)
    chosen-Passes (not_started e) k =
        rw (step_none fuel excluded (base ++ mid) s e k) (mid, refl, h)
    chosen-Passes (selected sel) k = attempted-Passes sel k (hook sel.provider (base ++ mid)) refl

  connect_loop-Passes :
      (base : List Connecting) (fuel : ℕ) (excluded : List String) (mid : List Connecting)
      (s : Selector)
      → AllRefused mid
      → remaining excluded s.providers < fuel
      → Passes base (connect_loop env hook fuel excluded (base ++ mid) s)
  connect_loop-Passes base zero excluded mid s h lt = absurd (omega arith)
  connect_loop-Passes base (suc fuel) excluded mid s h lt =
      chosen-Passes fuel excluded base mid s h (connect_loop-Passes base fuel) lt
        (choice env excluded s).0 refl

  pub connect_one-Passes :
      (base : List Connecting) (s : Selector) → Passes base (connect_one env hook base s)
  unfolding connect_one
  connect_one-Passes base s =
      subst (λ calls. Passes base (connect_loop env hook (length s.providers + 1) [] calls s))
        (append-nil base)
        (connect_loop-Passes base (length s.providers + 1) [] [] s tt
          (omega (arith, remaining_le_length [] s.providers)))
