-- ===== src/Host/Lifecycle/Runs.antt =====
-- system/_host.py: a host's life as the calls made of it, one after the other.
use hostctl.Prelude.{
  ℕ, true, false, ◌≡◌, refl, sym, subst, Option, List, [], ◌∷◌, ◌++◌, member, All,
}
use hostctl.Provider.Contracts.{Fault}
use hostctl.Host.Lifecycle.{
  Host, Use, Initializer, note_provider_in_use, ensure_provider_connected, connect,
}
use hostctl.Host.Lifecycle.Close.{close}
use hostctl.Host.Lifecycle.Replace.{
  set_after, replace_providers, connect_failed, replace_providers-IsTidy, connect_failed-IsTidy,
}
use hostctl.Host.Lifecycle.Leaks.{
  IsTidy, Uses, note_provider_in_use-IsTidy, ensure-IsTidy, connect-IsTidy, close-IsTidy,
  close-live,
}

-- A call: an operation connects its provider, or notes it as in use; `connect`, which succeeds or raises
-- after some providers connected; `close`; and `replace_providers`.
pub data Step : Type 0 where
  ensures : Use → Step
  notes : ℕ → Step
  connects : List ℕ → Step
  fails_to_connect : List ℕ → Step
  closes : (ℕ → Option Fault) → Step
  replaces : (ℕ → Option Fault) → Option (List ℕ) → Option (List ℕ) → Step

-- `__init__`, of a host whose selectors have these providers.
unfoldable pub new : List ℕ → List ℕ → Host
new executors paths = record {
  executors = executors;
  paths = paths;
  connected_providers = [];
  closed_targets = [];
  connected = false;
  initializer_generation = false;
  initializing = false;
  invalidations = 0;
  live = [];
}

-- The providers of both selectors.
abbrev pub providers : Host → List ℕ
providers h = h.executors ++ h.paths

-- The call is of providers that the selectors have.
unfoldable pub IsOf : List ℕ → Step → Type 0
IsOf ps (ensures u) = member u.provider ps ≡ true
IsOf ps (notes p) = member p ps ≡ true
IsOf ps (connects qs) = All (λ q. member q ps ≡ true) qs
IsOf ps (fails_to_connect qs) = All (λ q. member q ps ≡ true) qs
IsOf ps (closes raises) = Unit
IsOf ps (replaces raises executor path) = Unit

-- `i` is the session initializer, by the providers that the host has as it runs.
module _ (target : ℕ → ℕ) (i : List ℕ → Option Initializer) where
  unfoldable pub step : Step → Host → Host
  unfolding ensure_provider_connected note_provider_in_use connect connect_failed close
      replace_providers
  step (ensures u) h = (ensure_provider_connected target (i (providers h)) u h).host
  step (notes p) h = note_provider_in_use target p h
  step (connects qs) h = (connect target (i (providers h)) qs h).host
  step (fails_to_connect qs) h = connect_failed target qs h
  step (closes raises) h = (close target raises h).host
  step (replaces raises executor path) h = (replace_providers target raises executor path h).host

  unfoldable pub run_steps : List Step → Host → Host
  unfolding step
  run_steps [] h = h
  run_steps (s ∷ steps) h = run_steps steps (step s h)

  -- Each call is of providers that the selectors have as it is made.
  unfoldable pub AreCurrent : List Step → Host → Type 0
  unfolding step IsOf
  AreCurrent [] h = Unit
  AreCurrent (s ∷ steps) h = IsOf (providers h) s × AreCurrent steps (step s h)

  module _ (uses : (ps : List ℕ) → Uses target ps (i ps)) where
    -- by the providers that the host has
    renewed : (ps : List ℕ) (h : Host) → IsTidy target ps h → IsTidy target (providers h) h
    renewed ps h t = subst (λ qs. IsTidy target qs h) (sym t.0) t

    step-IsTidy :
        (s : Step) (h : Host)
        → IsOf (providers h) s
        → IsTidy target (providers h) h
        → IsTidy target (providers (step s h)) (step s h)
    unfolding step IsOf
    step-IsTidy (ensures u) h k t =
        renewed (providers h) (step (ensures u) h)
          (ensure-IsTidy target (providers h) (i (providers h)) u h (uses (providers h)) k t)
    step-IsTidy (notes p) h k t = note_provider_in_use-IsTidy target (providers h) p h k t
    step-IsTidy (connects qs) h k t =
        renewed (providers h) (step (connects qs) h)
          (connect-IsTidy target (providers h) (i (providers h)) qs h (uses (providers h)) k t)
    step-IsTidy (fails_to_connect qs) h k t =
        renewed (providers h) (step (fails_to_connect qs) h)
          (connect_failed-IsTidy target (providers h) qs h k t)
    step-IsTidy (closes raises) h k t =
        renewed (providers h) (step (closes raises) h)
          (close-IsTidy target (providers h) raises h t)
    step-IsTidy (replaces raises executor path) h k t =
        renewed (set_after executor h.executors ++ set_after path h.paths)
          (step (replaces raises executor path) h)
          (replace_providers-IsTidy target (providers h) raises executor path h t)

    run_steps-IsTidy :
        (steps : List Step) (h : Host)
        → AreCurrent steps h
        → IsTidy target (providers h) h
        → IsTidy target (providers (run_steps steps h)) (run_steps steps h)
    unfolding run_steps AreCurrent
    run_steps-IsTidy [] h k t = t
    run_steps-IsTidy (s ∷ steps) h (ks, k) t =
        run_steps-IsTidy steps (step s h) k (step-IsTidy s h ks t)

-- After `close` no transport of a host is open, also if transports raise as they close, whatever calls of
-- these sorts were made to the new host before, one after the other: operations that connect or use a
-- provider, `connect`, also if it raises, `close` and `replace_providers`. Each operation is of a provider
-- that the host has as it is made, so none goes through a path from before its providers were replaced,
-- and all that the session initializer does is to use such providers.
pub run_steps-live :
    (target : ℕ → ℕ) (i : List ℕ → Option Initializer) (executors paths : List ℕ)
    (steps : List Step) (raises : ℕ → Option Fault) (x : ℕ)
    → ((ps : List ℕ) → Uses target ps (i ps))
    → AreCurrent target i steps (new executors paths)
    → member x (close target raises (run_steps target i steps (new executors paths))).host.live
      ≡ false
unfolding new
run_steps-live target i executors paths steps raises x uses known =
    let h = run_steps target i steps (new executors paths) in
    close-live target (providers h) raises h
      (run_steps-IsTidy target i uses steps (new executors paths) known (refl, λ y l. cc)) x
