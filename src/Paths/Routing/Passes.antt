-- ===== src/Paths/Routing/Passes.antt =====
-- `_dispatch` of paths/_mixin.py: one pass of its loop.
use hostctl.Prelude.{
  ℕ, suc, String, Bool, true, false, ◌≡◌, Option, none, some, List, [], ◌∷◌, ◌++◌,
}
use hostctl.Provider.Contracts.{Fault, NotStarted, Provider}
use hostctl.Provider.Selector.{Env, Selector, decline, effective_capabilities}
use hostctl.Provider.Selector.Select.{selected, not_started, Selected, Selection, select, served}
use hostctl.Paths.Routing.{
  PathOperation, provider_supports, Attempt, returned, unimplemented, declined, raised, Tried,
  Routing, result, not_implemented, failure, Dispatched, selection_request, adopted, logged,
  exhausted, dispatch_loop,
}

module _ {A : Type 0} (env : Env) (pin retry : Bool) (operation : PathOperation)
    (attempt : Provider → List (Tried A) → Attempt A) (old : Routing) (fuel : ℕ)
    (excluded : List String) (tried : List (Tried A)) (text : Option String)
    (refusal : Option NotStarted) (s : Selector) where
  abbrev pub chosen : Selected × Selector
  chosen = select 2 env (selection_request pin excluded) s

  abbrev pub this_pass : Dispatched A
  this_pass =
      dispatch_loop env pin retry operation attempt old (suc fuel) excluded tried text refusal s

  pub pass_none :
      (e : NotStarted)
      → chosen.0 ≡ not_started e
      → this_pass ≡ record {
        outcome = exhausted tried text refusal;
        tried = tried;
        routing = old;
        fallback = none;
        selector = chosen.1;
      }
  unfolding dispatch_loop
  pass_none e h = rw (h, dispatch_loop)

  module _ (sel : Selection) (h : chosen.0 ≡ selected sel) where
    abbrev pub provider : Provider
    provider = sel.provider

    abbrev pub probed : Selector
    probed = (effective_capabilities env provider chosen.1).1

    abbrev pub supported : Bool
    supported = provider_supports operation (effective_capabilities env provider chosen.1).0

    pub pass_skipped :
        supported ≡ false
        → this_pass
          ≡ dispatch_loop env pin retry operation attempt old fuel
              (excluded ++ provider.name ∷ [])
              tried
              text
              refusal
              probed
    unfolding dispatch_loop
    pass_skipped k = rw (h, k, dispatch_loop)

    pub pass_returned :
        (a : A)
        → supported ≡ true
        → attempt provider tried ≡ returned a
        → this_pass ≡ record {
          outcome = result a provider;
          tried = logged tried provider (returned a);
          routing = adopted pin true provider old;
          fallback = served env provider probed;
          selector = probed;
        }
    unfolding dispatch_loop
    pass_returned a k g = rw (h, k, g, dispatch_loop)

    -- where the next pass starts
    abbrev pub next : Attempt A → Option String → Option NotStarted → Selector → Dispatched A
    next given =
        dispatch_loop env pin retry operation attempt old fuel (excluded ++ provider.name ∷ [])
          (logged tried provider given)

    pub pass_declined :
        (e : NotStarted)
        → supported ≡ true
        → attempt provider tried ≡ declined e
        → this_pass ≡ next (declined e) text (some e) (decline provider.name e.reason none probed)
    unfolding dispatch_loop
    pass_declined e k g = rw (h, k, g, dispatch_loop)

    pub pass_raised :
        (built : Bool) (f : Fault)
        → supported ≡ true
        → attempt provider tried ≡ raised built f
        → this_pass ≡ record {
          outcome = failure f;
          tried = logged tried provider (raised built f);
          routing = adopted pin built provider old;
          fallback = served env provider probed;
          selector = probed;
        }
    unfolding dispatch_loop
    pass_raised built f k g = rw (h, k, g, dispatch_loop)

    pub pass_again :
        (built : Bool) (t : String)
        → retry ≡ true
        → supported ≡ true
        → attempt provider tried ≡ unimplemented built t
        → this_pass ≡ next (unimplemented built t) (some t) refusal probed
    unfolding dispatch_loop
    pass_again built t r k g = rw (h, k, g, r, dispatch_loop)

    pub pass_reported :
        (built : Bool) (t : String)
        → retry ≡ false
        → supported ≡ true
        → attempt provider tried ≡ unimplemented built t
        → this_pass ≡ record {
          outcome = not_implemented t;
          tried = logged tried provider (unimplemented built t);
          routing = adopted pin built provider old;
          fallback = none;
          selector = probed;
        }
    unfolding dispatch_loop
    pass_reported built t r k g = rw (h, k, g, r, dispatch_loop)
