-- ===== src/Paths/Routing.antt =====
-- `_dispatch` of paths/_mixin.py for a path that has a selector, with `_provider_supports` of
-- paths/_forwarding.py. A provider with its backend path and its factory is the provider here.
pub mod Passes
pub mod Dispatch
pub mod Sound
pub mod Pinned
pub mod Tests
use hostctl.Prelude.{
  ℕ, zero, suc, ◌+◌, String, Bool, true, false, Option, none, some, List, [], ◌∷◌, ◌++◌, ◌&&◌, ◌||◌,
  not, contains, any, length, null, if◌then◌else◌,
}
use hostctl.Provider.Contracts.{Fault, NotStarted, Step, Provider}
use hostctl.Provider.Selector.{Env, Selector, Request, decline, effective_capabilities}
use hostctl.Provider.Selector.Select.{selected, not_started, out_of_fuel, select, served}

-- `PathOperation`: the alternatives that `split("|")` gives.
abbrev pub PathOperation : Type 0
PathOperation = List String

-- `_provider_supports`
unfoldable pub provider_supports : PathOperation → List String → Bool
provider_supports alternatives capabilities =
    contains capabilities "path"
    || any (contains capabilities) alternatives
    || (contains alternatives "open_read" && contains capabilities "open")

-- What `connect`, the building of the backend path and the callback give together. A mark says whether
-- the backend path had been built before the exception.
pub data Attempt {ℓ} (A : Type ℓ) : Type ℓ where
  returned : A → Attempt A
  unimplemented : Bool → String → Attempt A
  declined : NotStarted → Attempt A
  raised : Bool → Fault → Attempt A

pub record Tried {ℓ} (A : Type ℓ) : Type ℓ where
  pub name : String
  pub attempt : Attempt A

-- `_provider` and `_pinned` of a path.
pub record Routing : Type 0 where
  pub provider : Option Provider
  pub pinned : Bool

pub data Outcome {ℓ} (A : Type ℓ) : Type ℓ where
  result : A → Provider → Outcome A
  unsupported no_fuel : Outcome A
  not_implemented : String → Outcome A
  none_completed : Option NotStarted → Outcome A
  failure : Fault → Outcome A

-- A finished dispatch, with the attempts in order, the path's routing and the selector afterwards, and
-- the steps that the fallback hook was called with.
pub record Dispatched {ℓ} (A : Type ℓ) : Type ℓ where
  pub outcome : Outcome A
  pub tried : List (Tried A)
  pub routing : Routing
  pub fallback : Option (List Step)
  pub selector : Selector

-- `select(exclude=excluded, pin=pin)`
unfoldable pub selection_request : Bool → List String → Request
selection_request pin names = record { capability = none; exclude = names; pin = pin }

-- `_adopt`, for an operation that pins.
unfoldable pub adopted : Bool → Bool → Provider → Routing → Routing
adopted pin built p r = if pin && built then record { provider = some p; pinned = true } else r

unfoldable pub logged {ℓ} : {A : Type ℓ} → List (Tried A) → Provider → Attempt A → List (Tried A)
logged tried p given = tried ++ record { name = p.name; attempt = given } ∷ []

-- What `_dispatch` raises once no candidate is left.
unfoldable pub exhausted {ℓ} :
    {A : Type ℓ} → List (Tried A) → Option String → Option NotStarted → Outcome A
exhausted tried (some text) refusal = if null tried then unsupported else not_implemented text
exhausted tried none refusal = if null tried then unsupported else none_completed refusal

module _ {ℓ} {A : Type ℓ} (env : Env) (pin retry : Bool) (operation : PathOperation)
    (attempt : Provider → List (Tried A) → Attempt A) (old : Routing) where
  -- The loop over the selected providers, on fuel; `old` is the routing before it, which each attempt
  -- that goes on restores.
  unfoldable pub dispatch_loop :
      ℕ → List String → List (Tried A) → Option String → Option NotStarted → Selector → Dispatched A
  unfolding selection_request adopted logged exhausted provider_supports decline served
  dispatch_loop zero excluded tried text refusal s = record {
    outcome = no_fuel;
    tried = tried;
    routing = old;
    fallback = none;
    selector = s;
  }
  dispatch_loop (suc fuel) excluded tried text refusal s =
      let (choice, s1) = select 2 env (selection_request pin excluded) s in
      elim choice [
        | out_of_fuel ↦ record {
          outcome = no_fuel;
          tried = tried;
          routing = old;
          fallback = none;
          selector = s1;
        }
        | not_started e ↦ record {
          outcome = exhausted tried text refusal;
          tried = tried;
          routing = old;
          fallback = none;
          selector = s1;
        }
        | selected sel ↦
            let p = sel.provider in
            let (capabilities, s2) = effective_capabilities env p s1 in
            let skipped = dispatch_loop fuel (excluded ++ p.name ∷ []) tried text refusal s2 in
            let attempted : Dispatched A = elim (attempt p tried) [
              | returned a ↦ record {
                outcome = result a p;
                tried = logged tried p (returned a);
                routing = adopted pin true p old;
                fallback = served env p s2;
                selector = s2;
              }
              | declined e ↦
                  dispatch_loop fuel (excluded ++ p.name ∷ []) (logged tried p (declined e)) text
                    (some e) (decline p.name e.reason none s2)
              | raised built f ↦ record {
                outcome = failure f;
                tried = logged tried p (raised built f);
                routing = adopted pin built p old;
                fallback = served env p s2;
                selector = s2;
              }
              | unimplemented built t ↦
                  let again =
                    dispatch_loop fuel (excluded ++ p.name ∷ [])
                      (logged tried p (unimplemented built t)) (some t) refusal s2 in
                  if retry then again else record {
                    outcome = not_implemented t;
                    tried = logged tried p (unimplemented built t);
                    routing = adopted pin built p old;
                    fallback = none;
                    selector = s2;
                  }
            ] in
            if provider_supports operation capabilities then attempted else skipped
      ]

  -- `_dispatch` of a path that is not pinned.
  unfoldable pub dispatch : Selector → Dispatched A
  unfolding dispatch_loop
  dispatch s = dispatch_loop (length s.providers + 1) [] [] none none s

  -- The only candidate of a pinned path is its provider, if it supports the operation.
  unfoldable pub dispatch_pinned : Option Provider → Selector → Dispatched A
  unfolding adopted logged provider_supports decline
  dispatch_pinned none s = record {
    outcome = unsupported;
    tried = [];
    routing = old;
    fallback = none;
    selector = s;
  }
  dispatch_pinned (some p) s =
      let (capabilities, s1) = effective_capabilities env p s in
      let attempted : Dispatched A = elim (attempt p []) [
        | returned a ↦ record {
          outcome = result a p;
          tried = logged [] p (returned a);
          routing = adopted pin true p old;
          fallback = none;
          selector = s1;
        }
        | declined e ↦ record {
          outcome = none_completed (some e);
          tried = logged [] p (declined e);
          routing = old;
          fallback = none;
          selector = decline p.name e.reason none s1;
        }
        | raised built f ↦ record {
          outcome = failure f;
          tried = logged [] p (raised built f);
          routing = adopted pin built p old;
          fallback = none;
          selector = s1;
        }
        | unimplemented built t ↦ record {
          outcome = not_implemented t;
          tried = logged [] p (unimplemented built t);
          routing = if retry then old else adopted pin built p old;
          fallback = none;
          selector = s1;
        }
      ] in
      if provider_supports operation capabilities then attempted else record {
        outcome = unsupported;
        tried = [];
        routing = old;
        fallback = none;
        selector = s1;
      }

  -- `_dispatch`: the candidates of a pinned path are not chosen by its selector.
  unfoldable pub dispatch_path : Selector → Dispatched A
  unfolding dispatch dispatch_pinned
  dispatch_path s = if old.pinned then dispatch_pinned old.provider s else dispatch s
