-- ===== src/Provider/Connect.antt =====
-- `SystemHost._connect_locked` of system/_host.py: a host connects a provider of each selector.
pub mod Cleanup
pub mod Outcome
use Prim.Native.String.{◌++◌ as str_append}
use hostctl.Prelude.{
  ℕ, zero, suc, ◌+◌, String, Bool, true, false, Option, none, some, List, [], ◌∷◌, ◌++◌, ◌&&◌, not,
  length, null, if◌then◌else◌,
}
use hostctl.Prelude.Dict.{Dict}
use hostctl.Provider.Contracts.{Fault, NotStarted, Provider}
use hostctl.Provider.Selector.{Env, Selector}
use hostctl.Provider.Selector.Select.{
  selected, not_started, Selected, Selection, out_of_fuel, select, joined,
}
use hostctl.Provider.Failover.{excluding, as_fault}

-- What `provider.connect()` does; a provider without it is connected.
pub data Attached : Type 0 where
  connected : Attached
  refused : NotStarted → Attached
  failed : Fault → Attached

-- A call of a provider's `connect` and what came of it.
pub record Connecting : Type 0 where
  pub provider : Provider
  pub result : Attached

-- What the loop over one selector ends with.
pub data Found : Type 0 where
  attached : Provider → Found
  none_left : Found
  broken : Fault → Found
  no_fuel : Found

-- The calls of `connect` so far, in order, with the selector afterwards.
pub record Pass : Type 0 where
  pub found : Found
  pub calls : List Connecting
  pub selector : Selector

abbrev pub called : List Connecting → Provider → Attached → List Connecting
called calls p given = calls ++ record { provider = p; result = given } ∷ []

-- What a call of `connect()` ends with: the connected providers, an exception with the providers that
-- were closed before it was raised again, or the error that no provider connected.
pub data Connected : Type 0 where
  established : List Provider → Connected
  closed_after : Fault → List Provider → Connected
  nothing_connected : NotStarted → Connected
  gave_out : Connected

pub record Connection : Type 0 where
  pub outcome : Connected
  pub calls : List Connecting
  pub executor : Selector
  pub path : Selector

-- `declined`: one text for each call that was refused.
unfoldable pub declined_texts : Env → List Connecting → Dict String
declined_texts env [] = []
declined_texts env (c ∷ cs) = elim c.result [
  | refused e ↦ (env.redact c.provider.name, env.redact e.reason) ∷ declined_texts env cs
  | connected ↦ declined_texts env cs
  | failed f ↦ declined_texts env cs
]

-- `first_decline`
unfoldable pub first_decline : List Connecting → Option Fault
unfolding as_fault
first_decline [] = none
first_decline (c ∷ cs) = elim c.result [
  | refused e ↦ some (as_fault e)
  | connected ↦ first_decline cs
  | failed f ↦ first_decline cs
]

-- `reversed(connected)`
abbrev pub reversed : List Provider → List Provider
reversed [] = []
reversed (p ∷ ps) = reversed ps ++ p ∷ []

-- The checks after both loops.
unfoldable pub finish : Env → List Provider → List Connecting → Connected
unfolding declined_texts first_decline joined
finish env ps calls =
    if not (null calls) && null ps
    then nothing_connected record {
      reason = str_append "no provider connected: " (joined (declined_texts env calls));
      cause = first_decline calls;
    }
    else established ps

-- What the second loop makes of the providers connected before it.
unfoldable pub path_outcome : Env → List Provider → Found → List Connecting → Connected
unfolding finish
path_outcome env ps (attached q) calls = finish env (ps ++ q ∷ []) calls
path_outcome env ps none_left calls = finish env ps calls
path_outcome env ps (broken f) calls = closed_after f (reversed ps)
path_outcome env ps no_fuel calls = gave_out

module _ (env : Env) (hook : Provider → List Connecting → Attached) where
  -- `while True` for one selector, on fuel.
  unfoldable pub connect_loop : ℕ → List String → List Connecting → Selector → Pass
  unfolding excluding
  connect_loop zero excluded calls s = record { found = no_fuel; calls = calls; selector = s }
  connect_loop (suc fuel) excluded calls s =
      let (choice, s1) = select 2 env (excluding excluded) s in
      elim choice [
        | out_of_fuel ↦ record { found = no_fuel; calls = calls; selector = s1 }
        | not_started e ↦ record { found = none_left; calls = calls; selector = s1 }
        | selected sel ↦
            let p = sel.provider in
            elim (hook p calls) [
              | refused e ↦
                  connect_loop fuel (excluded ++ p.name ∷ []) (called calls p (refused e)) s1
              | failed e ↦ record {
                found = broken e;
                calls = called calls p (failed e);
                selector = s1;
              }
              | connected ↦ record {
                found = attached p;
                calls = called calls p connected;
                selector = s1;
              }
            ]
      ]

  unfoldable pub connect_one : List Connecting → Selector → Pass
  unfolding connect_loop
  connect_one calls s = connect_loop (length s.providers + 1) [] calls s

  -- The loop over the path selector, with what the one over the executor selector connected.
  unfoldable pub connect_path : List Provider → Pass → Selector → Connection
  unfolding connect_one path_outcome
  connect_path ps first path =
      let second = connect_one first.calls path in
      record {
        outcome = path_outcome env ps second.found second.calls;
        calls = second.calls;
        executor = first.selector;
        path = second.selector;
      }

  -- `_connect_locked` of a host that is not connected, up to the session initializer.
  unfoldable pub connect_locked : Selector → Selector → Connection
  unfolding connect_path
  connect_locked executor path =
      let first = connect_one [] executor in
      elim first.found [
        | attached p ↦ connect_path (p ∷ []) first path
        | none_left ↦ connect_path [] first path
        | broken f ↦ record {
          outcome = closed_after f [];
          calls = first.calls;
          executor = first.selector;
          path = path;
        }
        | no_fuel ↦ record {
          outcome = gave_out;
          calls = first.calls;
          executor = first.selector;
          path = path;
        }
      ]
