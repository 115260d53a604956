-- ===== src/Provider/Selector/Select.antt =====
-- provider/_selector.py: `select`, `_readmit_earlier_declines` and `_served`.
use Prim.Native.String.{◌++◌}
use hostctl.Prelude.{
  ℕ, zero, suc, String, str_eq, Bool, true, false, ◌&&◌, not, Option, none, some, List, [], ◌∷◌,
  map, if◌then◌else◌, null, contains, filter_by,
}
use hostctl.Prelude.Dict.{Dict, get, pop, has_key}
use hostctl.Provider.Contracts.{NotStarted, unavailable, Step, Provider}
use hostctl.Provider.Selector.{
  Env, Selector, Request, declines, probe, allows, offers, record_step, declined_step, probed_step,
}

-- One round of the loop over the providers: whether it returns this provider.
unfoldable pub consider : Env → Request → Provider → Selector → Bool × Selector
unfolding declined_step probed_step record_step probe
consider env q p s = elim (get p.name s.declined) [
  | some reason ↦ (false, record_step (declined_step env q p reason s) s)
  | none ↦
      if contains q.exclude p.name
      then (false, s)
      else let (result, s') = probe env p s in
        (allows q p result, record_step (probed_step env q p result s') s')
]

-- The loop over the providers, until one is allowed.
unfoldable pub scan : Env → Request → List Provider → Selector → Option Provider × Selector
unfolding consider
scan env q [] s = (none, s)
scan env q (p ∷ ps) s =
    let (taken, s') = consider env q p s in
    elim taken [ true ↦ (some p, s') | false ↦ scan env q ps s' ]

-- Whether `_readmit_earlier_declines` forgets the decline of this provider.
unfoldable pub is_stale : Request → Dict String → Provider → Bool
unfolding offers
is_stale q declined p =
    has_key p.name declined && not (contains q.exclude p.name) && offers q.capability p.capabilities

unfoldable pub pop_all {ℓ} : {V : Type ℓ} → List String → Dict V → Dict V
pop_all [] d = d
pop_all (k ∷ ks) d = pop_all ks (pop k d)

-- `_readmit_earlier_declines`
unfoldable pub readmit : Request → Selector → Bool × Selector
unfolding is_stale pop_all
readmit q s =
    let stale = map (λ p. p.name) (filter_by (is_stale q s.declined) s.providers) in
    (
      not (null stale),
      record s { declined = pop_all stale s.declined; causes = pop_all stale s.causes },
    )

-- `ProviderSelection`
pub record Selection : Type 0 where
  pub provider : Provider
  pub trace : Dict Step
  pub generation : ℕ
  pub pinned : Bool

unfoldable pub selection : Request → Provider → Selector → Selection
selection q p s = record {
  provider = p;
  trace = s.trace;
  generation = s.generation;
  pinned = q.pin;
}

-- What a call of `select` gives; `out_of_fuel` is not the code's.
pub data Selected : Type 0 where
  selected : Selection → Selected
  not_started : NotStarted → Selected
  out_of_fuel : Selected

-- `"; ".join(f"{name}: {reason}" ...)`
unfoldable pub joined : Dict String → String
joined [] = ""
joined ((n, r) ∷ []) = n ++ ": " ++ r
joined ((n, r) ∷ e ∷ d) = n ++ ": " ++ r ++ "; " ++ joined (e ∷ d)

unfoldable pub last_key {ℓ} : {V : Type ℓ} → Dict V → Option String
last_key [] = none
last_key ((k, v) ∷ []) = some k
last_key ((k, v) ∷ e ∷ d) = last_key (e ∷ d)

-- The error of a `select` that finds nothing: the cause is that of the last decline.
unfoldable pub no_provider : Env → Selector → NotStarted
unfolding joined last_key declines
no_provider env s =
    let detail = joined (declines env s) in
    record {
      reason =
          if str_eq detail ""
          then "no provider is available"
          else "no provider is available" ++ " (" ++ detail ++ ")";
      cause = elim (last_key s.declined) [ none ↦ none | some n ↦ get n s.causes ];
    }

-- `if not excluded: self._attempt_trace = {}`
unfoldable pub start_trace : Request → Selector → Selector
start_trace q s = if null q.exclude then record s { trace = [] } else s

-- `select`, whose call of itself takes fuel.
unfoldable pub select : ℕ → Env → Request → Selector → Selected × Selector
unfolding scan readmit no_provider selection start_trace
select zero env q s = (out_of_fuel, s)
select (suc fuel) env q s =
    let (found, s1) = scan env q s.providers (start_trace q s) in
    elim found [
      | some p ↦ (selected (selection q p s1), s1)
      | none ↦
          let (again, s2) = readmit q s1 in
          elim again [
            | true ↦ select fuel env q s2
            | false ↦ (not_started (no_provider env s2), s2)
          ]
    ]

-- The steps before the provider's own, if it has one.
unfoldable pub steps_before : String → Dict Step → Option (List Step)
steps_before name [] = none
steps_before name ((k, step) ∷ d) =
    if str_eq step.provider name
    then some []
    else elim (steps_before name d) [ none ↦ none | some steps ↦ some (step ∷ steps) ]

unfoldable pub is_unavailable : Step → Bool
is_unavailable step = elim step.availability [ unavailable ↦ true | _ ↦ false ]

-- `_served`: the steps that the fallback hook is called with, `none` if it is not called.
unfoldable pub served : Env → Provider → Selector → Option (List Step)
unfolding steps_before is_unavailable
served env p s = elim (steps_before (env.redact p.name) s.trace) [
  | none ↦ none
  | some steps ↦
      let skipped = filter_by is_unavailable steps in if null skipped then none else some skipped
]
