-- ===== src/Paths/Routing/Sound.antt =====
-- `_dispatch` of paths/_mixin.py: every dispatch ends, and is accounted for by its attempts.
use hostctl.Prelude.{
  ℕ, zero, suc, ◌+◌, ◌<◌, String, Bool, true, false, ◌≡◌, refl, sym, subst, ◌∙◌, Option, none, some,
  List, [], ◌∷◌, ◌++◌, inl, inr, contains, arith, Bool-cases, length,
}
use hostctl.Provider.Contracts.{NotStarted, Provider}
use hostctl.Provider.Selector.{Env, Selector, has_duplicate, decline, effective_capabilities}
use hostctl.Provider.Selector.Select.{
  selected, not_started, out_of_fuel, Selected, Selection, select,
}
use hostctl.Provider.Selector.Scan.{probe-Later}
use hostctl.Provider.Selector.Termination.{select_total}
use hostctl.Provider.Selector.Choice.{Contract, select-Contract}
use hostctl.Provider.Failover.Steps.{FirstAccepted-accepts, accepts-not_excluded}
use hostctl.Provider.Failover.Progress.{
  remaining, remaining_le_length, remaining_chosen, select-providers,
}
use hostctl.Paths.Routing.{
  PathOperation, provider_supports, Attempt, returned, unimplemented, declined, raised, Tried,
  Routing, Dispatched, selection_request, logged, exhausted, dispatch_loop, dispatch,
}
use hostctl.Paths.Routing.Passes.{
  pass_none, pass_skipped, pass_returned, pass_declined, pass_raised, pass_again, pass_reported,
}
use hostctl.Paths.Routing.Dispatch.{
  Yields, text_from, Accounts, AllYield, Sound, IsPending, start_IsPending, skip_IsPending,
  next_distinct, next_IsPending, names, refusal_from, text_after, refusal_after,
}

module _ {A : Type 0} (pin retry : Bool) (old : Routing) where
  -- What is raised once no candidate is left accounts for the attempts.
  exhausted-Accounts :
      (tried : List (Tried A)) (text : Option String) (refusal : Option NotStarted)
      → AllYield retry tried
      → text_from none tried ≡ text
      → refusal_from none tried ≡ refusal
      → Accounts pin retry old (exhausted tried text refusal) tried old
  unfolding exhausted
  exhausted-Accounts [] none refusal h k l = (refl, refl)
  exhausted-Accounts [] (some t) refusal h k l = (refl, refl)
  exhausted-Accounts (x ∷ xs) none refusal h k l = (h, k, l, refl)
  exhausted-Accounts (x ∷ xs) (some t) refusal h k l = inl (h, k, refl)

module _ {A : Type 0} (env : Env) (pin retry : Bool) (operation : PathOperation)
    (attempt : Provider → List (Tried A) → Attempt A) (old : Routing) where
  abbrev loop :
      ℕ → List String → List (Tried A) → Option String → Option NotStarted → Selector → Dispatched A
  loop = dispatch_loop env pin retry operation attempt old

  module _ (fuel : ℕ) (excluded : List String) (tried : List (Tried A)) (text : Option String)
      (refusal : Option NotStarted) (s : Selector) (h : IsPending retry excluded tried text refusal)
      (rec : (ex : List String) (tr : List (Tried A)) (tx : Option String) (re : Option NotStarted)
          (t : Selector)
        → IsPending retry ex tr tx re
        → remaining ex t.providers < fuel
        → Sound pin retry old (loop fuel ex tr tx re t))
      (enough : remaining excluded s.providers < suc fuel) where
    abbrev after : Dispatched A
    after = loop (suc fuel) excluded tried text refusal s

    abbrev chosen : Selected × Selector
    chosen = select 2 env (selection_request pin excluded) s

    module _ (sel : Selection) (k : chosen.0 ≡ selected sel) where
      abbrev provider : Provider
      provider = sel.provider

      abbrev seen : List String
      seen = excluded ++ provider.name ∷ []

      abbrev probed : Selector
      probed = (effective_capabilities env provider chosen.1).1

      abbrev supported : Bool
      supported = provider_supports operation (effective_capabilities env provider chosen.1).0

      contract : Contract (selection_request pin excluded) s.providers (selected sel) chosen.1
      contract =
          subst (λ c. Contract (selection_request pin excluded) s.providers c chosen.1) k
            (select-Contract env (selection_request pin excluded) 0 s)

      fresh : contains excluded provider.name ≡ false
      unfolding selection_request
      fresh = accepts-not_excluded (selection_request pin excluded) chosen.1 provider (
          FirstAccepted-accepts (selection_request pin excluded) chosen.1 s.providers provider
            contract.0)

      probed-providers : probed.providers ≡ s.providers
      unfolding effective_capabilities
      probed-providers =
          (probe-Later env provider chosen.1).providers
          ∙ select-providers env (selection_request pin excluded) s

      fewer : (t : Selector) → t.providers ≡ s.providers → remaining seen t.providers < fuel
      unfolding selection_request
      fewer t same =
          let less =
            remaining_chosen (selection_request pin excluded) chosen.1 s.providers provider
              contract.0 in
          subst (λ ps. remaining seen ps < fuel) (sym same) (omega arith)

      -- the passes after an attempt that yielded
      go_on :
          (given : Attempt A) (t : Selector)
          → Yields retry given
          → t.providers ≡ s.providers
          → Sound pin retry old (
              loop fuel seen
                (logged tried provider given)
                (text_after given text)
                (refusal_after given refusal)
                t)
      go_on given t yield same =
          rec seen (logged tried provider given) (text_after given text)
            (refusal_after given refusal) t
            (next_IsPending retry excluded tried text refusal provider h given yield fresh)
            (fewer t same)

      distinct : (given : Attempt A) → has_duplicate (names (logged tried provider given)) ≡ false
      distinct given = next_distinct retry excluded tried text refusal provider h given fresh

      unimplemented-Sound :
          (built : Bool) (t : String)
          → supported ≡ true
          → attempt provider tried ≡ unimplemented built t
          → Sound pin retry old after
      unfolding text_after refusal_after
      unimplemented-Sound built t u g = elim (Bool-cases retry) [
        | inl r ↦
            rw
              (pass_again env pin retry operation attempt old fuel excluded tried text refusal s sel
                k built t r u g)
              (go_on (unimplemented built t) probed r probed-providers)
        | inr r ↦
            rw
              (pass_reported env pin retry operation attempt old fuel excluded tried text refusal s
                sel k built t r u g)
              (
                distinct (unimplemented built t),
                inr (r, built, provider, (tried, refl, h.yields), refl),
              )
      ]

      attempted-Sound :
          (given : Attempt A)
          → supported ≡ true
          → attempt provider tried ≡ given
          → Sound pin retry old after
      unfolding decline text_after refusal_after
      attempted-Sound (returned a) u g =
          rw
            (pass_returned env pin retry operation attempt old fuel excluded tried text refusal s
              sel k a u g)
            (distinct (returned a), ((tried, refl, h.yields), refl))
      attempted-Sound (raised built f) u g =
          rw
            (pass_raised env pin retry operation attempt old fuel excluded tried text refusal s sel
              k built f u g)
            (distinct (raised built f), (built, provider, (tried, refl, h.yields), refl))
      attempted-Sound (declined e) u g =
          rw
            (pass_declined env pin retry operation attempt old fuel excluded tried text refusal s
              sel k e u g)
            (go_on (declined e) (decline provider.name e.reason none probed) tt probed-providers)
      attempted-Sound (unimplemented built t) u g = unimplemented-Sound built t u g

      selected-Sound : Sound pin retry old after
      selected-Sound = elim (Bool-cases supported) [
        | inl u ↦ attempted-Sound (attempt provider tried) u refl
        | inr u ↦
            rw
              (pass_skipped env pin retry operation attempt old fuel excluded tried text refusal s
                sel k u)
              (rec seen tried text refusal probed
                (skip_IsPending retry excluded tried text refusal provider h)
                (fewer probed probed-providers))
      ]

    chosen-Sound : (c : Selected) → chosen.0 ≡ c → Sound pin retry old after
    chosen-Sound out_of_fuel k =
        absurd ((select_total env (selection_request pin excluded) 0 s).0 k)
    chosen-Sound (not_started e) k =
        rw (pass_none env pin retry operation attempt old fuel excluded tried text refusal s e k) (
          h.distinct,
          exhausted-Accounts pin retry old tried text refusal h.yields h.last_text h.last_refusal,
        )
    chosen-Sound (selected sel) k = selected-Sound sel k

  loop-Sound :
      (fuel : ℕ) (excluded : List String) (tried : List (Tried A)) (text : Option String)
      (refusal : Option NotStarted) (s : Selector)
      → IsPending retry excluded tried text refusal
      → remaining excluded s.providers < fuel
      → Sound pin retry old (loop fuel excluded tried text refusal s)
  loop-Sound zero excluded tried text refusal s h lt = absurd (omega arith)
  loop-Sound (suc fuel) excluded tried text refusal s h lt =
      chosen-Sound fuel excluded tried text refusal s h (loop-Sound fuel) lt
        (select 2 env (selection_request pin excluded) s).0 refl

  pub dispatch-Sound :
      (s : Selector) → Sound pin retry old (dispatch env pin retry operation attempt old s)
  unfolding dispatch
  dispatch-Sound s =
      loop-Sound (length s.providers + 1) [] [] none none s (start_IsPending retry)
        (omega (arith, remaining_le_length [] s.providers))
