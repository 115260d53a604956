-- ===== src/Host/Lifecycle/Tests.antt =====
-- Hosts with two executors over one transport and a path provider.
use hostctl.Prelude.{
  ℕ, ◌≡◌, refl, true, false, Option, none, some, List, [], ◌∷◌, ◌&&◌, ◌||◌, ◌==◌, arith, not,
  member, leb, if◌then◌else◌,
}
use hostctl.Provider.Contracts.{Fault}
use hostctl.Host.Lifecycle.{Host, Initializer}
use hostctl.Host.Lifecycle.Close.{close_targets, close, first_raised, is_distinct}
use hostctl.Host.Lifecycle.Leaks.{Uses}
use hostctl.Host.Lifecycle.Known.{known, close_lem}
use hostctl.Host.Lifecycle.Runs.{
  Step, ensures, notes, connects, closes, new, step, run_steps, run_steps-live, AreCurrent,
  replaces, fails_to_connect,
}

-- Providers 1 and 2 share the transport 10.
abbrev transport : ℕ → ℕ
transport p = if leb p 2 then 10 else p

abbrev broken : Fault
broken = record { kind = "OSError"; text = "gone" }

abbrev fails_at_10 : ℕ → Option Fault
fails_at_10 t = if leb t 10 && leb 10 t then some broken else none

-- It uses the second provider, if there is one.
abbrev initializer : List ℕ → Option Initializer
initializer (p ∷ q ∷ ps) =
    some record { uses = record { provider = q; raises = none } ∷ []; raises = some broken }
initializer _ = none

initializer-Uses : (ps : List ℕ) → Uses transport ps (initializer ps)
initializer-Uses [] = tt
initializer-Uses (p ∷ []) = tt
initializer-Uses (p ∷ q ∷ ps) = let same : (q == q) ≡ true = ground arith in (ground arith, tt)

abbrev life : List Step
life =
    ensures record { provider = 1; raises = none }
    ∷ closes fails_at_10
    ∷ connects (2 ∷ 3 ∷ [])
    ∷ notes 3
    ∷ replaces fails_at_10 (some (4 ∷ 2 ∷ [])) none
    ∷ fails_to_connect (4 ∷ [])
    ∷ ensures record { provider = 4; raises = none }
    ∷ []

abbrev used_host : Host
used_host = run_steps transport initializer life (new (1 ∷ 2 ∷ []) (3 ∷ []))

run_steps-live_example :
    member 10
      (close transport fails_at_10
        (run_steps transport initializer life (new (1 ∷ 2 ∷ []) (3 ∷ [])))).host.live
    ≡ false
unfolding AreCurrent new step
run_steps-live_example =
    run_steps-live transport initializer (1 ∷ 2 ∷ []) (3 ∷ []) life fails_at_10 10 initializer-Uses
      (refl, (tt, ((refl, (refl, tt)), (refl, (tt, ((refl, tt), (refl, tt)))))))

close_lem_example :
    ((x : ℕ)
      → member x (close_targets transport fails_at_10 used_host).closing ≡ (
          member x (known transport fails_at_10 used_host)
          && not (member x used_host.closed_targets)))
    × (is_distinct (close_targets transport fails_at_10 used_host).closing ≡ true)
    × ((x : ℕ)
        → member x (close transport fails_at_10 used_host).host.closed_targets
          ≡ (member x used_host.closed_targets || member x (known transport fails_at_10 used_host)))
    × ((close transport fails_at_10 used_host).error
        ≡ first_raised transport fails_at_10
            (close_targets transport fails_at_10 used_host).closing)
    × ((close transport fails_at_10 used_host).host.connected ≡ false)
    × ((close transport fails_at_10 used_host).host.connected_providers ≡ [])
close_lem_example = close_lem transport fails_at_10 used_host

-- The failing transport is the last to close, and its error is raised after the others closed.
closed_in_order :
    close_targets transport fails_at_10 (new (1 ∷ 2 ∷ []) (3 ∷ []))
    ≡ record { closing = 3 ∷ 10 ∷ []; closed = 10 ∷ 3 ∷ []; error = some broken }
unfolding close_targets new
closed_in_order = refl
