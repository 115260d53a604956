-- ===== src/Executor/Tests.antt =====
-- A lease whose first holder comes late.
use hostctl.Prelude.{◌≡◌, refl, none, some, List, [], ◌∷◌}
use hostctl.Executor.Lease.{
  new, acquire, LeaseCall, acquires, releases, revokes, apply_call, apply_calls,
}
use hostctl.Executor.Lease.Exclusion.{IsOwned, apply_calls-IsOwned, apply_calls-held}

abbrev replaced : List LeaseCall
replaced = acquires ∷ revokes ∷ acquires ∷ []

abbrev late : List LeaseCall
late = releases 0 ∷ acquires ∷ []

apply_calls-IsOwned_example : IsOwned (apply_calls replaced new)
apply_calls-IsOwned_example = apply_calls-IsOwned replaced

second_holds : (apply_calls replaced new).current ≡ some 1
unfolding apply_calls apply_call
second_holds = refl

apply_calls-held_example :
    (apply_calls late (apply_calls replaced new) ≡ apply_calls replaced new)
    × (acquire (apply_calls late (apply_calls replaced new)) ≡ (none, apply_calls replaced new))
apply_calls-held_example =
    apply_calls-held late (apply_calls replaced new) 1 (apply_calls-IsOwned replaced) second_holds
      refl
