-- ===== src/Executor/Lease.antt =====
-- `StreamLease` and `LeaseToken` of executor.py. The token objects live in a store; a token is its
-- index there. Each method runs under the guard, so that calls from several threads come one after
-- the other.
pub mod Marks
pub mod Exclusion
use hostctl.Prelude.{
  ℕ, zero, suc, ◌+◌, Bool, true, false, Option, none, some, List, [], ◌∷◌, ◌++◌, ◌==◌, ◌&&◌, ltb,
  length, if◌then◌else◌,
}

-- Whether each token has ended (`LeaseToken.ended`), the holder, how often `on_end` has run.
pub record Lease : Type 0 where
  pub ended : List Bool
  pub current : Option ℕ
  pub on_end_runs : ℕ

-- `__init__`
abbrev pub new : Lease
new = record { ended = []; current = none; on_end_runs = 0 }

-- `token.ended.set()`
abbrev pub set_ended : ℕ → List Bool → List Bool
set_ended t [] = []
set_ended zero (e ∷ es) = true ∷ es
set_ended (suc t) (e ∷ es) = e ∷ set_ended t es

-- `token.ended.is_set()`
abbrev pub has_ended : ℕ → List Bool → Bool
has_ended t [] = false
has_ended zero (e ∷ es) = e
has_ended (suc t) (e ∷ es) = has_ended t es

-- `_end_current`, for the token that is the holder.
unfoldable pub end_current : ℕ → Lease → Lease
end_current t s = record {
  ended = set_ended t s.ended;
  current = none;
  on_end_runs = s.on_end_runs + 1;
}

-- `acquire`: the new token, `none` is its `RuntimeError`.
unfoldable pub acquire : Lease → Option ℕ × Lease
acquire s = elim s.current [
  | some t ↦ (none, s)
  | none ↦
      let token = length s.ended in
      (some token, record s { ended = s.ended ++ false ∷ []; current = some token })
]

abbrev pub holds : Option ℕ → ℕ → Bool
holds none t = false
holds (some c) t = c == t

-- `release`
unfoldable pub release : ℕ → Lease → Lease
unfolding end_current
release t s =
    if holds s.current t then end_current t s else record s { ended = set_ended t s.ended }

-- `revoke`
unfoldable pub revoke : Lease → Lease
unfolding end_current
revoke s = elim s.current [ none ↦ s | some t ↦ end_current t s ]

-- A call of a method, from whatever thread. A call with no token at hand is left out: only tokens
-- that `acquire` returned are released.
pub data LeaseCall : Type 0 where
  acquires : LeaseCall
  releases : ℕ → LeaseCall
  revokes : LeaseCall

unfoldable pub apply_call : LeaseCall → Lease → Lease
unfolding acquire release revoke
apply_call acquires s = (acquire s).1
apply_call (releases t) s = if ltb t (length s.ended) then release t s else s
apply_call revokes s = revoke s

unfoldable pub apply_calls : List LeaseCall → Lease → Lease
unfolding apply_call
apply_calls [] s = s
apply_calls (call ∷ calls) s = apply_calls calls (apply_call call s)
