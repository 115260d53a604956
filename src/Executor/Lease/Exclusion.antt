-- ===== src/Executor/Lease/Exclusion.antt =====
-- A lease has one holder at a time, and the other tokens have ended.
use hostctl.Prelude.{
  ℕ, ◌+◌, ◌<◌, Bool, true, false, ◌≡◌, refl, ap, ◌∙◌, sym, Option, none, some, List, [], ◌∷◌, ◌++◌,
  arith, ◌==◌, ==_iff, not, ltb, length, length-append, Bool-cases, Option-cases, inl, inr, all,
}
use hostctl.Executor.Lease.{
  Lease, new, set_ended, has_ended, end_current, acquire, holds, release, revoke, LeaseCall,
  acquires, releases, revokes, apply_call, apply_calls,
}
use hostctl.Executor.Lease.Marks.{
  count, length-set_ended, set_ended-again, has_ended-set_ended, count-set_ended, has_ended-append,
  has_ended-fresh, count-append,
}

-- A token has ended unless it is the holder, the holder is a token, and `on_end` has run once for
-- each token that has ended.
abbrev pub IsOwned : Lease → Type 0
IsOwned s =
    ((t : ℕ) → t < length s.ended → has_ended t s.ended ≡ not (holds s.current t))
    × ((t : ℕ) → holds s.current t ≡ true → t < length s.ended)
    × (s.on_end_runs ≡ count s.ended)

IsOwned-new : IsOwned new
IsOwned-new = ((λ t h. ground arith), (λ t h. ground arith), refl)

pub acquire-held : (s : Lease) (t : ℕ) → s.current ≡ some t → acquire s ≡ (none, s)
unfolding acquire
acquire-held s t h = rw h refl

acquired_marked :
    (es : List Bool) (t : ℕ)
    → ((u : ℕ) → u < length es → has_ended u es ≡ true)
    → t < length (es ++ false ∷ [])
    → has_ended t (es ++ false ∷ []) ≡ not (length es == t)
acquired_marked es t marked h = elim (Bool-cases (length es == t)) [
  | inl e ↦ rw (e, sym ((==_iff (length es) t).0 e)) (has_ended-fresh es)
  | inr e ↦
      let before : t < length es = ground (arith, length-append es (false ∷ [])) in
      rw e (has_ended-append t es before ∙ marked t before)
]

holds-none : (c : Option ℕ) (u : ℕ) → c ≡ none → holds c u ≡ false
holds-none c u h = rw h refl

holds-some : (c : Option ℕ) (t : ℕ) → c ≡ some t → holds c t ≡ true
holds-some c t h = rw h ((==_iff t t).1 refl)

acquire_free :
    (s : Lease)
    → s.current ≡ none
    → (acquire s).1 ≡ record s { ended = s.ended ++ false ∷ []; current = some (length s.ended) }
unfolding acquire
acquire_free s e = rw e refl

acquire_free-IsOwned : (s : Lease) → s.current ≡ none → IsOwned s → IsOwned (acquire s).1
acquire_free-IsOwned s e (marked, inside, counted) = rw (acquire_free s e) (
  (λ t h. acquired_marked s.ended t (λ u k. marked u k ∙ ap not (holds-none s.current u e)) h),
  (λ t h. ground (arith, length-append s.ended (false ∷ []))),
  counted ∙ sym (count-append s.ended),
)

acquire-IsOwned : (s : Lease) → IsOwned s → IsOwned (acquire s).1
acquire-IsOwned s owned = elim (Option-cases s.current) [
  | inr (t, e) ↦ rw (acquire-held s t e) owned
  | inl e ↦ acquire_free-IsOwned s e owned
]

holds_one : (c : Option ℕ) (t u : ℕ) → holds c t ≡ true → (t == u) ≡ false → holds c u ≡ false
holds_one none t u h k = refl
holds_one (some c) t u h k = ground arith

end_marked :
    (t : ℕ) (s : Lease) (u : ℕ)
    → IsOwned s
    → holds s.current t ≡ true
    → u < length s.ended
    → has_ended u (set_ended t s.ended) ≡ true
end_marked t s u (marked, inside, counted) h k =
    has_ended-set_ended u t s.ended (inside t h) ∙ elim (Bool-cases (t == u)) [
      | inl e ↦ rw e refl
      | inr e ↦ rw e (marked u k ∙ ap not (holds_one s.current t u h e))
    ]

end_current-IsOwned :
    (t : ℕ) (s : Lease) → holds s.current t ≡ true → IsOwned s → IsOwned (end_current t s)
unfolding end_current
end_current-IsOwned t s h owned =
    let (marked, inside, counted) = owned in
    (
      (λ u k. end_marked t s u owned h (omega (arith, length-set_ended t s.ended))),
      (λ u k. ground arith),
      ap (λ n. n + 1) counted
          ∙ sym (count-set_ended t s.ended (inside t h) (marked t (inside t h) ∙ ap not h)),
    )

-- A late release does nothing at all.
release-stale :
    (t : ℕ) (s : Lease)
    → IsOwned s
    → t < length s.ended
    → holds s.current t ≡ false
    → release t s ≡ s
unfolding release
release-stale t s (marked, inside, counted) h k =
    rw (k, set_ended-again t s.ended (marked t h ∙ ap not k)) refl

release-held : (t : ℕ) (s : Lease) → holds s.current t ≡ true → release t s ≡ end_current t s
unfolding release
release-held t s h = rw h refl

release-IsOwned : (t : ℕ) (s : Lease) → t < length s.ended → IsOwned s → IsOwned (release t s)
release-IsOwned t s h owned = elim (Bool-cases (holds s.current t)) [
  | inl e ↦ rw (release-held t s e) (end_current-IsOwned t s e owned)
  | inr e ↦ rw (release-stale t s owned h e) owned
]

revoke_free : (s : Lease) → s.current ≡ none → revoke s ≡ s
unfolding revoke
revoke_free s e = rw e refl

revoke_held : (s : Lease) (t : ℕ) → s.current ≡ some t → revoke s ≡ end_current t s
unfolding revoke
revoke_held s t e = rw e refl

revoke-IsOwned : (s : Lease) → IsOwned s → IsOwned (revoke s)
revoke-IsOwned s owned = elim (Option-cases s.current) [
  | inl e ↦ rw (revoke_free s e) owned
  | inr (t, e) ↦ rw (revoke_held s t e) (end_current-IsOwned t s (holds-some s.current t e) owned)
]

apply_call-IsOwned : (call : LeaseCall) (s : Lease) → IsOwned s → IsOwned (apply_call call s)
unfolding apply_call
apply_call-IsOwned acquires s owned = acquire-IsOwned s owned
apply_call-IsOwned revokes s owned = revoke-IsOwned s owned
apply_call-IsOwned (releases t) s owned = elim (Bool-cases (ltb t (length s.ended))) [
  | inl e ↦ rw e (release-IsOwned t s (ground arith) owned)
  | inr e ↦ rw e owned
]

apply_calls_keep : (calls : List LeaseCall) (s : Lease) → IsOwned s → IsOwned (apply_calls calls s)
unfolding apply_calls
apply_calls_keep [] s owned = owned
apply_calls_keep (call ∷ calls) s owned =
    apply_calls_keep calls (apply_call call s) (apply_call-IsOwned call s owned)

-- However calls of `acquire`, `release` and `revoke` follow each other on a new lease, each token
-- that was handed out is either the holder or has ended, never both, the holder is such a token, and
-- `on_end` has run exactly once for each that has ended.
pub apply_calls-IsOwned : (calls : List LeaseCall) → IsOwned (apply_calls calls new)
apply_calls-IsOwned calls = apply_calls_keep calls new IsOwned-new

-- No call but a release of the token itself or a revocation.
abbrev pub spares : ℕ → LeaseCall → Bool
spares t acquires = true
spares t (releases u) = not (t == u)
spares t revokes = false

spared_once :
    (call : LeaseCall) (s : Lease) (t : ℕ)
    → IsOwned s
    → s.current ≡ some t
    → spares t call ≡ true
    → apply_call call s ≡ s
unfolding apply_call
spared_once acquires s t owned h k = ap (λ r. r.1) (acquire-held s t h)
spared_once revokes s t owned h k = cc
spared_once (releases u) s t owned h k = elim (Bool-cases (ltb u (length s.ended))) [
  | inr e ↦ rw e refl
  | inl e ↦
      let other = holds_one s.current t u (holds-some s.current t h) (ground arith) in
      rw e (release-stale u s owned (ground arith) other)
]

-- While a token holds the lease, calls other than its own release and `revoke` change nothing: each
-- `acquire` is refused and late releases of earlier tokens have no effect.
pub apply_calls-held :
    (calls : List LeaseCall) (s : Lease) (t : ℕ)
    → IsOwned s
    → s.current ≡ some t
    → all (spares t) calls ≡ true
    → (apply_calls calls s ≡ s) × (acquire (apply_calls calls s) ≡ (none, s))
unfolding apply_calls
apply_calls-held [] s t owned h k = (refl, acquire-held s t h)
apply_calls-held (call ∷ calls) s t owned h k =
    rw (spared_once call s t owned h (ground arith))
      (apply_calls-held calls s t owned h (ground arith))
