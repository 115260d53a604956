-- ===== src/Paths/Routing/Pinned.antt =====
-- `_dispatch` of paths/_mixin.py over the life of a path: a pinned path keeps its provider.
use hostctl.Prelude.{
  Bool, true, false, ◌≡◌, refl, sym, subst, ◌∙◌, Option, none, some, List, [], ◌∷◌, inl, inr, All,
  Bool-cases, arith, if◌then◌else◌,
}
use hostctl.Provider.Contracts.{Provider}
use hostctl.Provider.Selector.{Env, Selector, has_duplicate, effective_capabilities}
use hostctl.Paths.Routing.{
  PathOperation, provider_supports, Attempt, returned, unimplemented, declined, raised, Tried,
  Routing, result, Dispatched, adopted, logged, dispatch_pinned, dispatch_path,
}
use hostctl.Paths.Routing.Dispatch.{
  Sound, Accounts, text_from, refusal_from, text_after, refusal_after,
}
use hostctl.Paths.Routing.Sound.{dispatch-Sound}

-- A call of `_dispatch`.
pub record Operation {ℓ} (A : Type ℓ) : Type ℓ where
  pub pin : Bool
  pub retry : Bool
  pub alternatives : PathOperation
  pub attempt : Provider → List (Tried A) → Attempt A

unfoldable pub perform {ℓ} : {A : Type ℓ} → Env → Operation A → Routing → Selector → Dispatched A
unfolding dispatch_path
perform env o old s = dispatch_path env o.pin o.retry o.alternatives o.attempt old s

-- The operations of one path in turn, each with the routing and the selector that the one before left.
unfoldable pub perform_all {ℓ} :
    {A : Type ℓ} → Env → List (Operation A) → Routing → Selector → List (Dispatched A)
unfolding perform
perform_all env [] r s = []
perform_all env (o ∷ os) r s =
    let d = perform env o r s in d ∷ perform_all env os d.routing d.selector

module _ {A : Type 0} (env : Env) (pin retry : Bool) (operation : PathOperation)
    (attempt : Provider → List (Tried A) → Attempt A) (old : Routing) where
  module _ (p : Provider) (s : Selector)
      (supported : provider_supports operation (effective_capabilities env p s).0 ≡ true) where
    attempted-Sound :
        (given : Attempt A)
        → attempt p [] ≡ given
        → Sound pin retry old (dispatch_pinned env pin retry operation attempt old (some p) s)
    unfolding dispatch_pinned has_duplicate logged text_from text_after refusal_from refusal_after
    attempted-Sound (returned a) g =
        rw (supported, g, dispatch_pinned) (refl, (([], refl, tt), refl))
    attempted-Sound (declined e) g =
        rw (supported, g, dispatch_pinned) (refl, ((tt, tt), refl, refl, refl))
    attempted-Sound (raised built f) g =
        rw (supported, g, dispatch_pinned) (refl, (built, p, ([], refl, tt), refl))
    attempted-Sound (unimplemented built t) g = elim (Bool-cases retry) [
      | inl r ↦ rw (supported, g, dispatch_pinned, r) (refl, inl ((refl, tt), refl, refl))
      | inr r ↦
          rw (supported, g, dispatch_pinned, r) (refl, inr (refl, built, p, ([], refl, tt), refl))
    ]

  dispatch_pinned-Sound :
      (p : Option Provider) (s : Selector)
      → Sound pin retry old (dispatch_pinned env pin retry operation attempt old p s)
  unfolding dispatch_pinned has_duplicate
  dispatch_pinned-Sound none s = (refl, (refl, refl))
  dispatch_pinned-Sound (some p) s =
      elim (Bool-cases (provider_supports operation (effective_capabilities env p s).0)) [
        | inl u ↦ attempted-Sound p s u (attempt p []) refl
        | inr u ↦ rw (u, dispatch_pinned) (refl, (refl, refl))
      ]

abbrev pub pinned_to : Provider → Routing
pinned_to p = record { provider = some p; pinned = true }

adopted_again : (pin built : Bool) (p : Provider) → adopted pin built p (pinned_to p) ≡ pinned_to p
unfolding adopted
adopted_again pin built p = ground arith

kept :
    (retry pin built : Bool) (p : Provider)
    → (if retry then pinned_to p else adopted pin built p (pinned_to p)) ≡ pinned_to p
kept true pin built p = refl
kept false pin built p = adopted_again pin built p

-- Only `p` was tried, a result is from it, and the path stays pinned to it.
abbrev pub ServedBy : {A : Type 0} → Provider → Dispatched A → Type 0
ServedBy {A} p d =
    All (λ t. t.name ≡ p.name) d.tried
    × ((a : A) (q : Provider) → d.outcome ≡ result a q → q ≡ p)
    × (d.routing ≡ pinned_to p)

module _ {A : Type 0} (env : Env) where
  if-Sound :
      (pin retry : Bool) (old : Routing) (b : Bool) (x y : Dispatched A)
      → Sound pin retry old x
      → Sound pin retry old y
      → Sound pin retry old (if b then x else y)
  if-Sound pin retry old true x y h k = h
  if-Sound pin retry old false x y h k = k

  -- Every dispatch of a path ends. It tries no provider twice, and each attempt but the last proved that
  -- nothing was started, or was of an operation that may be repeated and said that the provider lacks
  -- it. A result and an exception are those of the last attempt, and pin the path to its provider if
  -- the operation pins and the backend path had been built; `NotImplementedError` from a last attempt
  -- that may not be repeated is the same. In every other outcome the routing is as before, and what is
  -- raised is the last such `NotImplementedError`, or else carries the last refusal, unless nothing was
  -- tried.
  pub perform-Sound :
      (o : Operation A) (old : Routing) (s : Selector)
      → Sound o.pin o.retry old (perform env o old s)
  unfolding perform dispatch_path
  perform-Sound o old s =
      if-Sound o.pin o.retry old old.pinned _ _
        (dispatch_pinned-Sound env o.pin o.retry o.alternatives o.attempt old old.provider s)
        (dispatch-Sound env o.pin o.retry o.alternatives o.attempt old s)

  module _ (o : Operation A) (p : Provider) (s : Selector) where
    once-ServedBy :
        (given : Attempt A)
        → o.attempt p [] ≡ given
        → provider_supports o.alternatives (effective_capabilities env p s).0 ≡ true
        → ServedBy p (perform env o (pinned_to p) s)
    unfolding perform dispatch_path dispatch_pinned logged
    once-ServedBy (returned a) g u =
        rw (g, u) ((refl, tt), (λ b q e. let same : q ≡ p = cc in same), adopted_again o.pin true p)
    once-ServedBy (declined e) g u =
        rw (g, u) ((refl, tt), (λ b q e. let same : q ≡ p = cc in same), refl)
    once-ServedBy (raised built f) g u =
        rw (g, u)
          ((refl, tt), (λ b q e. let same : q ≡ p = cc in same), adopted_again o.pin built p)
    once-ServedBy (unimplemented built t) g u =
        rw (g, u) ((refl, tt), (λ b q e. let same : q ≡ p = cc in same), kept o.retry o.pin built p)

    pinned-ServedBy : ServedBy p (perform env o (pinned_to p) s)
    unfolding perform dispatch_path dispatch_pinned
    pinned-ServedBy =
        elim (Bool-cases (provider_supports o.alternatives (effective_capabilities env p s).0)) [
          | inl u ↦ once-ServedBy (o.attempt p []) refl u
          | inr u ↦ rw u (tt, (λ b q e. let same : q ≡ p = cc in same), refl)
        ]

  stays-ServedBy :
      (os : List (Operation A)) (p : Provider) (s : Selector)
      → All (ServedBy p) (perform_all env os (pinned_to p) s)
  unfolding perform_all
  stays-ServedBy [] p s = tt
  stays-ServedBy (o ∷ os) p s =
      let h = pinned-ServedBy o p s in
      let d = perform env o (pinned_to p) s in
      (
        h,
        subst (λ r. All (ServedBy p) (perform_all env os r d.selector)) (sym h.2)
            (stays-ServedBy os p d.selector),
      )

  -- Once an operation that pins has returned a result from a provider, each later dispatch of the path
  -- tries no other provider, has its result from no other, and leaves the path pinned to it.
  pub perform_all-ServedBy :
      (o : Operation A) (os : List (Operation A)) (old : Routing) (s : Selector) (a : A)
      (p : Provider)
      → o.pin ≡ true
      → (perform env o old s).outcome ≡ result a p
      → All
          (ServedBy p)
          (perform_all env os (perform env o old s).routing (perform env o old s).selector)
  unfolding adopted
  perform_all-ServedBy o os old s a p pins e =
      let d = perform env o old s in
      let account : Accounts o.pin o.retry old (result a p) d.tried d.routing =
        subst (λ x. Accounts o.pin o.retry old x d.tried d.routing) e (perform-Sound o old s).1 in
      let now : d.routing ≡ pinned_to p = account.1 ∙ (rw pins refl) in
      subst (λ r. All (ServedBy p) (perform_all env os r d.selector)) (sym now)
        (stays-ServedBy os p d.selector)
