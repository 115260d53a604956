-- ===== src/Host/Lifecycle/Known.antt =====
-- `_close_locked` of system/_host.py: all transports that the host knows of are closed.
use hostctl.Prelude.{
  ℕ, Bool, true, false, ◌≡◌, refl, ap, ◌∙◌, Option, none, List, [], ◌∷◌, ◌++◌, arith, ◌&&◌, ◌||◌,
  ◌==◌, not, map, member, Bool-cases, inl, inr,
}
use hostctl.Provider.Contracts.{Fault}
use hostctl.Host.Lifecycle.{Host, reverse, distinct_targets}
use hostctl.Host.Lifecycle.Close.{
  close_targets, all_targets, close, first_error, first_raised, is_distinct, member_equal,
  member-reverse, member-closing, member-closed, closing-is_distinct, close_loop-error,
}

or_false : (a b : Bool) → (a || false) ≡ (b || false) → a ≡ b
or_false a b h = ground arith

module _ (target : ℕ → ℕ) (raises : ℕ → Option Fault) where
  member-distinct_targets :
      (x : ℕ) (ps seen : List ℕ)
      → (member x (distinct_targets target ps seen) || member x seen)
        ≡ (member x (map target ps) || member x seen)
  unfolding distinct_targets
  member-distinct_targets x [] seen = refl
  member-distinct_targets x (p ∷ ps) seen = elim (Bool-cases (member (target p) seen)) [
    | inl h ↦
        let rest : (member x (distinct_targets target ps seen) || member x seen)
            ≡ (member x (map target ps) || member x seen) =
          member-distinct_targets x ps seen in
        let known : (x == target p) ≡ true → member x seen ≡ true =
          λ e. member_equal x (target p) seen e ∙ h in
        rw h (elim (Bool-cases (x == target p)) [
          | inl e ↦ let k : member x seen ≡ true = known e in ground arith
          | inr e ↦ ground arith
        ])
    | inr h ↦
        let rest : (member x (distinct_targets target ps (target p ∷ seen))
              || member x (target p ∷ seen))
            ≡ (member x (map target ps) || member x (target p ∷ seen)) =
          member-distinct_targets x ps (target p ∷ seen) in
        rw h (ground arith)
  ]

  -- The transports that the host knows of.
  abbrev pub known : Host → List ℕ
  known h = map target (h.connected_providers ++ h.executors ++ h.paths)

  member-all_targets :
      (x : ℕ) (h : Host) → member x (reverse (all_targets target raises h)) ≡ member x (known h)
  unfolding all_targets
  member-all_targets x h =
      member-reverse x _
      ∙ or_false _ _
          (member-distinct_targets x (h.connected_providers ++ h.executors ++ h.paths) [])

  -- `close` closes exactly the transports known to the host that were not closed, none of them twice;
  -- afterwards these are closed too and the host is not connected. It raises the first error among them
  -- in the order in which they close, and only after all of them.
  pub close_lem :
      (h : Host)
      → ((x : ℕ)
          → member x (close_targets target raises h).closing
            ≡ (member x (known h) && not (member x h.closed_targets)))
        × (is_distinct (close_targets target raises h).closing ≡ true)
        × ((x : ℕ)
            → member x (close target raises h).host.closed_targets
              ≡ (member x h.closed_targets || member x (known h)))
        × ((close target raises h).error
            ≡ first_raised target raises (close_targets target raises h).closing)
        × ((close target raises h).host.connected ≡ false)
        × ((close target raises h).host.connected_providers ≡ [])
  unfolding close close_targets first_error
  close_lem h = (
    λ x.
        member-closing target raises x (reverse (all_targets target raises h)) h.closed_targets none
        ∙ ap (λ b. b && not (member x h.closed_targets)) (member-all_targets x h),
    closing-is_distinct target raises (reverse (all_targets target raises h)) h.closed_targets none,
    λ x.
        member-closed target raises x (reverse (all_targets target raises h)) h.closed_targets none
        ∙ ap (λ b. member x h.closed_targets || b) (member-all_targets x h),
    close_loop-error target raises (reverse (all_targets target raises h)) h.closed_targets none,
    refl,
    refl,
  )
