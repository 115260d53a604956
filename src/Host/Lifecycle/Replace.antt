-- ===== src/Host/Lifecycle/Replace.antt =====
-- `replace_providers` of system/_host.py, and a `connect` that raises.
use hostctl.Prelude.{
  ℕ, suc, Bool, true, false, ◌≡◌, refl, sym, ◌∙◌, Option, none, some, List, [], ◌∷◌, ◌++◌, arith,
  ◌&&◌, ◌||◌, ◌==◌, not, if◌then◌else◌, map, member, Bool-cases, inl, inr, All,
}
use hostctl.Provider.Contracts.{Fault}
use hostctl.Host.Lifecycle.{Host, Done, reverse, without, attach_all}
use hostctl.Host.Lifecycle.Close.{first_error, member_equal, member-reverse}
use hostctl.Host.Lifecycle.Leaks.{
  IsTidy, kept_live, member-without, member-map, member-map_append, attach_all-IsTidy,
}

-- The providers of a set that is replaced, and those of the set in its place.
unfoldable pub replaced_set : Option (List ℕ) → List ℕ → List ℕ
replaced_set none present = []
replaced_set (some new) present = present

unfoldable pub set_after : Option (List ℕ) → List ℕ → List ℕ
set_after none present = present
set_after (some new) present = new

-- `[item for item in items if not any(item is other for other in others)]`
unfoldable pub not_among : List ℕ → List ℕ → List ℕ
not_among others [] = []
not_among others (p ∷ ps) =
    let rest = not_among others ps in if member p others then rest else p ∷ rest

-- `for target in reversed(targets)`: the closed ones afterwards and the first error.
unfoldable pub close_each :
    (ℕ → Option Fault) → List ℕ → List ℕ → Option Fault → List ℕ × Option Fault
unfolding first_error
close_each raises [] closed error = (closed, error)
close_each raises (t ∷ ts) closed error =
    close_each raises ts (t ∷ closed) (first_error error (raises t))

not_there : (x t : ℕ) (ts : List ℕ) → member x ts ≡ false → member t ts ≡ true → (x == t) ≡ false
not_there x t ts h k = elim (Bool-cases (x == t)) [
  | inr e ↦ e
  | inl e ↦ (let never : true ≡ false = sym k ∙ (sym (member_equal x t ts e) ∙ h) in cc)
]

module _ (target : ℕ → ℕ) where
  -- `targets`: the transports of the replaced providers that no provider that stays has.
  unfoldable pub replaced_targets : List ℕ → List ℕ → List ℕ → List ℕ → List ℕ
  replaced_targets kept closed seen [] = []
  replaced_targets kept closed seen (p ∷ ps) =
      let again = replaced_targets kept closed seen ps in
      let first = target p ∷ replaced_targets kept closed (target p ∷ seen) ps in
      if not (member (target p) seen)
        && not (member (target p) kept)
        && not (member (target p) closed)
      then first
      else again

  -- `replace_providers`, with sets whose names are distinct.
  unfoldable pub replace_providers :
      (ℕ → Option Fault) → Option (List ℕ) → Option (List ℕ) → Host → Done
  unfolding replaced_set set_after not_among close_each replaced_targets without reverse
  replace_providers raises executor path h =
      let old = replaced_set executor h.executors ++ replaced_set path h.paths in
      let kept = set_after executor h.executors ++ set_after path h.paths in
      let replaced = not_among kept old in
      let targets = replaced_targets (map target kept) h.closed_targets [] replaced in
      let (closed, error) = close_each raises (reverse targets) h.closed_targets none in
      record {
        host = record h {
          executors = set_after executor h.executors;
          paths = set_after path h.paths;
          connected_providers = not_among replaced h.connected_providers;
          closed_targets = closed;
          connected = false;
          initializer_generation = false;
          invalidations = suc h.invalidations;
          live = without (reverse targets) h.live;
        };
        error = error;
      }

  -- `connect`, where the providers `ps` connected and then one raised: they close again.
  unfoldable pub connect_failed : List ℕ → Host → Host
  unfolding attach_all without reverse
  connect_failed ps h =
      let opened = attach_all target ps h in
      let undone = record opened { live = without (reverse (map target ps)) opened.live } in
      if h.connected then h else undone

  member-replaced_targets :
      (x : ℕ) (kept closed seen ps : List ℕ)
      → member x (replaced_targets kept closed seen ps) ≡ (
          member x (map target ps)
          && not (member x seen)
          && not (member x kept)
          && not (member x closed))
  unfolding replaced_targets
  member-replaced_targets x kept closed seen [] = refl
  member-replaced_targets x kept closed seen (p ∷ ps) =
      let first = member-replaced_targets x kept closed (target p ∷ seen) ps in
      let again = member-replaced_targets x kept closed seen ps in
      elim (Bool-cases (x == target p)) [
        | inl e ↦
            let in_seen = member_equal x (target p) seen e in
            let in_kept = member_equal x (target p) kept e in
            let in_closed = member_equal x (target p) closed e in ground arith
        | inr e ↦ let back : (target p == x) ≡ false = ground arith in ground arith
      ]

  member-not_among :
      (x : ℕ) (kept ps : List ℕ)
      → member x (map target kept) ≡ false
      → member x (map target (not_among kept ps)) ≡ member x (map target ps)
  unfolding not_among
  member-not_among x kept [] h = refl
  member-not_among x kept (p ∷ ps) h =
      let rest = member-not_among x kept ps h in
      elim (Bool-cases (member p kept)) [
        | inr e ↦ rw e (ground arith)
        | inl e ↦
            let there : member (target p) (map target kept) ≡ true =
              member-map target kept p kept e in
            let other : (x == target p) ≡ false =
              not_there x (target p) (map target kept) h there in
            rw e (ground arith)
      ]

  -- A transport that some provider had before is of a replaced one, or of one that stays.
  member-replaced :
      (x : ℕ) (executor path : Option (List ℕ)) (executors paths : List ℕ)
      → member x (map target (executors ++ paths)) ≡ true
      → member x (map target (set_after executor executors ++ set_after path paths)) ≡ false
      → member x (map target (replaced_set executor executors ++ replaced_set path paths)) ≡ true
  unfolding set_after replaced_set
  member-replaced x none none es ps h k = cc
  member-replaced x none (some new) es ps h k =
      let whole = member-map_append target [] x es ps in
      let after = member-map_append target [] x es new in ground arith
  member-replaced x (some new) none es ps h k =
      let whole = member-map_append target [] x es ps in
      let after = member-map_append target [] x new ps in
      let before = member-map_append target [] x es [] in ground arith
  member-replaced x (some new) (some news) es ps h k = h

  closed_each :
      (raises : ℕ → Option Fault) (x : ℕ) (ts closed : List ℕ) (error : Option Fault)
      → member x (close_each raises ts closed error).0 ≡ (member x ts || member x closed)
  unfolding close_each
  closed_each raises x [] closed error = refl
  closed_each raises x (t ∷ ts) closed error =
      let rest = closed_each raises x ts (t ∷ closed) (first_error error (raises t)) in ground arith

  pub replace_providers-IsTidy :
      (ps : List ℕ) (raises : ℕ → Option Fault) (executor path : Option (List ℕ)) (h : Host)
      → IsTidy target ps h
      → IsTidy target
          (set_after executor h.executors ++ set_after path h.paths)
          (replace_providers raises executor path h).host
  unfolding replace_providers
  replace_providers-IsTidy ps raises executor path h (same, t) =
      let kept = set_after executor h.executors ++ set_after path h.paths in
      let old = replaced_set executor h.executors ++ replaced_set path h.paths in
      let targets = replaced_targets (map target kept) h.closed_targets [] (not_among kept old) in
      (
        refl,
        λ x l.
            let live = member-without x (reverse targets) h.live in
            let (closed, has) = t x (kept_live _ _ _ live l) in
            let out : member x (reverse targets) ≡ false = ground arith in
            (
              closed_each raises x (reverse targets) h.closed_targets none ∙ rw (out, closed) refl,
              elim (Bool-cases (member x (map target kept))) [
                | inl e ↦ e
                | inr e ↦
                    let replaced =
                      member-not_among x kept old e
                      ∙ member-replaced x executor path h.executors h.paths (rw same has) e in
                    let among =
                      member-replaced_targets x (map target kept) h.closed_targets []
                        (not_among kept old) in
                    let turned = member-reverse x targets in ground arith
              ],
            ),
      )

  if_host-IsTidy :
      (ps : List ℕ) (b : Bool) (h g : Host)
      → IsTidy target ps h
      → IsTidy target ps g
      → IsTidy target ps (if b then h else g)
  if_host-IsTidy ps true h g t u = t
  if_host-IsTidy ps false h g t u = u

  pub connect_failed-IsTidy :
      (ps qs : List ℕ) (h : Host)
      → All (λ q. member q ps ≡ true) qs
      → IsTidy target ps h
      → IsTidy target ps (connect_failed qs h)
  unfolding connect_failed
  connect_failed-IsTidy ps qs h k t =
      let (same, opened) = attach_all-IsTidy target ps qs h k t in
      let live = (attach_all target qs h).live in
      if_host-IsTidy ps h.connected _ _ t (
        same,
        λ x l. opened x (kept_live _ _ _ (member-without x (reverse (map target qs)) live) l),
      )
