-- ===== src/Host/Lifecycle/Leaks.antt =====
-- system/_host.py: the open transports of a host, through each of its methods.
use hostctl.Prelude.{
  ℕ, Bool, true, false, ◌≡◌, refl, ◌∙◌, Option, none, some, List, [], ◌∷◌, ◌++◌, arith, ◌&&◌, ◌||◌,
  ◌==◌, not, if◌then◌else◌, map, member, discard, member-discard, Bool-cases, Option-cases, inl,
  inr, All,
}
use hostctl.Provider.Contracts.{Fault}
use hostctl.Host.Lifecycle.{
  Host, Done, Use, Initializer, reverse, without, unless_raised, note_provider_in_use, attached,
  join_generation, run_uses, initializer_failed, initializer_ended, run_initializer,
  ensure_provider_connected, attach_all, connect,
}
use hostctl.Host.Lifecycle.Close.{close_targets, close, member_equal}
use hostctl.Host.Lifecycle.Known.{known, close_lem}

pub member-without :
    (x : ℕ) (ts live : List ℕ) → member x (without ts live) ≡ (member x live && not (member x ts))
unfolding without
member-without x [] live = ground arith
member-without x (t ∷ ts) live =
    member-without x ts (discard t live) ∙ rw (member-discard x t live) (ground arith)

pub kept_live : (a b c : Bool) → a ≡ (b && c) → a ≡ true → b ≡ true
kept_live a b c e h = ground arith

module _ (target : ℕ → ℕ) (ps : List ℕ) where
  -- The selectors have the providers `ps`; every open transport belongs to one of them and is not among
  -- the closed ones.
  abbrev pub IsTidy : Host → Type 0
  IsTidy h =
      (h.executors ++ h.paths ≡ ps)
      × ((x : ℕ)
          → member x h.live ≡ true
          → (member x h.closed_targets ≡ false) × (member x (map target ps) ≡ true))

  pub member-map :
      (p : ℕ) (qs : List ℕ) → member p qs ≡ true → member (target p) (map target qs) ≡ true
  member-map p [] h = cc
  member-map p (q ∷ qs) h = elim (Bool-cases (p == q)) [
    | inl e ↦ let same : p ≡ q = ground arith in rw same (ground arith)
    | inr e ↦
        let rest : member (target p) (map target qs) ≡ true = member-map p qs (ground arith) in
        ground arith
  ]

  pub note_provider_in_use-IsTidy :
      (p : ℕ) (h : Host) → member p ps ≡ true → IsTidy h → IsTidy (note_provider_in_use target p h)
  unfolding note_provider_in_use
  note_provider_in_use-IsTidy p h k (same, t) = (
    same,
    λ x l. elim (Bool-cases (x == target p)) [
      | inl e ↦ (
        member-discard x (target p) h.closed_targets ∙ ground arith,
        member_equal x (target p) (map target ps) e ∙ member-map p ps k,
      )
      | inr e ↦
          let (closed, has) = t x (ground arith) in
          (member-discard x (target p) h.closed_targets ∙ ground arith, has)
    ],
  )

  join_generation-IsTidy :
      (u : Use) (h : Host)
      → member u.provider ps ≡ true
      → IsTidy h
      → IsTidy (join_generation target u h).host
  unfolding join_generation attached
  join_generation-IsTidy u h k t = elim (Bool-cases (member u.provider h.connected_providers)) [
    | inl e ↦ rw e t
    | inr e ↦ elim (Option-cases u.raises) [
      | inl r ↦ rw (e, r) (note_provider_in_use-IsTidy u.provider h k t)
      | inr (f, r) ↦ rw (e, r) t
    ]
  ]

  run_uses-IsTidy :
      (us : List Use) (h : Host)
      → All (λ u. member u.provider ps ≡ true) us
      → IsTidy h
      → IsTidy (run_uses target us h)
  unfolding run_uses
  run_uses-IsTidy [] h k t = t
  run_uses-IsTidy (u ∷ us) h (ku, k) t =
      run_uses-IsTidy us (join_generation target u h).host k (join_generation-IsTidy u h ku t)

  initializer_ended-IsTidy :
      (qs : List ℕ) (e : Option Fault) (h : Host)
      → IsTidy h
      → IsTidy (initializer_ended target qs e h).host
  unfolding initializer_ended initializer_failed
  initializer_ended-IsTidy qs none h t = t
  initializer_ended-IsTidy qs (some f) h (same, t) =
      (same, λ x l. t x (kept_live _ _ _ (member-without x (reverse (map target qs)) h.live) l))

  -- The providers that a session initializer uses are those of the host.
  abbrev pub Uses : Option Initializer → Type 0
  Uses none = Unit
  Uses (some i) = All (λ u. member u.provider ps ≡ true) i.uses

  unless_raised-IsTidy :
      (e : Option Fault) (failed next : Done)
      → IsTidy failed.host
      → IsTidy next.host
      → IsTidy (unless_raised e failed next).host
  unfolding unless_raised
  unless_raised-IsTidy none failed next tf tn = tn
  unless_raised-IsTidy (some e) failed next tf tn = tf

  if_done-IsTidy :
      (b : Bool) (d d' : Done) → IsTidy d.host → IsTidy d'.host → IsTidy (if b then d else d').host
  if_done-IsTidy true d d' t t' = t
  if_done-IsTidy false d d' t t' = t'

  run_initializer-IsTidy :
      (i : Option Initializer) (qs : List ℕ) (h : Host)
      → Uses i
      → IsTidy h
      → IsTidy (run_initializer target i qs h).host
  unfolding run_initializer
  run_initializer-IsTidy none qs h k t = t
  run_initializer-IsTidy (some i) qs h k t =
      elim (Bool-cases (h.initializer_generation || h.initializing)) [
        | inl e ↦ rw e t
        | inr e ↦ rw e (
            initializer_ended-IsTidy qs i.raises _
              (run_uses-IsTidy i.uses (record h { initializing = true }) k t))
      ]

  pub ensure-IsTidy :
      (i : Option Initializer) (u : Use) (h : Host)
      → Uses i
      → member u.provider ps ≡ true
      → IsTidy h
      → IsTidy (ensure_provider_connected target i u h).host
  unfolding ensure_provider_connected
  ensure-IsTidy i u h ki k t =
      let joined = join_generation-IsTidy u h k t in
      unless_raised-IsTidy (join_generation target u h).error _ _ joined
        (run_initializer-IsTidy i (u.provider ∷ []) (join_generation target u h).host ki joined)

  pub attach_all-IsTidy :
      (qs : List ℕ) (h : Host)
      → All (λ q. member q ps ≡ true) qs
      → IsTidy h
      → IsTidy (attach_all target qs h)
  unfolding attach_all
  attach_all-IsTidy [] h k t = t
  attach_all-IsTidy (q ∷ qs) h (kq, k) t =
      attach_all-IsTidy qs (note_provider_in_use target q h) k
        (note_provider_in_use-IsTidy q h kq t)

  pub connect-IsTidy :
      (i : Option Initializer) (qs : List ℕ) (h : Host)
      → Uses i
      → All (λ q. member q ps ≡ true) qs
      → IsTidy h
      → IsTidy (connect target i qs h).host
  unfolding connect
  connect-IsTidy i qs h ki k t =
      let ready : IsTidy (record (attach_all target qs h) { connected_providers = qs }) =
        attach_all-IsTidy qs h k t in
      let initialized = run_initializer-IsTidy i qs _ ki ready in
      if_done-IsTidy h.connected _ _ t (unless_raised-IsTidy _ _ _ initialized initialized)

  pub member-map_append :
      (x : ℕ) (qs rs : List ℕ)
      → member x (map target (qs ++ rs)) ≡ (member x (map target qs) || member x (map target rs))
  member-map_append x [] rs = refl
  member-map_append x (q ∷ qs) rs = rw (member-map_append x qs rs) (ground arith)

  known_covers :
      (raises : ℕ → Option Fault) (x : ℕ) (h : Host)
      → member x (map target (h.executors ++ h.paths)) ≡ true
      → member x (known target raises h) ≡ true
  known_covers raises x h k =
      let whole = member-map_append x (h.connected_providers ++ h.executors) h.paths in
      let front = member-map_append x h.connected_providers h.executors in
      let back = member-map_append x h.executors h.paths in ground arith

  pub close-live :
      (raises : ℕ → Option Fault) (h : Host)
      → IsTidy h
      → (x : ℕ) → member x (close target raises h).host.live ≡ false
  unfolding close
  close-live raises h (same, t) x =
      member-without x (close_targets target raises h).closing h.live
      ∙ elim (Bool-cases (member x h.live)) [
        | inr l ↦ rw l refl
        | inl l ↦
            let (closed, has) = t x l in
            let there : member x (known target raises h) ≡ true =
              known_covers raises x h (rw same has) in
            let closing : member x (close_targets target raises h).closing ≡ true =
              (close_lem target raises h).0 x ∙ rw (there, closed) refl in
            rw (l, closing) refl
      ]

  pub close-IsTidy :
      (raises : ℕ → Option Fault) (h : Host) → IsTidy h → IsTidy (close target raises h).host
  unfolding close
  close-IsTidy raises h (same, t) =
      (same, λ x l. let none_left = close-live raises h (same, t) x in cc)
