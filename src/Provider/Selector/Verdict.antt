-- ===== src/Provider/Selector/Verdict.antt =====
-- Which provider the loop of `ProviderSelector.select` takes, read off the state it leaves.
use hostctl.Prelude.{
  ◌≡◌, refl, sym, subst, Bool, true, false, ◌&&◌, ◌||◌, not, Option, none, some, List, [], ◌∷◌, ◌⊎◌,
  inl, inr, arith, contains, Option-cases, Bool-cases,
}
use hostctl.Prelude.Dict.{get, get-put_self, has_key}
use hostctl.Provider.Contracts.{Probe, Provider}
use hostctl.Provider.Selector.{Env, Selector, Request, allows, probe_undeclined, probe, record_step}
use hostctl.Provider.Selector.Select.{consider, scan}
use hostctl.Provider.Selector.Scan.{Later, scan-Later, scan_taken, scan_passed}

-- The cached probe of the provider passes the test.
unfoldable pub cached_allows : Request → Selector → Provider → Bool
cached_allows q s p = elim (get p.name s.probe_cache) [ none ↦ false | some r ↦ allows q p r ]

unfoldable pub cached_refuses : Request → Selector → Provider → Bool
cached_refuses q s p = elim (get p.name s.probe_cache) [
  | none ↦ false
  | some r ↦ not (allows q p r)
]

-- The provider has not declined, is not excluded, and its cached probe serves the request.
unfoldable pub accepts : Request → Selector → Provider → Bool
unfolding cached_allows
accepts q s p =
    not (has_key p.name s.declined) && not (contains q.exclude p.name) && cached_allows q s p

-- The provider has declined, is excluded, or its cached probe does not serve the request.
unfoldable pub rejects : Request → Selector → Provider → Bool
unfolding cached_refuses
rejects q s p = has_key p.name s.declined || contains q.exclude p.name || cached_refuses q s p

-- `found` is the first accepted provider of the list, all before it are rejected; or all are
-- rejected and nothing is found.
abbrev pub FirstAccepted : Request → Selector → List Provider → Option Provider → Type 0
FirstAccepted q s [] found = found ≡ none
FirstAccepted q s (p ∷ ps) found =
    ((accepts q s p ≡ true) × (found ≡ some p))
    ⊎ ((rejects q s p ≡ true) × FirstAccepted q s ps found)

module _ (env : Env) (q : Request) (p : Provider) (s : Selector) where
  -- after a probe of a provider that has not declined, its answer is the cached one
  probe_cached :
      get p.name s.declined ≡ none
      → get p.name (probe env p s).1.probe_cache ≡ some (probe env p s).0
  unfolding probe
  probe_cached e = elim (Option-cases (get p.name s.probe_cache)) [
    | inl fresh ↦ rw (e, probe, probe_undeclined, fresh) (get-put_self p.name _ s.probe_cache)
    | inr (r, c) ↦ rw (e, probe, probe_undeclined, c) c
  ]

  consider-accepts : (consider env q p s).0 ≡ true → accepts q (consider env q p s).1 p ≡ true
  unfolding consider accepts record_step
  consider-accepts h = ground (arith, probe_cached)

  consider-rejects : (consider env q p s).0 ≡ false → rejects q (consider env q p s).1 p ≡ true
  unfolding consider rejects record_step
  consider-rejects h = ground (arith, probe_cached)

module _ {s t : Selector} (later : Later s t) (q : Request) (p : Provider) where
  later_cached : (r : Probe) → get p.name s.probe_cache ≡ some r → get p.name t.probe_cache ≡ some r
  later_cached = later.cached p.name

  Later-accepts : accepts q s p ≡ true → accepts q t p ≡ true
  unfolding accepts
  Later-accepts h = elim (Option-cases (get p.name s.probe_cache)) [
    | inl e ↦ ground arith
    | inr (r, e) ↦ ground (arith, later_cached r e, later.declined)
  ]

  Later-rejects : rejects q s p ≡ true → rejects q t p ≡ true
  unfolding rejects
  Later-rejects h = elim (Option-cases (get p.name s.probe_cache)) [
    | inl e ↦ ground (arith, later.declined)
    | inr (r, e) ↦ ground (arith, later_cached r e, later.declined)
  ]

-- The loop finds the first provider that the final state accepts.
pub scan-FirstAccepted :
    (env : Env) (q : Request) (ps : List Provider) (s : Selector)
    → FirstAccepted q (scan env q ps s).1 ps (scan env q ps s).0
scan-FirstAccepted env q [] s = unfold scan in refl
scan-FirstAccepted env q (p ∷ ps) s = elim (Bool-cases (consider env q p s).0) [
  | inl e ↦ rw (scan_taken env q p ps s e) (inl (consider-accepts env q p s e, refl))
  | inr e ↦
      let s1 = (consider env q p s).1 in
      subst (λ r. FirstAccepted q r.1 (p ∷ ps) r.0) (sym (scan_passed env q p ps s e))
        (inr (
          Later-rejects (scan-Later env q ps s1) q p (consider-rejects env q p s e),
          scan-FirstAccepted env q ps s1,
        ))
]
