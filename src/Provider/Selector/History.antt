-- ===== src/Provider/Selector/History.antt =====
-- Any sequence of method calls on one `ProviderSelector`: a probe is sent once a generation.
use hostctl.Prelude.{
  ℕ, zero, suc, ◌+◌, ◌≤◌, String, str_eq, ◌==◌, ◌≡◌, refl, sym, subst, Bool, false, ◌&&◌, none,
  Option, List, [], ◌∷◌, inl, inr, arith, eq_iff, contains, null, any, All, All-map, Bool-cases,
  Option-cases,
}
use hostctl.Prelude.Dict.{get, put, get-put, has_key}
use hostctl.Provider.Contracts.{Fault, Probe, Step, Provider}
use hostctl.Provider.Selector.{
  Env, Selector, Request, built, init, retry_declined, decline, invalidate, probe_undeclined, probe,
  record_step,
}
use hostctl.Provider.Selector.Select.{consider, readmit, start_trace, scan, select}
use hostctl.Provider.Selector.Scan.{scan_taken, scan_passed}
use hostctl.Provider.Selector.Termination.{pass, second, select_found, select_again, select_nothing}

-- A method call, with its arguments.
pub data Call : Type 0 where
  probe_call : Provider → Call
  decline_call : String → String → Option Fault → Call
  retry_call invalidate_call : Call
  select_call : Request → Call

unfoldable pub perform : Env → Call → Selector → Selector
perform env (probe_call p) s = (probe env p s).1
perform env (decline_call n r c) s = decline n r c s
perform env retry_call s = retry_declined s
perform env invalidate_call s = invalidate s
perform env (select_call q) s = (select 2 env q s).1

unfoldable pub perform_all : Env → List Call → Selector → Selector
unfolding perform
perform_all env [] s = s
perform_all env (c ∷ cs) s = perform_all env cs (perform env c s)

-- Whether a probe was sent to the provider in the generation.
abbrev pub sent_in : String → ℕ → List (String × ℕ) → Bool
sent_in n g = any (λ e. str_eq e.0 n && e.1 == g)

-- No provider has two probes in one generation.
abbrev pub Once : List (String × ℕ) → Type 0
Once [] = Unit
Once ((n, g) ∷ l) = (sent_in n g l ≡ false) × Once l

-- The cache holds just the providers probed in this generation.
pub record IsRecorded (s : Selector) : Type 0 where
  pub cached : (n : String) → sent_in n s.generation s.sent ≡ has_key n s.probe_cache
  pub past : All (λ (e : String × ℕ). e.1 ≤ s.generation) s.sent
  pub once : Once s.sent

-- a fresh probe's answer is cached and the probe logged
store-IsRecorded :
    (n : String) (r : Probe) (s : Selector)
    → get n s.probe_cache ≡ none
    → IsRecorded s
    → IsRecorded
        (record s { probe_cache = put n r s.probe_cache; sent = (n, s.generation) ∷ s.sent })
store-IsRecorded n r s fresh h = record {
  cached = λ j. ground (arith, h.cached j, get-put n j r s.probe_cache, eq_iff n j);
  past = (omega arith, h.past);
  once = (ground (arith, h.cached n), h.once);
}

undeclined-IsRecorded :
    (env : Env) (p : Provider) (s : Selector)
    → IsRecorded s
    → IsRecorded (probe_undeclined env p s).1
unfolding probe_undeclined
undeclined-IsRecorded env p s h = elim (Option-cases (get p.name s.probe_cache)) [
  | inr (r, e) ↦ rw (e, probe_undeclined) h
  | inl e ↦ rw (e, probe_undeclined) (store-IsRecorded p.name _ s e h)
]

probe-IsRecorded :
    (env : Env) (p : Provider) (s : Selector) → IsRecorded s → IsRecorded (probe env p s).1
unfolding probe
probe-IsRecorded env p s h = elim (Option-cases (get p.name s.declined)) [
  | inr (r, e) ↦ rw (e, probe) h
  | inl e ↦ rw (e, probe) (undeclined-IsRecorded env p s h)
]

record_step-IsRecorded :
    (step : Step) (s : Selector) → IsRecorded s → IsRecorded (record_step step s)
unfolding record_step
record_step-IsRecorded step s h = record { cached = h.cached; past = h.past; once = h.once }

consider-IsRecorded :
    (env : Env) (q : Request) (p : Provider) (s : Selector)
    → IsRecorded s
    → IsRecorded (consider env q p s).1
unfolding consider
consider-IsRecorded env q p s h = elim (Option-cases (get p.name s.declined)) [
  | inr (r, e) ↦ rw (e, consider) (record_step-IsRecorded _ s h)
  | inl e ↦ elim (Bool-cases (contains q.exclude p.name)) [
    | inl x ↦ rw (e, x, consider) h
    | inr x ↦ rw (e, x, consider) (record_step-IsRecorded _ _ (probe-IsRecorded env p s h))
  ]
]

scan-IsRecorded :
    (env : Env) (q : Request) (ps : List Provider) (s : Selector)
    → IsRecorded s
    → IsRecorded (scan env q ps s).1
scan-IsRecorded env q [] s h = unfold scan in h
scan-IsRecorded env q (p ∷ ps) s h = elim (Bool-cases (consider env q p s).0) [
  | inl e ↦ rw (scan_taken env q p ps s e) (consider-IsRecorded env q p s h)
  | inr e ↦
      rw (scan_passed env q p ps s e)
        (scan-IsRecorded env q ps (consider env q p s).1 (consider-IsRecorded env q p s h))
]

module _ (env : Env) (q : Request) where
  pass-IsRecorded : (s : Selector) → IsRecorded s → IsRecorded (pass env q s).1
  pass-IsRecorded s h = scan-IsRecorded env q s.providers (start_trace q s) (
      unfold start_trace in
      elim (Bool-cases (null q.exclude)) [
        | inl e ↦ rw e (record { cached = h.cached; past = h.past; once = h.once })
        | inr e ↦ rw e h
      ])

  second-IsRecorded : (s : Selector) → IsRecorded s → IsRecorded (second env q s)
  unfolding readmit
  second-IsRecorded s h =
      let k = pass-IsRecorded s h in record { cached = k.cached; past = k.past; once = k.once }

  select-IsRecorded : (fuel : ℕ) (s : Selector) → IsRecorded s → IsRecorded (select fuel env q s).1
  select-IsRecorded zero s h = unfold select in h
  select-IsRecorded (suc fuel) s h = elim (Option-cases (pass env q s).0) [
    | inr (p, e) ↦ rw (select_found env q fuel s p e) (pass-IsRecorded s h)
    | inl e ↦ elim (Bool-cases (readmit q (pass env q s).1).0) [
      | inl again ↦
          rw (select_again env q fuel s e again)
            (select-IsRecorded fuel (second env q s) (second-IsRecorded s h))
      | inr stop ↦ rw (select_nothing env q fuel s e stop) (second-IsRecorded s h)
    ]
  ]

-- nothing was sent in a generation that has not begun
sent_in_future :
    (n : String) (g : ℕ) (l : List (String × ℕ))
    → All (λ (e : String × ℕ). e.1 ≤ g) l
    → sent_in n (g + 1) l ≡ false
sent_in_future n g [] h = refl
sent_in_future n g ((m, k) ∷ l) (hk, hl) = ground (arith, sent_in_future n g l hl)

perform-IsRecorded :
    (env : Env) (c : Call) (s : Selector) → IsRecorded s → IsRecorded (perform env c s)
unfolding perform invalidate decline retry_declined get
perform-IsRecorded env (probe_call p) s h = probe-IsRecorded env p s h
perform-IsRecorded env (decline_call n r c) s h = record {
  cached = h.cached;
  past = h.past;
  once = h.once;
}
perform-IsRecorded env retry_call s h = record { cached = h.cached; past = h.past; once = h.once }
perform-IsRecorded env invalidate_call s h = record {
  cached = λ n. sent_in_future n s.generation s.sent h.past;
  past = All-map (λ e le. omega arith) s.sent h.past;
  once = h.once;
}
perform-IsRecorded env (select_call q) s h = select-IsRecorded env q 2 s h

module _ (ps : List Provider) (s : Selector) (new : init ps ≡ built s) where
  sent-init : s.sent ≡ []
  unfolding init
  sent-init = ground arith

  cache-init : s.probe_cache ≡ []
  unfolding init
  cache-init = ground arith

  init-IsRecorded : IsRecorded s
  unfolding get
  init-IsRecorded = record {
    cached = λ n. ground (arith, sent-init, cache-init);
    past = subst (All (λ (e : String × ℕ). e.1 ≤ s.generation)) (sym sent-init) tt;
    once = subst Once (sym sent-init) tt;
  }

perform_all_induct :
    (env : Env) (calls : List Call) (s : Selector)
    → IsRecorded s
    → IsRecorded (perform_all env calls s)
unfolding perform_all
perform_all_induct env [] s h = h
perform_all_induct env (c ∷ cs) s h =
    perform_all_induct env cs (perform env c s) (perform-IsRecorded env c s h)

-- Whatever methods are called, in whatever order, on a new selector, no provider is probed twice in
-- one generation, and the cache holds an answer for just the providers probed in the current one.
pub perform_all-IsRecorded :
    (env : Env) (ps : List Provider) (calls : List Call) (s : Selector)
    → init ps ≡ built s
    → IsRecorded (perform_all env calls s)
perform_all-IsRecorded env ps calls s h = perform_all_induct env calls s (init-IsRecorded ps s h)
