-- ===== src/Provider/Selector/Scan.antt =====
-- The loop of `ProviderSelector.select`: what it leaves alone, and which provider it takes.
use hostctl.Prelude.{
  String, ◌≡◌, refl, true, false, some, List, [], ◌∷◌, inl, inr, arith, contains, Option-cases,
  Bool-cases,
}
use hostctl.Prelude.Dict.{get, get-put_fresh}
use hostctl.Provider.Contracts.{Probe, Step, Provider}
use hostctl.Provider.Selector.{Env, Selector, Request, probe_undeclined, probe, record_step}
use hostctl.Provider.Selector.Select.{consider, scan}

-- `t` comes after `s` with nothing but probes cached and steps recorded in between.
pub record Later (s t : Selector) : Type 0 where
  pub providers : t.providers ≡ s.providers
  pub declined : t.declined ≡ s.declined
  pub causes : t.causes ≡ s.causes
  pub generation : t.generation ≡ s.generation
  pub cached :
      (n : String) (r : Probe) → get n s.probe_cache ≡ some r → get n t.probe_cache ≡ some r

pub Later-refl : (s : Selector) → Later s s
Later-refl s = record {
  providers = refl;
  declined = refl;
  causes = refl;
  generation = refl;
  cached = λ n r h. h;
}

pub Later-trans : {s t u : Selector} → Later s t → Later t u → Later s u
Later-trans h k = record {
  providers = cc (h.providers, k.providers);
  declined = cc (h.declined, k.declined);
  causes = cc (h.causes, k.causes);
  generation = cc (h.generation, k.generation);
  cached = λ n r e. k.cached n r (h.cached n r e);
}

undeclined-Later : (env : Env) (p : Provider) (s : Selector) → Later s (probe_undeclined env p s).1
unfolding probe_undeclined
undeclined-Later env p s = elim (Option-cases (get p.name s.probe_cache)) [
  | inl fresh ↦
      rw (fresh, probe_undeclined)
        (record {
          providers = refl;
          declined = refl;
          causes = refl;
          generation = refl;
          cached = λ n r. get-put_fresh p.name n _ r s.probe_cache fresh;
        })
  | inr (r, e) ↦ rw (e, probe_undeclined) (Later-refl s)
]

pub probe-Later : (env : Env) (p : Provider) (s : Selector) → Later s (probe env p s).1
unfolding probe
probe-Later env p s = elim (Option-cases (get p.name s.declined)) [
  | inl e ↦ rw (e, probe) (undeclined-Later env p s)
  | inr (r, e) ↦ rw (e, probe) (Later-refl s)
]

record_step-Later : (step : Step) (s : Selector) → Later s (record_step step s)
unfolding record_step
record_step-Later step s = record {
  providers = refl;
  declined = refl;
  causes = refl;
  generation = refl;
  cached = λ n r h. h;
}

pub consider-Later :
    (env : Env) (q : Request) (p : Provider) (s : Selector) → Later s (consider env q p s).1
unfolding consider
consider-Later env q p s = elim (Option-cases (get p.name s.declined)) [
  | inr (r, e) ↦ rw (e, consider) (record_step-Later _ s)
  | inl e ↦ elim (Bool-cases (contains q.exclude p.name)) [
    | inl x ↦ rw (e, x, consider) (Later-refl s)
    | inr x ↦ rw (e, x, consider) (Later-trans (probe-Later env p s) (record_step-Later _ _))
  ]
]

module _ (env : Env) (q : Request) (p : Provider) (ps : List Provider) (s : Selector) where
  pub scan_taken :
      (consider env q p s).0 ≡ true → scan env q (p ∷ ps) s ≡ (some p, (consider env q p s).1)
  unfolding scan
  scan_taken e = ground arith

  pub scan_passed :
      (consider env q p s).0 ≡ false → scan env q (p ∷ ps) s ≡ scan env q ps (consider env q p s).1
  unfolding scan
  scan_passed e = ground arith

pub scan-Later :
    (env : Env) (q : Request) (ps : List Provider) (s : Selector) → Later s (scan env q ps s).1
scan-Later env q [] s = unfold scan in Later-refl s
scan-Later env q (p ∷ ps) s = elim (Bool-cases (consider env q p s).0) [
  | inl e ↦ rw (scan_taken env q p ps s e) (consider-Later env q p s)
  | inr e ↦
      rw (scan_passed env q p ps s e)
        (Later-trans (consider-Later env q p s) (scan-Later env q ps (consider env q p s).1))
]
