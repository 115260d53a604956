-- ===== src/Paths/Routing/Dispatch.antt =====
-- `_dispatch` of paths/_mixin.py: how its attempts and the path's routing account for its outcome.
use hostctl.Prelude.{
  String, Bool, true, false, ◌≡◌, refl, ap, subst, Option, none, some, List, [], ◌∷◌, ◌++◌, ◌⊎◌,
  All, All-append, contains, map, arith,
}
use hostctl.Provider.Contracts.{NotStarted, Provider}
use hostctl.Provider.Selector.{has_duplicate}
use hostctl.Provider.Failover.Safety.{contains-append, has_duplicate-append}
use hostctl.Paths.Routing.{
  Attempt, returned, unimplemented, declined, raised, Tried, Routing, Outcome, result, unsupported,
  no_fuel, not_implemented, none_completed, failure, Dispatched, adopted, logged,
}

module _ {A : Type 0} where
  abbrev pub names : List (Tried A) → List String
  names = map (λ t. t.name)

  -- The last exception of each sort that the attempts left.
  unfoldable pub text_after : Attempt A → Option String → Option String
  text_after (unimplemented built t) before = some t
  text_after _ before = before

  unfoldable pub refusal_after : Attempt A → Option NotStarted → Option NotStarted
  refusal_after (declined e) before = some e
  refusal_after _ before = before

  unfoldable pub text_from : Option String → List (Tried A) → Option String
  text_from before [] = before
  text_from before (t ∷ ts) = text_from (text_after t.attempt before) ts

  unfoldable pub refusal_from : Option NotStarted → List (Tried A) → Option NotStarted
  refusal_from before [] = before
  refusal_from before (t ∷ ts) = refusal_from (refusal_after t.attempt before) ts

  pub text_from-append :
      (before : Option String) (ts : List (Tried A)) (t : Tried A)
      → text_from before (ts ++ t ∷ []) ≡ text_after t.attempt (text_from before ts)
  unfolding text_from
  text_from-append before [] t = refl
  text_from-append before (x ∷ ts) t = text_from-append (text_after x.attempt before) ts t

  pub refusal_from-append :
      (before : Option NotStarted) (ts : List (Tried A)) (t : Tried A)
      → refusal_from before (ts ++ t ∷ []) ≡ refusal_after t.attempt (refusal_from before ts)
  unfolding refusal_from
  refusal_from-append before [] t = refl
  refusal_from-append before (x ∷ ts) t = refusal_from-append (refusal_after x.attempt before) ts t

  pub names-append :
      (ts : List (Tried A)) (t : Tried A) → names (ts ++ t ∷ []) ≡ names ts ++ t.name ∷ []
  names-append [] t = refl
  names-append (x ∷ ts) t = ap (◌∷◌ x.name) (names-append ts t)

  -- The attempt lets the next provider be tried: it proved that nothing was started, or it was of an
  -- operation that may be repeated and said that the provider lacks it.
  abbrev pub Yields : Bool → Attempt A → Type 0
  Yields retry (declined e) = Unit
  Yields retry (unimplemented built t) = retry ≡ true
  Yields retry _ = ⊥

  abbrev pub AllYield : Bool → List (Tried A) → Type 0
  AllYield retry = All (λ t. Yields retry t.attempt)

  -- Every attempt but the last yielded, and the last is `final`, by `p`.
  abbrev pub EndsBy : Bool → List (Tried A) → Provider → Attempt A → Type 0
  EndsBy retry tried p final =
      (earlier : List (Tried A)) × (tried ≡ logged earlier p final) × AllYield retry earlier

  -- How the attempts of a dispatch and the routing that it leaves account for its outcome; `old` is the
  -- routing before it.
  abbrev pub Accounts : Bool → Bool → Routing → Outcome A → List (Tried A) → Routing → Type 0
  Accounts pin retry old (result a p) tried now =
      EndsBy retry tried p (returned a) × (now ≡ adopted pin true p old)
  Accounts pin retry old (failure f) tried now =
      (built : Bool) × (p : Provider) × EndsBy retry tried p (raised built f)
      × (now ≡ adopted pin built p old)
  Accounts pin retry old (not_implemented t) tried now =
      (AllYield retry tried × (text_from none tried ≡ some t) × (now ≡ old))
      ⊎ ((retry ≡ false)
          × (built : Bool) × (p : Provider) × EndsBy retry tried p (unimplemented built t)
          × (now ≡ adopted pin built p old))
  Accounts pin retry old unsupported tried now = (tried ≡ []) × (now ≡ old)
  Accounts pin retry old (none_completed e) tried now =
      AllYield retry tried
      × (text_from none tried ≡ none)
      × (refusal_from none tried ≡ e)
      × (now ≡ old)
  Accounts pin retry old no_fuel tried now = ⊥

  -- What a finished dispatch promises: no provider is tried twice, and the outcome is accounted for.
  abbrev pub Sound : Bool → Bool → Routing → Dispatched A → Type 0
  Sound pin retry old d =
      (has_duplicate (names d.tried) ≡ false) × Accounts pin retry old d.outcome d.tried d.routing

  -- What holds between two passes: each provider tried is excluded, and each attempt yielded.
  pub record IsPending (retry : Bool) (excluded : List String) (tried : List (Tried A))
      (text : Option String) (refusal : Option NotStarted) : Type 0 where
    pub covered : (n : String) → contains (names tried) n ≡ true → contains excluded n ≡ true
    pub distinct : has_duplicate (names tried) ≡ false
    pub yields : AllYield retry tried
    pub last_text : text_from none tried ≡ text
    pub last_refusal : refusal_from none tried ≡ refusal

  pub start_IsPending : (retry : Bool) → IsPending retry [] [] none none
  unfolding has_duplicate text_from refusal_from
  start_IsPending retry = record {
    covered = λ n h. h;
    distinct = refl;
    yields = tt;
    last_text = refl;
    last_refusal = refl;
  }

  module _ (retry : Bool) (excluded : List String) (tried : List (Tried A)) (text : Option String)
      (refusal : Option NotStarted) (p : Provider)
      (h : IsPending retry excluded tried text refusal) where
    covered_next :
        (n : String) → contains (names tried) n ≡ true → contains (excluded ++ p.name ∷ []) n ≡ true
    covered_next n k = ground (arith, contains-append excluded p.name n, h.covered n k)

    pub skip_IsPending : IsPending retry (excluded ++ p.name ∷ []) tried text refusal
    skip_IsPending = record {
      covered = covered_next;
      distinct = h.distinct;
      yields = h.yields;
      last_text = h.last_text;
      last_refusal = h.last_refusal;
    }

    pub untried : contains excluded p.name ≡ false → contains (names tried) p.name ≡ false
    untried fresh = ground (arith, h.covered p.name)

    pub next_distinct :
        (given : Attempt A)
        → contains excluded p.name ≡ false
        → has_duplicate (names (logged tried p given)) ≡ false
    unfolding logged
    next_distinct given fresh =
        rw names-append (has_duplicate-append (names tried) p.name h.distinct (untried fresh))

    covered_logged :
        (given : Attempt A) (n : String)
        → contains (names (logged tried p given)) n ≡ true
        → contains (excluded ++ p.name ∷ []) n ≡ true
    unfolding logged
    covered_logged given n k =
        let there : contains (names tried ++ p.name ∷ []) n ≡ true =
          subst (λ ns. contains ns n ≡ true) (names-append tried _) k in
        ground (
          arith,
          contains-append excluded p.name n,
          contains-append (names tried) p.name n,
          h.covered n,
        )

    pub next_IsPending :
        (given : Attempt A)
        → Yields retry given
        → contains excluded p.name ≡ false
        → IsPending retry
            (excluded ++ p.name ∷ [])
            (logged tried p given)
            (text_after given text)
            (refusal_after given refusal)
    unfolding logged
    next_IsPending given yield fresh = record {
      covered = covered_logged given;
      distinct = next_distinct given fresh;
      yields = All-append (λ t. Yields retry t.attempt) tried _ h.yields (yield, tt);
      last_text = rw (text_from-append, h.last_text) refl;
      last_refusal = rw (refusal_from-append, h.last_refusal) refl;
    }
