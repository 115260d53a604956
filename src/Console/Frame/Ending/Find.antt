-- ===== src/Console/Frame/Ending/Find.antt =====
-- `self.end.search` of console/_posix.py on bytes that come in parts.
use hostctl.Prelude.{
  ℕ, suc, ◌+◌, ◌≤◌, true, false, ◌≡◌, refl, ap, sym, ◌∙◌, Option, none, some, List, [], ◌∷◌, ◌++◌,
  length, drop, arith, Option-cases, inl, inr,
}
use hostctl.Prelude.Search.{begins_with, rfind, held_at, begins_with_never}
use hostctl.Console.Frame.{end_prefix, end_match, search_end}
use hostctl.Console.Frame.Ending.{plain, end_match_lem, end_match-append}
use hostctl.Console.Frame.Ending.Inside.{end_match-crossing}
use hostctl.Console.Frame.Ending.Resume.{
  err_at, err_at-found, err_at-none, rfind-some, rfind-head, held, found, neither, passed,
}

abbrev pub shifted : ℕ → Option (ℕ × ℕ) → Option (ℕ × ℕ)
shifted n none = none
shifted n (some (i, status)) = some (n + i, status)

shifted-zero : (o : Option (ℕ × ℕ)) → shifted 0 o ≡ o
shifted-zero none = refl
shifted-zero (some (i, status)) = let e : 0 + i ≡ i = omega arith in ap (λ k. some (k, status)) e

shifted-suc : (n : ℕ) (o : Option (ℕ × ℕ)) → shifted 1 (shifted n o) ≡ shifted (suc n) o
shifted-suc n none = refl
shifted-suc n (some (i, status)) =
    let e : 1 + (n + i) ≡ suc n + i = omega arith in ap (λ k. some (k, status)) e

module _ (token : List ℕ) where
  search_end-head :
      (x : ℕ) (p : List ℕ) (status : ℕ)
      → end_match token (x ∷ p) ≡ some status
      → search_end token (x ∷ p) ≡ some (0, status)
  unfolding search_end
  search_end-head x p status h = rw (h, search_end) refl

  search_end-tail :
      (x : ℕ) (p : List ℕ)
      → end_match token (x ∷ p) ≡ none
      → search_end token (x ∷ p) ≡ shifted 1 (search_end token p)
  unfolding search_end
  search_end-tail x p h = elim (Option-cases (search_end token p)) [
    | inl e ↦ rw (h, search_end, e) refl
    | inr ((i, status), e) ↦
        let one : 1 + i ≡ suc i = omega arith in rw (h, search_end, e, one) refl
  ]

  search_end-none :
      (x : ℕ) (p : List ℕ)
      → search_end token (x ∷ p) ≡ none
      → (end_match token (x ∷ p) ≡ none) × (search_end token p ≡ none)
  search_end-none x p h = elim (Option-cases (end_match token (x ∷ p))) [
    | inr (status, e) ↦ let there = search_end-head x p status e in cc
    | inl e ↦ (
      e,
      elim (Option-cases (search_end token p)) [
        | inl k ↦ k
        | inr ((i, status), k) ↦ let tail = search_end-tail x p e in cc
      ],
    )
  ]

  search_end-rfind :
      (p : List ℕ) (r : ℕ × ℕ)
      → search_end token p ≡ some r
      → (i : ℕ) × (rfind (end_prefix token) p ≡ some i)
  unfolding search_end
  search_end-rfind [] r h = cc
  search_end-rfind (x ∷ p) r h = elim (Option-cases (rfind (end_prefix token) p)) [
    | inr (i, e) ↦ (suc i, rfind-some (end_prefix token) x p i e)
    | inl e ↦ elim (Option-cases (end_match token (x ∷ p))) [
      | inr (status, k) ↦
          let (begins, after) = end_match_lem token (x ∷ p) status k in
          (0, rfind-head (end_prefix token) x p e begins)
      | inl k ↦ elim (Option-cases (search_end token p)) [
        | inl n ↦ let tail = search_end-tail x p k in cc
        | inr (q, n) ↦ let (i, later) = search_end-rfind p q n in cc
      ]
    ]
  ]

  module _ (t : plain token ≡ true) where
    -- more bytes complete no match before a later beginning of one
    end_match_waiting :
        (x : ℕ) (p b : List ℕ) (i : ℕ)
        → end_match token (x ∷ p) ≡ none
        → rfind (end_prefix token) p ≡ some i
        → end_match token (x ∷ p ++ b) ≡ none
    end_match_waiting x p b i h k = elim (Option-cases (end_match token (x ∷ p ++ b))) [
      | inl e ↦ e
      | inr (status, e) ↦ elim (end_match-crossing token x p b status t e) [
        | inl f ↦ cc
        | inr f ↦ cc
      ]
    ]

    pub search_end-append :
        (p b : List ℕ) (r : ℕ × ℕ)
        → search_end token p ≡ some r
        → search_end token (p ++ b) ≡ some r
    unfolding search_end
    search_end-append [] b r h = cc
    search_end-append (x ∷ p) b r h = elim (Option-cases (end_match token (x ∷ p))) [
      | inr (status, e) ↦
          let here = search_end-head x p status e in
          let still =
            search_end-head x (p ++ b) status (end_match-append token (x ∷ p) b status e) in
          cc
      | inl e ↦ elim (Option-cases (search_end token p)) [
        | inl n ↦ let tail = search_end-tail x p e in cc
        | inr (q, n) ↦
            let (i, later) = search_end-rfind p q n in
            let tail = search_end-tail x p e in
            let longer = search_end-tail x (p ++ b) (end_match_waiting x p b i e later) in
            let rest = search_end-append p b q n in cc
      ]
    ]

    never_begins :
        (x : ℕ) (p : List ℕ)
        → begins_with (end_prefix token) (x ∷ p) ≡ false
        → end_match token (x ∷ p) ≡ none
    unfolding end_match
    never_begins x p h = rw h refl

    pub search_end-held :
        (p b : List ℕ)
        → search_end token p ≡ none
        → search_end token (p ++ b)
          ≡ shifted
              (err_at (end_prefix token) p)
              (search_end token (drop (err_at (end_prefix token) p) p ++ b))
    unfolding err_at rfind held_at
    search_end-held [] b h = sym (shifted-zero (search_end token b))
    search_end-held (x ∷ p) b h =
        let m = end_prefix token in
        let (here, later) = search_end-none x p h in
        elim (passed m x p) [
          | held e ↦ rw e (sym (shifted-zero (search_end token (x ∷ p ++ b))))
          | found i e ↦ rw (err_at-found m x p i e) (
              search_end-tail x (p ++ b) (end_match_waiting x p b i here e)
              ∙ (ap (shifted 1) (search_end-held p b later) ∙ shifted-suc (err_at m p) _))
          | neither n k ↦ rw (err_at-none m x p n k) (
              search_end-tail x (p ++ b)
                (never_begins x (p ++ b) (begins_with_never m (x ∷ p) b n k))
              ∙ (ap (shifted 1) (search_end-held p b later) ∙ shifted-suc (err_at m p) _))
        ]

  pub search_end-le :
      (p : List ℕ) (i status : ℕ) → search_end token p ≡ some (i, status) → i ≤ length p
  unfolding search_end
  search_end-le [] i status h = cc
  search_end-le (x ∷ p) i status h = elim (Option-cases (end_match token (x ∷ p))) [
    | inr (there, e) ↦
        let head = search_end-head x p there e in let zero_at : 0 ≡ i = cc in omega arith
    | inl e ↦ elim (Option-cases (search_end token p)) [
      | inl n ↦ let tail = search_end-tail x p e in cc
      | inr ((j, there), n) ↦
          let tail = search_end-tail x p e in
          let rest = search_end-le p j there n in let next : 1 + j ≡ i = cc in omega arith
    ]
  ]
