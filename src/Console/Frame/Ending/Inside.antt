-- ===== src/Console/Frame/Ending/Inside.antt =====
-- A match of `self.end` of console/_posix.py, and what can begin inside it.
use hostctl.Prelude.{
  ℕ, true, false, ◌≡◌, refl, ap, sym, ◌∙◌, none, some, List, [], ◌∷◌, ◌++◌, null, ◌==◌, codes,
  arith, Bool-cases, Option-cases, inl, inr, ◌⊎◌, append_assoc,
}
use hostctl.Prelude.Search.{begins_with, rfind, begins_with-append}
use hostctl.Console.Frame.{end_prefix, digits, end_match}
use hostctl.Console.Frame.Ending.{
  ending, plain, digits-plain, end_match-IsEnding, IsEnding-end_match,
}

pub rfind-none :
    (m : List ℕ) (x : ℕ) (text : List ℕ)
    → begins_with m (x ∷ text) ≡ false
    → rfind m text ≡ none
    → rfind m (x ∷ text) ≡ none
unfolding rfind
rfind-none m x text h k = rw (k, h) refl

pub rfind-prefix : (m u c : List ℕ) → rfind m (u ++ c) ≡ none → rfind m u ≡ none
unfolding rfind
rfind-prefix m [] c h = refl
rfind-prefix m (x ∷ u) c h = elim (Option-cases (rfind m (u ++ c))) [
  | inl e ↦ elim (Bool-cases (begins_with m (x ∷ u))) [
    | inl b ↦ ground (arith, begins_with-append m (x ∷ u) c)
    | inr b ↦ rfind-none m x u b (rfind-prefix m u c e)
  ]
  | inr (i, e) ↦ ground arith
]

split-append :
    (u b m r : List ℕ)
    → u ++ b ≡ m ++ r
    → ((s : List ℕ) × (u ≡ m ++ s)) ⊎ ((c : List ℕ) × (m ≡ u ++ c))
split-append u b [] r h = inl (u, refl)
split-append [] b (y ∷ m) r h = inr (y ∷ m, refl)
split-append (x ∷ u) b (y ∷ m) r h =
    let same : x ≡ y = cc in
    let rest : u ++ b ≡ m ++ r = cc in
    elim (split-append u b m r rest) [ inl (s, e) ↦ inl (s, cc) | inr (c, e) ↦ inr (c, cc) ]

whole_assoc : (p ds s : List ℕ) → p ++ (ds ++ ending) ++ s ≡ p ++ (ds ++ (ending ++ s))
whole_assoc p ds s = append_assoc p (ds ++ ending) s ∙ ap (λ y. p ++ y) (append_assoc ds ending s)

module _ (token : List ℕ) where
  begins_not :
      (x : ℕ) (text : List ℕ)
      → (b'_' == x) ≡ false
      → begins_with (end_prefix token) (x ∷ text) ≡ false
  unfolding begins_with end_prefix
  begins_not x text h = rw h refl

  begins_not_second :
      (x y : ℕ) (text : List ℕ)
      → (b'_' == y) ≡ false
      → begins_with (end_prefix token) (x ∷ y ∷ text) ≡ false
  unfolding begins_with end_prefix
  begins_not_second x y text h = rw h (ground arith)

  skip_plain :
      (xs text : List ℕ)
      → plain xs ≡ true
      → rfind (end_prefix token) text ≡ none
      → rfind (end_prefix token) (xs ++ text) ≡ none
  skip_plain [] text h k = k
  skip_plain (x ∷ xs) text h k =
      let first : (b'_' == x) ≡ false = ground arith in
      let others : plain xs ≡ true = ground arith in
      rfind-none (end_prefix token) x (xs ++ text) (begins_not x (xs ++ text) first)
        (skip_plain xs text others k)

  none-ending : rfind (end_prefix token) ending ≡ none
  unfolding rfind begins_with end_prefix
  none-ending = refl

  none-status :
      (ds : List ℕ)
      → plain ds ≡ true
      → null ds ≡ false
      → rfind (end_prefix token) (b'_' ∷ (ds ++ ending)) ≡ none
  none-status [] h k = cc
  none-status (d ∷ ds) h k =
      let first : (b'_' == d) ≡ false = ground arith in
      rfind-none (end_prefix token) b'_' (d ∷ ds ++ ending)
        (begins_not_second b'_' d (ds ++ ending) first) (skip_plain (d ∷ ds) ending h none-ending)

  none-inside :
      (ds : List ℕ)
      → plain token ≡ true
      → plain ds ≡ true
      → null ds ≡ false
      → rfind (end_prefix token) (codes "_EN" ++ (token ++ b'_' ∷ (ds ++ ending))) ≡ none
  none-inside ds t h k =
      let rest = skip_plain token (b'_' ∷ (ds ++ ending)) t (none-status ds h k) in
      let later = skip_plain (codes "EN") (token ++ b'_' ∷ (ds ++ ending)) refl rest in
      rfind-none (end_prefix token) b'_' (codes "EN" ++ (token ++ b'_' ∷ (ds ++ ending)))
        (begins_not_second b'_' b'E' (codes "N" ++ (token ++ b'_' ∷ (ds ++ ending))) refl) later

  whole_tail :
      (ds : List ℕ)
      → end_prefix token ++ (ds ++ ending)
        ≡ b'_' ∷ (codes "_EN" ++ (token ++ b'_' ∷ (ds ++ ending)))
  unfolding end_prefix
  whole_tail ds = ap (λ y. codes "__EN" ++ y) (append_assoc token (codes "_") (ds ++ ending))

  -- A match that more bytes complete leaves no beginning of an end after its first byte.
  pub end_match-crossing :
      (x : ℕ) (u b : List ℕ) (status : ℕ)
      → plain token ≡ true
      → end_match token (x ∷ u ++ b) ≡ some status
      → (end_match token (x ∷ u) ≡ some status) ⊎ (rfind (end_prefix token) u ≡ none)
  end_match-crossing x u b status t h =
      let e = end_match-IsEnding token (x ∷ u ++ b) status h in
      let whole = end_prefix token ++ (digits e.number ++ ending) in
      let eq : x ∷ u ++ b ≡ whole ++ e.rest =
        e.splits ∙ sym (whole_assoc (end_prefix token) (digits e.number) e.rest) in
      elim (split-append (x ∷ u) b whole e.rest eq) [
        | inl (s, k) ↦ inl (
            IsEnding-end_match token (x ∷ u) status (record {
              number = e.number;
              rest = s;
              splits = k ∙ whole_assoc (end_prefix token) (digits e.number) s;
              some_digit = e.some_digit;
              value = e.value;
            }))
        | inr (c, k) ↦
            let tail : u ++ c ≡ codes "_EN" ++ (token ++ b'_' ∷ (digits e.number ++ ending)) =
              cc (k, whole_tail (digits e.number)) in
            inr (
              rfind-prefix (end_prefix token) u c
                (rw tail (none-inside (digits e.number) t (digits-plain e.number) e.some_digit)))
      ]
