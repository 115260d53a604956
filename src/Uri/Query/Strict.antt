-- ===== src/Uri/Query/Strict.antt =====
-- `strict_uri_query` of uri/_parse.py: what it accepts, and what it refuses.
use hostctl.Prelude.{
  String, true, false, not, ◌≡◌, ◌≢◌, refl, ◌≤◌, ◌&&◌, none, List, [], ◌∷◌, ◌++◌, length, map,
  filter_by, length-append, arith, eq_iff, contains, subst, append_assoc, append-nil, ◌∙◌,
}
use hostctl.Prelude.Dict.{Dict, get}
use hostctl.Prelude.Sorting.{contains-sorted}
use hostctl.Uri.Query.{
  Parameter, Refusal, duplicate, unknown, not_a_tuple, Parsed, parsed, refused, then_parsed,
  parameter_label, add_pair, add_pairs, unknown_keys, refuse_unknown, strict_uri_query,
}
use hostctl.Uri.Query.Values.{
  values_of, values_of-append, Means, AllMean, Means-null, Means-single, Read, add_pair-Read,
}

more_le :
    (key : String) (xs ys : List (String × String))
    → length (values_of key xs) ≤ length (values_of key (xs ++ ys))
more_le key xs ys =
    let both = length-append (values_of key xs) (values_of key ys) in
    rw (values_of-append key xs ys) (omega arith)

-- A refusal stays one when more pairs follow.
refused-Read :
    (repeated : List String) (query : String) (xs ys : List (String × String)) (e : Refusal)
    → Read repeated query xs (refused e)
    → Read repeated query (xs ++ ys) (refused e)
refused-Read repeated query xs ys (duplicate l) (key, r, two, same) =
    let more = more_le key xs ys in (key, r, omega arith, same)
refused-Read repeated query xs ys (unknown l) h = h
refused-Read repeated query xs ys not_a_tuple h = h

module _ (repeated : List String) (query : String) where
  rest-Read :
      (done rest : List (String × String))
      → ((found : Dict Parameter)
          → AllMean repeated done found
          → Read repeated query (done ++ rest) (add_pairs repeated query rest found))
      → (p : Parsed) → Read repeated query done p
      → Read repeated query (done ++ rest) (then_parsed p (add_pairs repeated query rest))
  rest-Read done rest k (parsed found) h = k found h
  rest-Read done rest k (refused e) h = refused-Read repeated query done rest e h

  add_pairs-Read :
      (done rest : List (String × String)) (found : Dict Parameter)
      → AllMean repeated done found
      → Read repeated query (done ++ rest) (add_pairs repeated query rest found)
  unfolding add_pairs
  add_pairs-Read done [] found h = rw (append-nil done) h
  add_pairs-Read done (pair ∷ rest) found h = rw⁻¹ (append_assoc done (pair ∷ []) rest) (
      rest-Read (done ++ pair ∷ []) rest (add_pairs-Read (done ++ pair ∷ []) rest)
        (add_pair repeated query pair found)
        (add_pair-Read repeated query pair.0 pair.1 done found h))

abbrev keys : Dict Parameter → List String
keys = map (λ entry. entry.0)

contains-keys : (k : String) (d : Dict Parameter) → contains (keys d) k ≡ true → get k d ≢ none
unfolding get
contains-keys k [] h e = cc
contains-keys k (x ∷ d) h e = ground (arith, contains-keys k d)

keys-contain : (k : String) (d : Dict Parameter) → contains (keys d) k ≡ false → get k d ≡ none
unfolding get
keys-contain k [] h = refl
keys-contain k (x ∷ d) h = ground (arith, keys-contain k d)

contains-filter :
    (allowed ks : List String) (n : String)
    → contains (filter_by (λ key. not (contains allowed key)) ks) n
      ≡ (contains ks n && not (contains allowed n))
unfolding filter_by
contains-filter allowed [] n = refl
contains-filter allowed (k ∷ ks) n = ground (arith, contains-filter allowed ks n, eq_iff k n)

contains-unknown :
    (allowed : List String) (found : Dict Parameter) (n : String)
    → contains (unknown_keys allowed found) n
      ≡ (contains (keys found) n && not (contains allowed n))
unfolding unknown_keys
contains-unknown allowed found n =
    contains-sorted (filter_by (λ key. not (contains allowed key)) (keys found)) n
    ∙ contains-filter allowed (keys found) n

-- What the result says of the pairs of the query.
abbrev pub Explains : List String → List String → String → List (String × String) → Parsed → Type 0
Explains allowed repeated query pairs (parsed found) =
    AllMean repeated pairs found
    × ((key : String) → contains allowed key ≡ false → values_of key pairs ≡ [])
Explains allowed repeated query pairs (refused (duplicate l)) =
    (key : String) × (contains repeated key ≡ false)
    × (2 ≤ length (values_of key pairs))
    × (l ≡ parameter_label query key)
Explains allowed repeated query pairs (refused (unknown l)) =
    ((j : String) → contains repeated j ≡ false → length (values_of j pairs) ≤ 1)
    × ((key : String) × (contains allowed key ≡ false)
        × (1 ≤ length (values_of key pairs))
        × (l ≡ parameter_label query key))
Explains allowed repeated query pairs (refused not_a_tuple) = ⊥

module _ (allowed repeated : List String) (query : String) (pairs : List (String × String)) where
  module _ (found : Dict Parameter) (h : AllMean repeated pairs found) where
    absent : (key : String) → contains (keys found) key ≡ false → values_of key pairs ≡ []
    absent key e = Means-null (contains repeated key) (values_of key pairs) (
        subst (Means (contains repeated key) (values_of key pairs)) (keys-contain key found e)
          (h key))

    present : (key : String) → contains (keys found) key ≡ true → 1 ≤ length (values_of key pairs)
    present key e = go (values_of key pairs) (h key)
      where
        go : (vs : List String) → Means (contains repeated key) vs (get key found) → 1 ≤ length vs
        go [] k = absurd (contains-keys key found e k)
        go (v ∷ vs) k = omega arith

    refuse_unknown-Explains :
        (ks : List String)
        → unknown_keys allowed found ≡ ks
        → Explains allowed repeated query pairs (refuse_unknown query found ks)
    unfolding refuse_unknown
    refuse_unknown-Explains [] e = (
      h,
      λ key a. absent key (
          let all = contains-unknown allowed found key in
          let none_left : contains (unknown_keys allowed found) key ≡ false = rw e refl in
          ground arith),
    )
    refuse_unknown-Explains (k ∷ ks) e =
        let all = contains-unknown allowed found k in
        let there : contains (unknown_keys allowed found) k ≡ true =
          rw e (ground (arith, eq_iff k k)) in
        let known : contains (keys found) k ≡ true = ground arith in
        let refusal : contains allowed k ≡ false = ground arith in
        (
          (λ j r. Means-single (values_of j pairs) (get j found) (rw⁻¹ r (h j))),
          (k, refusal, present k known, refl),
        )

  finish-Explains :
      (p : Parsed)
      → Read repeated query pairs p
      → Explains allowed repeated query pairs
          (then_parsed p (λ found. refuse_unknown query found (unknown_keys allowed found)))
  finish-Explains (parsed found) h =
      refuse_unknown-Explains found h (unknown_keys allowed found) refl
  finish-Explains (refused (duplicate l)) h = h
  finish-Explains (refused (unknown l)) h = absurd h
  finish-Explains (refused not_a_tuple) h = absurd h

  nothing-AllMean : AllMean repeated [] []
  unfolding values_of get
  nothing-AllMean key = refl

  -- A query is accepted only if each of its keys is allowed and each key that may not be repeated stands
  -- in it once; then each key has its value, or all its values in order if it may be repeated. The
  -- duplicate that is refused stands in the query twice and may not be repeated; the unknown key stands
  -- in it and is not allowed, and is refused only if there is no duplicate. The message names the key by
  -- its label. No value is ever added to one that is not a tuple.
  pub strict_uri_query-Explains :
      Explains allowed repeated query pairs (strict_uri_query allowed repeated query pairs)
  unfolding strict_uri_query
  strict_uri_query-Explains =
      finish-Explains (add_pairs repeated query pairs [])
        (add_pairs-Read repeated query [] pairs [] nothing-AllMean)
