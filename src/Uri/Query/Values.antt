-- ===== src/Uri/Query/Values.antt =====
-- uri/_parse.py: what the query of a connection URI says of a key.
use hostctl.Prelude.{
  String, str_eq, Bool, true, false, ◌≡◌, refl, ◌≤◌, Option, none, some, List, [], ◌∷◌, ◌++◌,
  length, append-nil, if◌then◌else◌, arith, eq_iff, contains, inl, inr, Bool-cases, subst,
}
use hostctl.Prelude.Dict.{Dict, get, put, get-put, get-put_self}
use hostctl.Uri.Query.{
  Parameter, single, several, duplicate, unknown, not_a_tuple, Parsed, parsed, refused,
  parameter_label, repeat_value, single_value, add_pair,
}

-- The values of a key, in order.
unfoldable pub values_of : String → List (String × String) → List String
values_of key [] = []
values_of key (pair ∷ rest) =
    let more = values_of key rest in if str_eq pair.0 key then pair.1 ∷ more else more

pub values_of-append :
    (key : String) (xs ys : List (String × String))
    → values_of key (xs ++ ys) ≡ values_of key xs ++ values_of key ys
unfolding values_of
values_of-append key [] ys = refl
values_of-append key (x ∷ xs) ys = ground (arith, values_of-append key xs ys)

-- What a query has for a key with the given values: nothing without one, all of them for a repeatable
-- key, and else the only one.
abbrev pub Means : Bool → List String → Option Parameter → Type 0
Means repeatable [] found = found ≡ none
Means true (v ∷ vs) found = found ≡ some (several (v ∷ vs))
Means false (v ∷ []) found = found ≡ some (single v)
Means false (v ∷ w ∷ vs) found = ⊥

abbrev pub AllMean : List String → List (String × String) → Dict Parameter → Type 0
AllMean repeated pairs found =
    (key : String) → Means (contains repeated key) (values_of key pairs) (get key found)

pub Means-null : (r : Bool) (vs : List String) → Means r vs none → vs ≡ []
Means-null r [] h = refl
Means-null true (v ∷ vs) h = cc
Means-null false (v ∷ []) h = cc
Means-null false (v ∷ (w ∷ ws)) h = absurd h

pub Means-single : (vs : List String) (x : Option Parameter) → Means false vs x → length vs ≤ 1
Means-single [] x h = omega arith
Means-single (v ∷ []) x h = omega arith
Means-single (v ∷ (w ∷ ws)) x h = absurd h

-- What a parse from the pairs `pairs` promises, unknown keys apart.
abbrev pub Read : List String → String → List (String × String) → Parsed → Type 0
Read repeated query pairs (parsed found) = AllMean repeated pairs found
Read repeated query pairs (refused (duplicate l)) =
    (key : String) × (contains repeated key ≡ false)
    × (2 ≤ length (values_of key pairs))
    × (l ≡ parameter_label query key)
Read repeated query pairs (refused (unknown l)) = ⊥
Read repeated query pairs (refused not_a_tuple) = ⊥

module _ (repeated : List String) (query key value : String) (pairs : List (String × String))
    (found : Dict Parameter) where
  abbrev longer : List (String × String)
  longer = pairs ++ (key, value) ∷ []

  more_values : values_of key longer ≡ values_of key pairs ++ value ∷ []
  unfolding values_of
  more_values = rw (values_of-append key pairs ((key, value) ∷ [])) (ground (arith, eq_iff key key))

  other_values : (j : String) → str_eq key j ≡ false → values_of j longer ≡ values_of j pairs
  unfolding values_of
  other_values j e =
      rw (values_of-append j pairs ((key, value) ∷ []), e) (append-nil (values_of j pairs))

  -- a new value for the key keeps the others as they are
  put-AllMean :
      (x : Parameter)
      → AllMean repeated pairs found
      → Means (contains repeated key) (values_of key pairs ++ value ∷ []) (some x)
      → AllMean repeated longer (put key x found)
  put-AllMean x h now j = elim (Bool-cases (str_eq key j)) [
    | inl e ↦
        let same : key ≡ j = ground (arith, eq_iff key j) in
        subst (λ i. Means (contains repeated i) (values_of i longer) (get i (put key x found))) same
          (rw (more_values, get-put_self key x found) now)
    | inr e ↦ rw (other_values j e, get-put key j x found, e) (h j)
  ]

  pub repeat_value-Read :
      contains repeated key ≡ true
      → AllMean repeated pairs found
      → (vs : List String) (x : Option Parameter) → values_of key pairs ≡ vs
      → Means true vs x
      → Read repeated query longer (repeat_value key value found x)
  unfolding repeat_value
  repeat_value-Read r h vs none e k =
      let empty = Means-null true vs k in
      put-AllMean (several (value ∷ [])) h (rw (r, e, empty) refl)
  repeat_value-Read r h [] (some x) e k = cc
  repeat_value-Read r h (v ∷ vs) (some (single w)) e k = cc
  repeat_value-Read r h (v ∷ vs) (some (several ws)) e k =
      let same : ws ≡ v ∷ vs = cc in
      put-AllMean (several (ws ++ value ∷ [])) h (rw (r, e, same) refl)

  pub single_value-Read :
      contains repeated key ≡ false
      → AllMean repeated pairs found
      → (vs : List String) (x : Option Parameter) → values_of key pairs ≡ vs
      → Means false vs x
      → Read repeated query longer (single_value query key value found x)
  unfolding single_value
  single_value-Read r h vs none e k =
      let empty = Means-null false vs k in put-AllMean (single value) h (rw (r, e, empty) refl)
  single_value-Read r h [] (some x) e k = cc
  single_value-Read r h (v ∷ []) (some x) e k = (key, r, rw (more_values, e) (omega arith), refl)
  single_value-Read r h (v ∷ (w ∷ ws)) (some x) e k = absurd k

  pub add_pair-Read :
      AllMean repeated pairs found
      → Read repeated query longer (add_pair repeated query (key, value) found)
  unfolding add_pair
  add_pair-Read h = elim (Bool-cases (contains repeated key)) [
    | inl r ↦
        rw (r, add_pair)
          (repeat_value-Read r h (values_of key pairs) (get key found) refl (rw⁻¹ r (h key)))
    | inr r ↦
        rw (r, add_pair)
          (single_value-Read r h (values_of key pairs) (get key found) refl (rw⁻¹ r (h key)))
  ]
