-- ===== src/Host/Timeout/Query.antt =====
-- A connection URI carries a host's timeouts: what is written into the query is read back.
use hostctl.Prelude.{
  ℕ, Bool, ◌*◌, ◌/◌, ◌==◌, ==_iff, subst, Bool-cases, inl, inr, zero, suc, String, str_eq, eq_iff,
  true, false, ◌≡◌, refl, Option, none, some, [], ◌∷◌, ◌++◌, arith, ◌&&◌, if◌then◌else◌,
}
use hostctl.Prelude.Dict.{Dict, get}
use hostctl.Host.Timeout.{
  Number, nan, infinity, finite, is_zero, is_positive, allows_zero, number, Seconds, default,
  no_limit, after, ok, value_error, Field, total, connect, read, write, Timeout, field,
}
use hostctl.Host.Timeout.Config.{as_value}
use hostctl.Host.Timeout.Uri.{
  Conversions, seconds_text, uri_key, pair_of, query_pair, timeout_query, query_value,
  timeout_from_query,
}
use hostctl.Host.Timeout.Valid.{is_valid, IsValid, make-same}

abbrev or_else : Option String → Option String → Option String
or_else none o = o
or_else (some v) o = some v

or_else-none : (o : Option String) → or_else o none ≡ o
or_else-none none = refl
or_else-none (some v) = refl

get-append : (k : String) (d e : Dict String) → get k (d ++ e) ≡ or_else (get k d) (get k e)
unfolding get
get-append k [] e = refl
get-append k ((j, v) ∷ d) e = ground (arith, get-append k d e)

get_four :
    (k : String) (a b c d : Dict String)
    → get k (a ++ b ++ c ++ d) ≡ or_else (or_else (or_else (get k a) (get k b)) (get k c)) (get k d)
get_four k a b c d =
    rw (get-append k (a ++ b ++ c) d, get-append k (a ++ b) c, get-append k a b) refl

-- What Python says of its conversions: `float` reads `repr` of a float back as that float, and `str` of
-- an `int` as a float of the same value, if there is one; neither text is empty. `is_float` says which
-- sizes a float can have.
pub record ReadsBack (c : Conversions) (is_float : ℕ → Bool) : Type 0 where
  pub int_read :
      (k : ℕ)
      → is_float (k * c.unit) ≡ true
      → c.float_of (c.int_text false k) ≡ some (finite false (k * c.unit))
  pub repr_read :
      (n : ℕ)
      → is_float n ≡ true
      → c.float_of (c.float_repr (finite false n)) ≡ some (finite false n)
  pub int_some : (k : ℕ) → str_eq (c.int_text false k) "" ≡ false
  pub repr_some : (n : ℕ) → str_eq (c.float_repr (finite false n)) "" ≡ false

-- The number of a field, if it has one, is a float.
abbrev pub holds_float : (ℕ → Bool) → Seconds → Bool
holds_float is_float (after (finite negative n)) = is_float n
holds_float is_float _ = true

number_accepted :
    (name : Field) (n : Number)
    → is_valid name (after n) ≡ true
    → (if is_zero n && allows_zero name
        then ok (number n)
        else if is_positive n
        then ok (number n)
        else value_error)
      ≡ ok (number n)
number_accepted name nan h = ground arith
number_accepted name (infinity negative) h = ground arith
number_accepted name (finite true zero) h = ground arith
number_accepted name (finite false zero) h = ground arith
number_accepted name (finite true (suc n)) h = ground arith
number_accepted name (finite false (suc n)) h = ground arith

module _ (c : Conversions) (is_float : ℕ → Bool) (back : ReadsBack c is_float) where
  abbrev Reads : Number → Type 0
  Reads n = (c.float_of (seconds_text c n) ≡ some n) × (str_eq (seconds_text c n) "" ≡ false)

  Reads-finite : (n : ℕ) → is_float n ≡ true → Reads (finite false n)
  unfolding seconds_text
  Reads-finite n h = elim (Bool-cases (n / c.unit * c.unit == n)) [
    | inl e ↦
        let same = (==_iff (n / c.unit * c.unit) n).0 e in
        rw e (
          subst
              (λ m.
                is_float m ≡ true
                → c.float_of (c.int_text false (n / c.unit)) ≡ some (finite false m))
              same (back.int_read (n / c.unit)) h,
          back.int_some (n / c.unit),
        )
    | inr e ↦ rw e (back.repr_read n h, back.repr_some n)
  ]

  seconds_text-Reads :
      (name : Field) (n : Number)
      → is_valid name (after n) ≡ true
      → holds_float is_float (after n) ≡ true
      → Reads n
  seconds_text-Reads name nan h f = cc
  seconds_text-Reads name (infinity negative) h f = cc
  seconds_text-Reads name (finite false n) h f = Reads-finite n f
  seconds_text-Reads name (finite true zero) h f = cc
  seconds_text-Reads name (finite true (suc n)) h f = cc

  abbrev text_of : Seconds → Option String
  text_of default = none
  text_of no_limit = some ""
  text_of (after n) = some (seconds_text c n)

  get_own : (key : String) (s : Seconds) → get key (pair_of c key s) ≡ text_of s
  unfolding get
  get_own key default = refl
  get_own key no_limit = rw ((eq_iff key key).1 refl) refl
  get_own key (after n) = rw ((eq_iff key key).1 refl) refl

  get_other :
      (key other : String) (s : Seconds)
      → str_eq other key ≡ false
      → get key (pair_of c other s) ≡ none
  unfolding get
  get_other key other default h = refl
  get_other key other no_limit h = rw h refl
  get_other key other (after n) h = rw h refl

  get_query :
      (name : Field) (t : Timeout) → get (uri_key name) (timeout_query c t) ≡ text_of (field name t)
  unfolding timeout_query query_pair
  get_query total t =
      rw
        (
          get_four,
          get_own,
          get_other "timeout" "timeout_connect" t.connect refl,
          get_other "timeout" "timeout_read" t.read refl,
          get_other "timeout" "timeout_write" t.write refl,
          or_else-none,
          or_else-none,
          or_else-none,
        )
        refl
  get_query connect t =
      rw
        (
          get_four,
          get_own,
          get_other "timeout_connect" "timeout" t.total refl,
          get_other "timeout_connect" "timeout_read" t.read refl,
          get_other "timeout_connect" "timeout_write" t.write refl,
          or_else-none,
          or_else-none,
        )
        refl
  get_query read t =
      rw
        (
          get_four,
          get_own,
          get_other "timeout_read" "timeout" t.total refl,
          get_other "timeout_read" "timeout_connect" t.connect refl,
          get_other "timeout_read" "timeout_write" t.write refl,
          or_else-none,
        )
        refl
  get_query write t =
      rw
        (
          get_four,
          get_own,
          get_other "timeout_write" "timeout" t.total refl,
          get_other "timeout_write" "timeout_connect" t.connect refl,
          get_other "timeout_write" "timeout_read" t.read refl,
        )
        refl

  value_read :
      (name : Field) (s : Seconds) (query : Dict String)
      → get (uri_key name) query ≡ text_of s
      → is_valid name s ≡ true
      → holds_float is_float s ≡ true
      → query_value c.float_of query name ≡ ok (as_value s)
  unfolding query_value
  value_read name default query h v f = rw (h, query_value) refl
  value_read name no_limit query h v f = rw (h, query_value) refl
  value_read name (after n) query h v f =
      let (same, text) = seconds_text-Reads name n v f in
      rw (h, query_value, text, same) (number_accepted name n v)

  -- A connection URI that carries the timeouts of a host gives them back, if they can be set and their
  -- numbers are floats. Python's own conversions of numbers are taken to read back what they write.
  pub timeout_from_query-timeout_query :
      (t : Timeout)
      → IsValid t
      → ((name : Field) → holds_float is_float (field name t) ≡ true)
      → timeout_from_query c.float_of (timeout_query c t) ≡ ok t
  unfolding timeout_from_query
  timeout_from_query-timeout_query t valid floats =
      let query = timeout_query c t in
      rw
        (
          value_read total t.total query (get_query total t) (valid total) (floats total),
          value_read connect t.connect query (get_query connect t) (valid connect) (floats connect),
          value_read read t.read query (get_query read t) (valid read) (floats read),
          value_read write t.write query (get_query write t) (valid write) (floats write),
        )
        (make-same t valid)
