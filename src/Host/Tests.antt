-- ===== src/Host/Tests.antt =====
-- A host with a total timeout, a read that does not wait and no limit on writing.
use hostctl.Prelude.{
  Bool-cases, inl, inr, eq_iff, sym, ◌∙◌, arith, ℕ, zero, suc, String, str_eq, true, false, ◌≡◌,
  refl, ap, Option, none, some, arith, ◌*◌, if◌then◌else◌,
}
use hostctl.Host.Timeout.{
  Number, nan, infinity, finite, number, default_value, none_value, Seconds, default, no_limit,
  after, ok, Field, total, connect, read, write, Timeout, field, make, seconds,
}
use hostctl.Host.Timeout.Config.{is_default, refuse_unsupported, refuse_any, refuse_field, resolve}
use hostctl.Host.Timeout.Uri.{Conversions, seconds_text, timeout_query, timeout_from_query}
use hostctl.Host.Timeout.Valid.{IsValid}
use hostctl.Host.Timeout.Resolved.{IsValidDefaults, resolve_lem}
use hostctl.Host.Timeout.Query.{ReadsBack, holds_float, timeout_from_query-timeout_query}

abbrev sample : Timeout
sample = record {
  total = after (finite false 30);
  connect = default;
  read = after (finite false 0);
  write = no_limit;
}

sample_made :
    make (number (finite false 30)) default_value (number (finite true 0)) none_value ≡ ok sample
unfolding make seconds
sample_made = refl

sample-IsValid : IsValid sample
sample-IsValid total = refl
sample-IsValid connect = refl
sample-IsValid read = refl
sample-IsValid write = refl

abbrev serial_defaults : Field → Option Seconds
serial_defaults total = some no_limit
serial_defaults connect = some (after (finite false 10))
serial_defaults read = some (after (finite false 5))
serial_defaults write = some no_limit

serial_usable : IsValidDefaults serial_defaults
serial_usable total s h = ground arith
serial_usable connect s h = ground arith
serial_usable read s h = ground arith
serial_usable write s h = ground arith

sample_accepted : refuse_unsupported serial_defaults (λ name. true) sample ≡ ok tt
unfolding refuse_unsupported refuse_any refuse_field
sample_accepted = refl

resolve_lem_example :
    (r : Timeout) × (resolve serial_defaults sample ≡ ok r)
    × IsValid r
    × ((name : Field) → is_default (field name sample) ≡ false → field name r ≡ field name sample)
    × ((name : Field) (s : Seconds)
        → is_default (field name sample) ≡ true
        → serial_defaults name ≡ some s
        → field name r ≡ s)
    × ((name : Field) → serial_defaults name ≡ none → field name r ≡ default)
    × (resolve serial_defaults r ≡ ok r)
resolve_lem_example =
    resolve_lem serial_defaults (λ name. true) sample sample-IsValid serial_usable sample_accepted

-- numbers in unary, in half seconds; a whole number of seconds has a sign before it
abbrev marks : ℕ → String
marks zero = ""
marks (suc n) = String.◌∷◌ "1" (marks n)

abbrev text_length : String → ℕ
text_length String.[] = 0
text_length (String.◌∷◌ c s) = suc (text_length s)

abbrev marked_number : String → Option Number
marked_number String.[] = none
marked_number (String.◌∷◌ c s) =
    if str_eq (String.◌∷◌ c String.[]) "w"
    then some (finite false (text_length s * 2))
    else some (finite false (text_length s))

abbrev in_marks : Conversions
in_marks = record {
  unit = 2;
  int_text = λ negative k. String.◌∷◌ "w" (marks k);
  float_repr = λ n. elim n [
    | finite negative k ↦ String.◌∷◌ "h" (marks k)
    | infinity negative ↦ "inf"
    | nan ↦ "nan"
  ];
  float_of = marked_number;
}

text_length-marks : (n : ℕ) → text_length (marks n) ≡ n
text_length-marks zero = refl
text_length-marks (suc n) = ap suc (text_length-marks n)

some_text : (s : String) (n : ℕ) → text_length s ≡ suc n → str_eq s "" ≡ false
some_text s n h = elim (Bool-cases (str_eq s "")) [
  | inr e ↦ e
  | inl e ↦ let short = sym h ∙ ap text_length ((eq_iff s "").0 e) in ground arith
]

in_marks-ReadsBack : ReadsBack in_marks (λ n. true)
in_marks-ReadsBack = record {
  int_read = λ k h. ap (λ n. some (finite false (n * 2))) (text_length-marks k);
  repr_read = λ n h. ap (λ k. some (finite false k)) (text_length-marks n);
  int_some = λ k. some_text (String.◌∷◌ "w" (marks k)) k (ap suc (text_length-marks k));
  repr_some = λ n. some_text (String.◌∷◌ "h" (marks n)) n (ap suc (text_length-marks n));
}

abbrev fractional : Timeout
fractional = record sample { total = after (finite false 31) }

fractional-IsValid : IsValid fractional
fractional-IsValid total = refl
fractional-IsValid connect = refl
fractional-IsValid read = refl
fractional-IsValid write = refl

fractional_floats : (name : Field) → holds_float (λ n. true) (field name fractional) ≡ true
fractional_floats total = refl
fractional_floats connect = refl
fractional_floats read = refl
fractional_floats write = refl

timeout_from_query-timeout_query_example :
    timeout_from_query marked_number (timeout_query in_marks fractional) ≡ ok fractional
timeout_from_query-timeout_query_example =
    timeout_from_query-timeout_query in_marks (λ n. true) in_marks-ReadsBack fractional
      fractional-IsValid fractional_floats

-- half seconds that are whole seconds, and some that are not
texts :
    (seconds_text in_marks (finite false 4) ≡ "w11")
    × (seconds_text in_marks (finite false 3) ≡ "h111")
unfolding seconds_text
texts = (refl, refl)
