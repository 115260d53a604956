-- ===== src/Host/Timeout/Resolved.antt =====
-- What `_resolve` makes of a config's timeouts.
use hostctl.Prelude.{
  Bool, true, false, ◌≡◌, refl, ap, ◌∙◌, sym, Option, none, some, arith, Bool-cases, Option-cases,
  inl, inr,
}
use hostctl.Host.Timeout.{
  Seconds, default, no_limit, after, ok, Field, total, connect, read, write, Timeout, field,
}
use hostctl.Host.Timeout.Config.{
  is_default, refuse_field, refuse_any, refuse_unsupported, resolved, resolve,
}
use hostctl.Host.Timeout.Valid.{is_valid, IsValid, make-same}

-- The defaults of a transport are timeouts that can be set.
abbrev pub IsValidDefaults : (Field → Option Seconds) → Type 0
IsValidDefaults defaults =
    (name : Field) (s : Seconds) → defaults name ≡ some s → is_valid name s ≡ true

abbrev outcome : (Field → Option Seconds) → Timeout → Timeout
outcome defaults t = record {
  total = resolved defaults t total;
  connect = resolved defaults t connect;
  read = resolved defaults t read;
  write = resolved defaults t write;
}

outcome_field :
    (defaults : Field → Option Seconds) (t : Timeout) (name : Field)
    → field name (outcome defaults t) ≡ resolved defaults t name
outcome_field defaults t total = refl
outcome_field defaults t connect = refl
outcome_field defaults t read = refl
outcome_field defaults t write = refl

resolved_set :
    (defaults : Field → Option Seconds) (t : Timeout) (name : Field)
    → is_default (field name t) ≡ false
    → resolved defaults t name ≡ field name t
unfolding resolved
resolved_set defaults t name h = rw h refl

resolved_default :
    (defaults : Field → Option Seconds) (t : Timeout) (name : Field) (s : Seconds)
    → is_default (field name t) ≡ true
    → defaults name ≡ some s
    → resolved defaults t name ≡ s
unfolding resolved
resolved_default defaults t name s h k = rw (h, k) refl

resolved_absent :
    (defaults : Field → Option Seconds) (t : Timeout) (name : Field)
    → defaults name ≡ none
    → resolved defaults t name ≡ field name t
unfolding resolved
resolved_absent defaults t name h = ground arith

resolved-valid :
    (defaults : Field → Option Seconds) (t : Timeout) (name : Field)
    → IsValid t
    → IsValidDefaults defaults
    → is_valid name (resolved defaults t name) ≡ true
resolved-valid defaults t name valid usable = elim (Option-cases (defaults name)) [
  | inl e ↦ rw (resolved_absent defaults t name e) (valid name)
  | inr (s, e) ↦ elim (Bool-cases (is_default (field name t))) [
    | inl d ↦ rw (resolved_default defaults t name s d e) (usable name s e)
    | inr d ↦ rw (resolved_set defaults t name d) (valid name)
  ]
]

outcome-IsValid :
    (defaults : Field → Option Seconds) (t : Timeout)
    → IsValid t
    → IsValidDefaults defaults
    → IsValid (outcome defaults t)
outcome-IsValid defaults t valid usable name =
    ap (is_valid name) (outcome_field defaults t name) ∙ resolved-valid defaults t name valid usable

resolve_outcome :
    (defaults : Field → Option Seconds) (t : Timeout)
    → IsValid t
    → IsValidDefaults defaults
    → resolve defaults t ≡ ok (outcome defaults t)
unfolding resolve
resolve_outcome defaults t valid usable =
    make-same (outcome defaults t) (outcome-IsValid defaults t valid usable)

resolved_again :
    (defaults : Field → Option Seconds) (t : Timeout) (name : Field)
    → resolved defaults (outcome defaults t) name ≡ resolved defaults t name
resolved_again defaults t name = elim (Option-cases (defaults name)) [
  | inl e ↦ resolved_absent defaults (outcome defaults t) name e ∙ outcome_field defaults t name
  | inr (s, e) ↦ elim (Bool-cases (is_default (field name (outcome defaults t)))) [
    | inr d ↦ resolved_set defaults (outcome defaults t) name d ∙ outcome_field defaults t name
    | inl d ↦ elim (Bool-cases (is_default (field name t))) [
      | inl k ↦
          resolved_default defaults (outcome defaults t) name s d e
          ∙ sym (resolved_default defaults t name s k e)
      | inr k ↦
          let set = outcome_field defaults t name ∙ resolved_set defaults t name k in
          let other = ap is_default set ∙ k in ground arith
    ]
  ]
]

outcome_again :
    (defaults : Field → Option Seconds) (t : Timeout)
    → outcome defaults (outcome defaults t) ≡ outcome defaults t
outcome_again defaults t =
    rw
      (
        resolved_again defaults t total,
        resolved_again defaults t connect,
        resolved_again defaults t read,
        resolved_again defaults t write,
      )
      refl

refused_absent :
    (supported : Field → Option Seconds) (zero : Field → Bool) (t : Timeout) (name : Field)
    → refuse_field supported zero t name ≡ false
    → supported name ≡ none
    → is_default (field name t) ≡ true
unfolding refuse_field
refused_absent supported zero t name h k = ground arith

not_refused :
    (supported : Field → Option Seconds) (zero : Field → Bool) (t : Timeout) (name : Field)
    → refuse_unsupported supported zero t ≡ ok tt
    → refuse_field supported zero t name ≡ false
unfolding refuse_unsupported refuse_any
not_refused supported zero t total h = ground arith
not_refused supported zero t connect h = ground arith
not_refused supported zero t read h = ground arith
not_refused supported zero t write h = ground arith

is_default_iff : (s : Seconds) → is_default s ≡ true → s ≡ default
is_default_iff default h = refl
is_default_iff no_limit h = ground arith
is_default_iff (after n) h = ground arith

-- For a timeout that a config accepted, and defaults that can be set, `_resolve` gives a timeout in
-- which a field that was set keeps its value, a supported field that was `DEFAULT` has the
-- transport's default and an unsupported one is `DEFAULT`; it can be set, and resolving it again
-- changes nothing.
pub resolve_lem :
    (supported : Field → Option Seconds) (zero : Field → Bool) (t : Timeout)
    → IsValid t
    → IsValidDefaults supported
    → refuse_unsupported supported zero t ≡ ok tt
    → (r : Timeout) × (resolve supported t ≡ ok r)
      × IsValid r
      × ((name : Field) → is_default (field name t) ≡ false → field name r ≡ field name t)
      × ((name : Field) (s : Seconds)
          → is_default (field name t) ≡ true
          → supported name ≡ some s
          → field name r ≡ s)
      × ((name : Field) → supported name ≡ none → field name r ≡ default)
      × (resolve supported r ≡ ok r)
resolve_lem supported zero t valid usable accepted =
    let valid' = outcome-IsValid supported t valid usable in
    (
      outcome supported t,
      resolve_outcome supported t valid usable,
      valid',
      (λ name h. outcome_field supported t name ∙ resolved_set supported t name h),
      (λ name s h k. outcome_field supported t name ∙ resolved_default supported t name s h k),
      (λ name k.
          outcome_field supported t name
          ∙ resolved_absent supported t name k
          ∙ is_default_iff (field name t) (
              refused_absent supported zero t name (not_refused supported zero t name accepted) k)),
      resolve_outcome supported (outcome supported t) valid' usable
          ∙ ap ok (outcome_again supported t),
    )
