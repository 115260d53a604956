-- ===== src/Host/Timeout/Config.antt =====
-- host/_timeout.py: the timeouts of a config with those of its transport.
use hostctl.Prelude.{
  Bool, true, false, Option, none, some, List, [], ◌∷◌, ◌&&◌, ◌||◌, not, if◌then◌else◌,
}
use hostctl.Host.Timeout.{
  Number, is_zero, Value, default_value, none_value, number, Seconds, default, no_limit, after,
  Checked, ok, value_error, Field, total, connect, read, write, Timeout, field, make,
}

-- `value is DEFAULT`
abbrev pub is_default : Seconds → Bool
is_default default = true
is_default no_limit = false
is_default (after n) = false

-- `value == 0`
abbrev pub is_no_wait : Seconds → Bool
is_no_wait default = false
is_no_wait no_limit = false
is_no_wait (after n) = is_zero n

abbrev pub is_some : Option Seconds → Bool
is_some none = false
is_some (some s) = true

-- One round of `_refuse_unsupported`: `supported` is the config's `_timeout_defaults` and `zero` its
-- `_timeout_zero`.
unfoldable pub refuse_field : (Field → Option Seconds) → (Field → Bool) → Timeout → Field → Bool
refuse_field supported zero t name =
    let value = field name t in
    (not (is_some (supported name)) && not (is_default value))
    || (is_no_wait value && not (zero name))

abbrev pub fields : List Field
fields = total ∷ connect ∷ read ∷ write ∷ []

unfoldable pub refuse_any : (Field → Option Seconds) → (Field → Bool) → Timeout → List Field → Bool
unfolding refuse_field
refuse_any supported zero t [] = false
refuse_any supported zero t (name ∷ names) =
    refuse_field supported zero t name || refuse_any supported zero t names

-- `_refuse_unsupported`
unfoldable pub refuse_unsupported :
    (Field → Option Seconds) → (Field → Bool) → Timeout → Checked Unit
unfolding refuse_any
refuse_unsupported supported zero t =
    if refuse_any supported zero t fields then value_error else ok tt

-- A field's value as an argument.
abbrev pub as_value : Seconds → Value
as_value default = default_value
as_value no_limit = none_value
as_value (after n) = number n

-- One value of `_resolve`.
unfoldable pub resolved : (Field → Option Seconds) → Timeout → Field → Seconds
resolved defaults t name =
    if is_default (field name t)
    then elim (defaults name) [ none ↦ field name t | some s ↦ s ]
    else field name t

-- `_resolve`
unfoldable pub resolve : (Field → Option Seconds) → Timeout → Checked Timeout
unfolding resolved make
resolve defaults t =
    make (as_value (resolved defaults t total)) (as_value (resolved defaults t connect))
      (as_value (resolved defaults t read)) (as_value (resolved defaults t write))

-- The timeout of a call of `run()`.
pub data Given : Type 0 where
  omitted : Given
  given : Seconds → Given

-- What is passed on to a provider.
pub data Deadline : Type 0 where
  left_out : Deadline
  no_deadline : Deadline
  deadline : Number → Deadline

abbrev pub as_deadline : Seconds → Deadline
as_deadline default = left_out
as_deadline no_limit = no_deadline
as_deadline (after n) = deadline n

-- `config.timeout.total`, or `DEFAULT` for a config that has none.
abbrev pub total_of : Option Timeout → Seconds
total_of none = default
total_of (some t) = t.total

-- `_run_timeout`
unfoldable pub run_timeout : Option Timeout → Given → Deadline
run_timeout config omitted = as_deadline (total_of config)
run_timeout config (given default) = as_deadline (total_of config)
run_timeout config (given no_limit) = no_deadline
run_timeout config (given (after n)) = deadline n

abbrev pub limit_of : Seconds → Option Number
limit_of default = none
limit_of no_limit = none
limit_of (after n) = some n

-- `_call_timeout`: `none` is no limit.
unfoldable pub call_timeout : Option Timeout → Given → Option Number
call_timeout config omitted = limit_of (total_of config)
call_timeout config (given default) = limit_of (total_of config)
call_timeout config (given no_limit) = none
call_timeout config (given (after n)) = some n
