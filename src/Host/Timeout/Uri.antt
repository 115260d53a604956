-- ===== src/Host/Timeout/Uri.antt =====
-- host/_timeout.py: timeouts in the query of a connection URI, with `_seconds_text` of uri/_parse.py.
use hostctl.Prelude.{
  ℕ, ◌*◌, ◌/◌, ◌==◌, Bool, not, String, str_eq, Option, none, some, [], ◌∷◌, ◌++◌, ◌&&◌,
  if◌then◌else◌,
}
use hostctl.Prelude.Dict.{Dict, get}
use hostctl.Host.Timeout.{
  Number, nan, infinity, finite, is_zero, is_positive, allows_zero, Value, default_value,
  none_value, number, Seconds, default, no_limit, after, Checked, ok, value_error, then_check,
  Field, total, connect, read, write, Timeout, field, make,
}

-- `_URI_KEYS`
abbrev pub uri_key : Field → String
uri_key total = "timeout"
uri_key connect = "timeout_connect"
uri_key read = "timeout_read"
uri_key write = "timeout_write"

-- Python's own conversions, and how many units of a `Number` a second has.
pub record Conversions : Type 0 where
  pub unit : ℕ
  -- `str` of an `int`, by its sign and size
  pub int_text : Bool → ℕ → String
  -- `repr` of a `float`, and `float` of a text
  pub float_repr : Number → String
  pub float_of : String → Option Number

-- `_seconds_text`: `str(int(value))` if that is the value itself, and `repr(float(value))`.
unfoldable pub seconds_text : Conversions → Number → String
seconds_text c nan = c.float_repr nan
seconds_text c (infinity negative) = c.float_repr (infinity negative)
seconds_text c (finite negative n) =
    if n / c.unit * c.unit == n
    then c.int_text (negative && not (n / c.unit == 0)) (n / c.unit)
    else c.float_repr (finite negative n)

-- The pair of one field, if it is not `DEFAULT`.
abbrev pub pair_of : Conversions → String → Seconds → Dict String
pair_of c key default = []
pair_of c key no_limit = (key, "") ∷ []
pair_of c key (after n) = (key, seconds_text c n) ∷ []

unfoldable pub query_pair : Conversions → Timeout → Field → Dict String
query_pair c t name = pair_of c (uri_key name) (field name t)

-- `_timeout_query`
unfoldable pub timeout_query : Conversions → Timeout → Dict String
unfolding query_pair
timeout_query c t =
    query_pair c t total ++ query_pair c t connect ++ query_pair c t read ++ query_pair c t write

-- One round of `_timeout_from_query`.
unfoldable pub query_value : (String → Option Number) → Dict String → Field → Checked Value
query_value float_of query name = elim (get (uri_key name) query) [
  | none ↦ ok default_value
  | some text ↦ if str_eq text "" then ok none_value else elim (float_of text) [
    | none ↦ value_error
    | some n ↦
        if is_zero n && allows_zero name
        then ok (number n)
        else if is_positive n
        then ok (number n)
        else value_error
  ]
]

-- `_timeout_from_query`
unfoldable pub timeout_from_query : (String → Option Number) → Dict String → Checked Timeout
unfolding query_value make
timeout_from_query float_of query = then_check (query_value float_of query total) (λ total_v.
    then_check (query_value float_of query connect) (λ connect_v.
      then_check (query_value float_of query read) (λ read_v.
        then_check (query_value float_of query write)
          (λ write_v. make total_v connect_v read_v write_v))))
