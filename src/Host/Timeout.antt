-- ===== src/Host/Timeout.antt =====
-- host/_timeout.py: the four timeouts of a host, their validation, defaults and URI keys.
pub mod Config
pub mod Uri
pub mod Valid
pub mod Resolved
pub mod Query
use hostctl.Prelude.{
  ℕ, zero, suc, String, str_eq, Bool, true, false, Option, none, some, List, [], ◌∷◌, ◌++◌, ◌&&◌,
  ◌||◌, not, if◌then◌else◌,
}
use hostctl.Prelude.Dict.{Dict, get}

-- A Python number: its sign, true when it is negative, and its size in a unit that divides both.
pub data Number : Type 0 where
  nan : Number
  infinity : Bool → Number
  finite : Bool → ℕ → Number

-- `value == 0`
abbrev pub is_zero : Number → Bool
is_zero (finite negative zero) = true
is_zero _ = false

-- `value > 0`
abbrev pub is_positive : Number → Bool
is_positive (finite false (suc n)) = true
is_positive (infinity false) = true
is_positive _ = false

-- `math.isinf`
abbrev pub is_infinite : Number → Bool
is_infinite (infinity negative) = true
is_infinite _ = false

-- An object given as a timeout: `DEFAULT`, `None`, a number, or something else, as a `bool` is.
pub data Value : Type 0 where
  default_value : Value
  none_value : Value
  number : Number → Value
  other_value : Value

-- What a field holds: `DEFAULT`, `None` or seconds.
pub data Seconds : Type 0 where
  default : Seconds
  no_limit : Seconds
  after : Number → Seconds

-- A value, `TypeError` or `ValueError`.
pub data Checked (A : Type 0) : Type 0 where
  ok : A → Checked A
  type_error : Checked A
  value_error : Checked A

abbrev pub then_check : {A B : Type 0} → Checked A → (A → Checked B) → Checked B
then_check (ok a) f = f a
then_check type_error f = type_error
then_check value_error f = value_error

-- `_FIELDS`
pub data Field : Type 0 where
  total : Field
  connect : Field
  read : Field
  write : Field

-- `name in _ZERO_FIELDS`
abbrev pub allows_zero : Field → Bool
allows_zero total = false
allows_zero connect = false
allows_zero read = true
allows_zero write = true

-- `_seconds`
unfoldable pub seconds : Field → Value → Checked Seconds
seconds name default_value = ok default
seconds name none_value = ok no_limit
seconds name other_value = type_error
seconds name (number n) =
    if is_zero n && allows_zero name
    then ok (after (finite false 0))
    else if not (is_positive n) || is_infinite n
    then value_error
    else ok (after n)

-- `Timeout`
pub record Timeout : Type 0 where
  pub total : Seconds
  pub connect : Seconds
  pub read : Seconds
  pub write : Seconds

-- `getattr(timeout, name)`
abbrev pub field : Field → Timeout → Seconds
field total t = t.total
field connect t = t.connect
field read t = t.read
field write t = t.write

-- `Timeout.__init__`: the first field that is refused raises.
unfoldable pub make : Value → Value → Value → Value → Checked Timeout
unfolding seconds
make t c r w = then_check (seconds total t) (λ total_s. then_check (seconds connect c) (λ connect_s.
    then_check (seconds read r) (λ read_s. then_check (seconds write w) (λ write_s.
      ok record { total = total_s; connect = connect_s; read = read_s; write = write_s }))))

-- What `timeout=` accepts.
pub data Argument : Type 0 where
  timeout : Timeout → Argument
  plain : Value → Argument

-- `Timeout.coerce`
unfoldable pub coerce : Argument → Checked Timeout
unfolding make
coerce (timeout t) = ok t
coerce (plain default_value) = make default_value default_value default_value default_value
coerce (plain none_value) = make none_value default_value default_value default_value
coerce (plain (number n)) = make (number n) default_value default_value default_value
coerce (plain other_value) = type_error
