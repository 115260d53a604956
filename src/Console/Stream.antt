-- ===== src/Console/Stream.antt =====
-- `_ReaderThreadStream` of console/_stream.py: a thread pumps the bytes of a process into a buffer that
-- `read` takes from. Both work under one condition variable, so their steps come one after the other.
pub mod Steps
pub mod Delivery
use hostctl.Prelude.{
  ℕ, zero, suc, Bool, true, false, ◌≡◌, Option, none, some, List, [], ◌∷◌, ◌++◌, ◌&&◌, ◌||◌, not,
  null, length, take, drop, if◌then◌else◌,
}

-- What `_process.read` raised: a `TypeError` is raised again as it is.
pub data Failure : Type 0 where
  wrong_type : Failure
  other_failure : Failure

-- `_buffer`, `_ended` and `_error`.
pub record Stream : Type 0 where
  pub buffer : List ℕ
  pub ended : Bool
  pub error : Option Failure

-- `__init__`
abbrev pub start : Stream
start = record { buffer = []; ended = false; error = none }

-- What one `_process.read` of the pump gives: bytes, a `str`, or an exception.
pub data Pumped : Type 0 where
  bytes : List ℕ → Pumped
  text : Pumped
  raised : Failure → Pumped

-- `_pump`, from one read of the process on.
unfoldable pub pump : Pumped → Stream → Stream
pump (bytes []) s = record s { ended = true }
pump (bytes (b ∷ data_rest)) s = record s { buffer = s.buffer ++ b ∷ data_rest }
pump text s = record s { error = some wrong_type; ended = true }
pump (raised e) s = record s { error = some e; ended = true }

-- The `size` of a read: less than `-1`, `-1`, or a number of bytes.
pub data Size : Type 0 where
  invalid_size : Size
  everything : Size
  at_most : ℕ → Size

-- The `timeout` of a read: `None`, negative, or a number of seconds.
pub data Wait : Type 0 where
  unbounded : Wait
  negative : Wait
  bounded : Wait

pub data ReadResult : Type 0 where
  delivered : List ℕ → ReadResult
  value_error : ReadResult
  type_error : ReadResult
  connection_error : ReadResult

-- What `wait_for` waits for.
abbrev pub is_ready : Stream → Bool
is_ready s = not (null s.buffer) || s.ended

-- How many bytes a read takes from the buffer.
abbrev pub take_count : Size → Stream → ℕ
take_count invalid_size s = length s.buffer
take_count everything s = length s.buffer
take_count (at_most n) s = n

-- The end of the stream, as a read reports it.
abbrev pub end_error : Option Failure → ReadResult
end_error none = connection_error
end_error (some wrong_type) = type_error
end_error (some other_failure) = connection_error

-- The part of `read` after the wait.
unfoldable pub read_ready : Size → Stream → ReadResult × Stream
read_ready size s =
    let count = take_count size s in
    if not (null s.buffer)
    then (delivered (take count s.buffer), record s { buffer = drop count s.buffer })
    else if s.ended
    then (end_error s.error, s)
    else (delivered [], s)

-- `read`, in the state that its wait ends in.
unfoldable pub read : Size → Wait → Stream → ReadResult × Stream
unfolding read_ready
read invalid_size wait s = (value_error, s)
read everything negative s = (value_error, s)
read everything unbounded s = read_ready everything s
read everything bounded s = read_ready everything s
read (at_most n) negative s = (value_error, s)
read (at_most zero) unbounded s = (delivered [], s)
read (at_most zero) bounded s = (delivered [], s)
read (at_most (suc n)) unbounded s = read_ready (at_most (suc n)) s
read (at_most (suc n)) bounded s = read_ready (at_most (suc n)) s

-- `reset_input_buffer`
unfoldable pub reset_input_buffer : Stream → Stream
reset_input_buffer s = record s { buffer = [] }
