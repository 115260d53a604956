-- ===== src/Container/Archive.antt =====
-- transports/container/_archive.py: chunked reading, member names, file modes and errors.
pub mod Chunks
pub mod Names
pub mod Modes
use hostctl.Prelude.{
  ℕ, zero, suc, ◌+◌, ◌/◌, ◌%◌, ◌^◌, Bool, true, false, Option, none, some, List, [], ◌∷◌, ◌++◌,
  ◌==◌, ltb, ◌&&◌, ◌||◌, not, null, any, all, length, filter_by, codes, take, drop, if◌then◌else◌,
}
use hostctl.Shell.Text.{Text, backslash}

-- `_ChunkReader`: the chunks still to come of Docker's iterator, `_buffer` and `_done`.
pub record ChunkReader : Type 0 where
  pub chunks : List (List ℕ)
  pub buffer : List ℕ
  pub done : Bool

-- `__init__`
abbrev pub open_chunks : List (List ℕ) → ChunkReader
open_chunks chunks = record { chunks = chunks; buffer = []; done = false }

-- `while not self._buffer and not self._done`
unfoldable pub fill : List (List ℕ) → List ℕ → Bool → ChunkReader
fill [] buffer done = record {
  chunks = [];
  buffer = buffer;
  done = if null buffer && not done then true else done;
}
fill (c ∷ cs) buffer done =
    let filled = fill cs (buffer ++ c) done in
    if null buffer && not done
    then filled
    else record { chunks = c ∷ cs; buffer = buffer; done = done }

-- `readinto` a buffer of `size` bytes: the bytes written to it.
unfoldable pub readinto : ℕ → ChunkReader → List ℕ × ChunkReader
unfolding fill
readinto size r =
    let filled = fill r.chunks r.buffer r.done in
    let held = length filled.buffer in
    let count = if ltb size held then size else held in
    (take count filled.buffer, record filled { buffer = drop count filled.buffer })

abbrev pub slash : ℕ
slash = 47

-- `name.replace("\\", "/")`
abbrev pub normalized : Text → Text
normalized [] = []
normalized (c ∷ s) = (if c == backslash then slash else c) ∷ normalized s

abbrev pub cons_first : ℕ → List Text → List Text
cons_first c [] = (c ∷ []) ∷ []
cons_first c (part ∷ parts) = (c ∷ part) ∷ parts

-- `text.split("/")`
abbrev pub split : Text → List Text
split [] = [] ∷ []
split (c ∷ s) = if c == slash then [] ∷ split s else cons_first c (split s)

abbrev pub is_dot : Text → Bool
is_dot [] = false
is_dot (c ∷ []) = c == b'.'
is_dot (c ∷ d ∷ s) = false

abbrev pub is_dot_dot : Text → Bool
is_dot_dot [] = false
is_dot_dot (c ∷ []) = false
is_dot_dot (c ∷ d ∷ []) = c == b'.' && d == b'.'
is_dot_dot (c ∷ d ∷ e ∷ s) = false

abbrev pub is_absolute : Text → Bool
is_absolute [] = false
is_absolute (c ∷ s) = c == slash

-- `_safe_name`: `none` is its `OSError`.
unfoldable pub safe_name : Text → Option (List Text)
safe_name name =
    if is_absolute (normalized name)
    then none
    else let parts = filter_by (λ part. not (null part || is_dot part)) (split (normalized name)) in
      if any is_dot_dot parts then none else some parts

-- `mode & (1 << k)`
unfoldable pub has_bit : ℕ → ℕ → Bool
has_bit k mode = mode / 2 ^ k % 2 == 1

-- `result | (1 << k)`
unfoldable pub or_bit : ℕ → ℕ → ℕ
unfolding has_bit
or_bit k result = if has_bit k result then result else result + 2 ^ k

-- `_posix_mode`; a type that is two bits is or-ed bit by bit.
unfoldable pub posix_mode : ℕ → Bool → ℕ
unfolding has_bit or_bit
posix_mode mode link_target =
    let start = mode % 512 in
    let uid = if has_bit 23 mode then or_bit 11 start else start in
    let gid = if has_bit 22 mode then or_bit 10 uid else uid in
    let result = if has_bit 20 mode then or_bit 9 gid else gid in
    if has_bit 31 mode
    then or_bit 14 result
    else if has_bit 27 mode
    then or_bit 13 (or_bit 15 result)
    else if has_bit 26 mode
    then if has_bit 21 mode then or_bit 13 result else or_bit 13 (or_bit 14 result)
    else if has_bit 24 mode
    then or_bit 12 result
    else if has_bit 25 mode
    then or_bit 14 (or_bit 15 result)
    else if link_target
    then or_bit 13 (or_bit 15 result)
    else or_bit 15 result
