-- ===== src/Console/Frame.antt =====
-- `_Frame` of console/_posix.py: the incremental parser of one command's frames on a console's
-- stream. Its markers are made of the command's token. `_KEEP` is 65536.
pub mod Ending
pub mod Partial
pub mod View
pub mod Advance
pub mod Chunks
pub mod Collect
pub mod Delivery
pub mod Regroup
pub mod Tests
use hostctl.Prelude.{
  ℕ, zero, suc, ◌+◌, ◌-◌, ◌*◌, Bool, true, false, ◌&&◌, not, Option, none, some, List, [], ◌∷◌,
  ◌++◌, length, take, drop, null, ltb, leb, if◌then◌else◌, codes,
}
use hostctl.Prelude.Search.{begins_with, find, rfind, shift_by}

-- `self.start`, `self.mid` and `self._end_prefix`
unfoldable pub start_marker : List ℕ → List ℕ
start_marker token = codes "__ST" ++ (token ++ codes "__")

unfoldable pub mid_marker : List ℕ → List ℕ
mid_marker token = codes "__OUT" ++ (token ++ codes "__")

unfoldable pub end_prefix : List ℕ → List ℕ
end_prefix token = codes "__EN" ++ (token ++ codes "_")

unfoldable pub is_digit : ℕ → Bool
is_digit c = leb b'0' c && leb c b'9'

-- What `\d+` matches, and what comes after it.
unfoldable pub digits : List ℕ → List ℕ
unfolding is_digit
digits [] = []
digits (c ∷ cs) = let more = digits cs in if is_digit c then c ∷ more else []

unfoldable pub past_digits : List ℕ → List ℕ
unfolding is_digit
past_digits [] = []
past_digits (c ∷ cs) = let more = past_digits cs in if is_digit c then more else c ∷ cs

-- `int` of a text of digits.
unfoldable pub number_from : ℕ → List ℕ → ℕ
number_from n [] = n
number_from n (c ∷ cs) = number_from (n * 10 + (c - b'0')) cs

unfoldable pub status_after : List ℕ → Option ℕ
unfolding digits past_digits number_from
status_after text =
    if not (null (digits text)) && begins_with (codes "_EN__") (past_digits text)
    then some (number_from 0 (digits text))
    else none

-- `self.end` at the beginning of a text: the status that it holds.
unfoldable pub end_match : List ℕ → List ℕ → Option ℕ
unfolding status_after
end_match token text =
    if begins_with (end_prefix token) text
    then status_after (drop (length (end_prefix token)) text)
    else none

-- `self.end.search`: where the match starts, and its status.
unfoldable pub search_end : List ℕ → List ℕ → Option (ℕ × ℕ)
unfolding end_match
search_end token [] = none
search_end token (x ∷ text) = elim (end_match token (x ∷ text)) [
  | some status ↦ some (0, status)
  | none ↦ elim (search_end token text) [ some (i, status) ↦ some (suc i, status) | none ↦ none ]
]

pub data State : Type 0 where
  waiting in_out in_err done : State

pub record Frame : Type 0 where
  pub buffer : List ℕ
  pub state : State
  pub pos : ℕ
  pub scan : ℕ
  pub out : List ℕ
  pub err : List ℕ
  pub returncode : Option ℕ

-- `__init__`
abbrev pub new_frame : Frame
new_frame = record {
  buffer = [];
  state = waiting;
  pos = 0;
  scan = 0;
  out = [];
  err = [];
  returncode = none;
}

-- `text[first:last]`
abbrev pub slice : ℕ → ℕ → List ℕ → List ℕ
slice first last text = drop first (take last text)

-- The loop of `_partial`, from `size` down.
unfoldable pub partial_from : ℕ → List ℕ → List ℕ → ℕ
partial_from zero text marker = 0
partial_from (suc size) text marker =
    let shorter = partial_from size text marker in
    if begins_with (drop (length text - suc size) text) (take (suc size) marker)
    then suc size
    else shorter

-- `min`
abbrev pub smaller : ℕ → ℕ → ℕ
smaller a b = if ltb b a then b else a

-- `_partial`
unfoldable pub partial : List ℕ → List ℕ → ℕ → ℕ
unfolding partial_from
partial text marker start =
    partial_from (smaller (length marker - 1) (length text - start)) text marker

-- A frame with what is now safe to emit.
pub record Pass : Type 0 where
  pub frame : Frame
  pub out_emit : List ℕ
  pub err_emit : List ℕ

module _ (token : List ℕ) where
  -- The end of what can be emitted of stderr: the last place where the end may have begun.
  unfoldable pub safe_end : List ℕ → ℕ → ℕ
  unfolding partial
  safe_end text first = elim (rfind (end_prefix token) (drop first text)) [
    | some tail ↦ first + tail
    | none ↦ length text - partial text (end_prefix token) first
  ]

  -- The loop of `feed` from the state "err" on, "out" on, and "wait" on.
  unfoldable pub pass_err : Frame → Pass
  pass_err f = elim (search_end token (drop f.scan f.buffer)) [
    | none ↦
        let safe = safe_end f.buffer f.pos in
        record {
          frame = record f { pos = safe; scan = safe };
          out_emit = [];
          err_emit = slice f.pos safe f.buffer;
        }
    | some (at, status) ↦ record {
      frame = record f { returncode = some status; state = done };
      out_emit = [];
      err_emit = slice f.pos (f.scan + at) f.buffer;
    }
  ]

  unfoldable pub pass_out : Frame → Pass
  pass_out f = elim (find (mid_marker token) (drop f.scan f.buffer)) [
    | none ↦
        let safe = length f.buffer - partial f.buffer (mid_marker token) f.pos in
        record {
          frame = record f { pos = safe; scan = safe };
          out_emit = slice f.pos safe f.buffer;
          err_emit = [];
        }
    | some at ↦
        let hit = f.scan + at in
        let next = hit + length (mid_marker token) in
        let more = pass_err (record f { state = in_err; pos = next; scan = next }) in
        record more { out_emit = slice f.pos hit f.buffer ++ more.out_emit }
  ]

  unfoldable pub pass_wait : Frame → Pass
  pass_wait f = elim (find (start_marker token) (drop f.scan f.buffer)) [
    | none ↦
        let keep = length (start_marker token) - 1 in
        record {
          frame = record f { buffer = drop (length f.buffer - keep) f.buffer; scan = 0 };
          out_emit = [];
          err_emit = [];
        }
    | some at ↦
        let next = f.scan + at + length (start_marker token) in
        pass_out (record f { state = in_out; pos = next; scan = next })
  ]

  unfoldable pub pass_from : State → Frame → Pass
  pass_from waiting f = pass_wait f
  pass_from in_out f = pass_out f
  pass_from in_err f = pass_err f
  pass_from done f = record { frame = f; out_emit = []; err_emit = [] }

-- `if self.pos > _KEEP`
unfoldable pub compacted : Frame → Frame
compacted f =
    if ltb 65536 f.pos
    then record f { buffer = drop f.pos f.buffer; scan = f.scan - f.pos; pos = 0 }
    else f

-- `feed`, with the bytes that it returns.
unfoldable pub feed : List ℕ → List ℕ → Frame → Pass
feed token chunk f =
    let pass = pass_from token f.state (record f { buffer = f.buffer ++ chunk }) in
    let kept = compacted pass.frame in
    record pass {
      frame = record kept { out = kept.out ++ pass.out_emit; err = kept.err ++ pass.err_emit };
    }
