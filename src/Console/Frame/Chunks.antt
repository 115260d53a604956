-- ===== src/Console/Frame/Chunks.antt =====
-- `_Frame` of console/_posix.py on all the chunks of a stream.
use mathlib.Core.List.{flatten}
use hostctl.Prelude.{
  ℕ, ◌-◌, true, ◌≡◌, refl, ap, sym, ◌∙◌, none, List, [], ◌∷◌, ◌++◌, length, arith, append-nil,
}
use hostctl.Prelude.Search.{begins_with, find, drop-nil}
use hostctl.Console.Frame.{start_marker, Frame, new_frame, Pass, feed}
use hostctl.Console.Frame.Ending.{plain}
use hostctl.Console.Frame.Advance.{on, advance, on_wait-none}
use hostctl.Console.Frame.Regroup.{advance-append}
use hostctl.Console.Frame.View.{view, IsValid, feed-advance}

pub start_IsValid : IsValid new_frame
start_IsValid = record { scanned = refl; within = omega arith; at_start = λ w. refl }

module _ (token : List ℕ) where
  -- The chunks in turn, and all that `feed` returns for them.
  unfoldable pub feed_all : List (List ℕ) → Frame → Pass
  feed_all [] f = record { frame = f; out_emit = []; err_emit = [] }
  feed_all (chunk ∷ chunks) f =
      let first = feed token chunk f in
      let later = feed_all chunks first.frame in
      record {
        frame = later.frame;
        out_emit = first.out_emit ++ later.out_emit;
        err_emit = first.err_emit ++ later.err_emit;
      }

  pub feed_all-IsValid :
      (chunks : List (List ℕ)) (f : Frame) → IsValid f → IsValid (feed_all chunks f).frame
  unfolding feed_all
  feed_all-IsValid [] f h = h
  feed_all-IsValid (chunk ∷ chunks) f h =
      feed_all-IsValid chunks (feed token chunk f).frame (feed-advance token f chunk h).1

  module _ (t : plain token ≡ true) where
    pub feed_all-advance :
        (chunks : List (List ℕ)) (chunk : List ℕ) (f : Frame)
        → IsValid f
        → view (feed_all (chunk ∷ chunks) f).frame
          ≡ advance token (view f) (chunk ++ flatten chunks)
    unfolding feed_all flatten
    feed_all-advance [] chunk f h = rw (append-nil chunk) (feed-advance token f chunk h).0
    feed_all-advance (next ∷ chunks) chunk f h =
        let (same, valid) = feed-advance token f chunk h in
        feed_all-advance chunks next (feed token chunk f).frame valid
        ∙ (ap (λ v. advance token v (next ++ flatten chunks)) same
            ∙ advance-append token t (view f) chunk (next ++ flatten chunks))

    no_start : find (start_marker token) [] ≡ none
    unfolding find begins_with start_marker
    no_start = refl

    nothing_yet : advance token (view new_frame) [] ≡ view new_frame
    unfolding advance on
    nothing_yet =
        on_wait-none token (view new_frame) [] no_start
        ∙ ap (λ p. record (view new_frame) { pending = p })
            (drop-nil (0 - (length (start_marker token) - 1)))

    -- Whatever the chunks are that a stream comes in, the frame is in the end as if it came at once: in
    -- the same state, with the same stdout, stderr and status, and the same bytes held back.
    pub feed_all-feed :
        (chunks : List (List ℕ))
        → view (feed_all chunks new_frame).frame
          ≡ view (feed token (flatten chunks) new_frame).frame
    unfolding flatten feed_all
    feed_all-feed [] = sym ((feed-advance token new_frame [] start_IsValid).0 ∙ nothing_yet)
    feed_all-feed (chunk ∷ chunks) =
        feed_all-advance chunks chunk new_frame start_IsValid
        ∙ sym (feed-advance token new_frame (chunk ++ flatten chunks) start_IsValid).0
