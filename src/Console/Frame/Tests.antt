-- ===== src/Console/Frame/Tests.antt =====
-- A command that writes to both streams, in chunks that cut the markers of its frames.
use mathlib.Core.List.{flatten}
use hostctl.Prelude.{ℕ, ◌≡◌, refl, some, List, [], ◌∷◌, ◌++◌, codes}
use hostctl.Prelude.Search.{begins_with, find}
use hostctl.Console.Frame.{
  start_marker, mid_marker, end_prefix, is_digit, digits, past_digits, number_from, status_after,
  end_match, search_end, Frame, new_frame, partial_from, partial, pass_out, pass_wait, pass_from,
  compacted, feed,
}
use hostctl.Console.Frame.View.{view}
use hostctl.Console.Frame.Chunks.{feed_all, feed_all-feed}
use hostctl.Console.Frame.Collect.{collect}
use hostctl.Console.Frame.Delivery.{stream_of, collect-delivers}

abbrev token : List ℕ
token = codes "0123456789abcdef"

abbrev ending : List ℕ
ending = codes "__EN0123456789abcdef_37_EN__"

abbrev chunks : List (List ℕ)
chunks =
    codes "$ __ST01234567"
    ∷ codes "89abcdef__hi__OU"
    ∷ codes "T0123456789abcdef__no_"
    ∷ codes "_EN0123456789abcdef_3"
    ∷ codes "7_EN__$ "
    ∷ []

feed_all-feed_example :
    view (feed_all token chunks new_frame).frame
    ≡ view (feed token (flatten chunks) new_frame).frame
feed_all-feed_example = feed_all-feed token refl chunks

begun : find (start_marker token) (codes "$ " ++ start_marker token) ≡ some 2
unfolding find begins_with start_marker
begun = refl

divided : find (mid_marker token) (codes "hi" ++ mid_marker token) ≡ some 2
unfolding find begins_with mid_marker
divided = refl

ended : search_end token (codes "no" ++ ending) ≡ some (2, 37)
unfolding search_end end_match status_after digits past_digits number_from is_digit end_prefix
    begins_with
ended = refl

whole : flatten chunks ≡ stream_of token (codes "$ ") (codes "hi") (codes "no") ending (codes "$ ")
unfolding flatten stream_of start_marker mid_marker
whole = refl

collect-delivers_example :
    (g : Frame) × (collect token chunks new_frame ≡ some g)
    × (g.out ≡ codes "hi")
    × (g.err ≡ codes "no")
    × (g.returncode ≡ some 37)
    × ((feed_all token chunks new_frame).out_emit ≡ codes "hi")
    × ((feed_all token chunks new_frame).err_emit ≡ codes "no")
collect-delivers_example =
    collect-delivers token refl (codes "$ ") (codes "hi") (codes "no") ending (codes "$ ") 37 begun
      divided ended chunks whole

-- a beginning of a marker is held back
held_back : (feed token (codes "__ST0123456789abcdef__hi__O") new_frame).out_emit ≡ codes "hi"
unfolding feed pass_from pass_wait pass_out partial partial_from find begins_with start_marker
    mid_marker compacted
held_back = refl
