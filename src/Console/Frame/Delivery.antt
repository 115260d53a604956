-- ===== src/Console/Frame/Delivery.antt =====
-- `execute` of console/_posix.py on what a console sends for one command.
use mathlib.Core.List.{flatten}
use hostctl.Prelude.{
  ℕ, ◌+◌, true, ◌≡◌, refl, ap, sym, ◌∙◌, some, List, [], ◌++◌, length, length-append, take, drop,
  append_assoc,
}
use hostctl.Prelude.Search.{find, take-exact, drop-exact}
use hostctl.Prelude.Search.Resume.{find-append}
use hostctl.Console.Frame.{start_marker, mid_marker, search_end, done, Frame, new_frame, feed}
use hostctl.Console.Frame.Ending.{plain}
use hostctl.Console.Frame.Ending.Find.{search_end-append}
use hostctl.Console.Frame.Advance.{
  View, on_err, on_out, on, advance, on_err-some, on_out-some, on_wait-some,
}
use hostctl.Console.Frame.View.{view, feed-advance}
use hostctl.Console.Frame.Chunks.{feed_all, feed_all-feed, start_IsValid}
use hostctl.Console.Frame.Collect.{collect, collect-feed_all, feed_all-emits}

-- a marker that first ends `text` is found there, whatever follows
first_marker :
    (m text rest : List ℕ)
    → find m (text ++ m) ≡ some (length text)
    → find m (text ++ (m ++ rest)) ≡ some (length text)
first_marker m text rest h =
    ap (find m) (sym (append_assoc text m rest)) ∙ find-append m (text ++ m) rest (length text) h

after_marker : (m text rest : List ℕ) → drop (length text + length m) (text ++ (m ++ rest)) ≡ rest
after_marker m text rest =
    rw⁻¹ (append_assoc text m rest, length-append text m) (drop-exact (text ++ m) rest)

-- What the console sends for one command: what comes before its frames, its stdout, its stderr, the
-- bytes that end the frames, and what comes later.
unfoldable pub stream_of : List ℕ → List ℕ → List ℕ → List ℕ → List ℕ → List ℕ → List ℕ
stream_of token before out err ending after =
    before ++ (start_marker token ++ (out ++ (mid_marker token ++ (err ++ (ending ++ after)))))

module _ (token : List ℕ) (t : plain token ≡ true) where
  module _ (before out err ending after : List ℕ) (status : ℕ)
      (starts : find (start_marker token) (before ++ start_marker token) ≡ some (length before))
      (divides : find (mid_marker token) (out ++ mid_marker token) ≡ some (length out))
      (ends : search_end token (err ++ ending) ≡ some (length err, status)) where
    abbrev finished : View
    finished = record { state = done; pending = []; out = out; err = err; returncode = some status }

    on_err-finished :
        (v : View) → v.out ≡ out → v.err ≡ [] → on_err token v (err ++ (ending ++ after)) ≡ finished
    on_err-finished v same none_yet =
        let found =
          ap (search_end token) (sym (append_assoc err ending after))
          ∙ search_end-append token t (err ++ ending) after (length err, status) ends in
        on_err-some token v (err ++ (ending ++ after)) (length err) status found
        ∙ rw (same, none_yet, take-exact err (ending ++ after)) refl

    advance-finished :
        advance token (view new_frame) (stream_of token before out err ending after) ≡ finished
    unfolding advance on stream_of
    advance-finished =
        let third = err ++ (ending ++ after) in
        let second = out ++ (mid_marker token ++ third) in
        let v = view new_frame in
        on_wait-some token v (before ++ (start_marker token ++ second)) (length before)
          (first_marker (start_marker token) before second starts)
        ∙ (ap (on_out token v) (after_marker (start_marker token) before second)
            ∙ (on_out-some token v second (length out)
                  (first_marker (mid_marker token) out third divides)
                ∙ (ap (on_err token (record v { out = take (length out) second }))
                      (after_marker (mid_marker token) out third)
                    ∙ on_err-finished (record v { out = take (length out) second })
                        (take-exact out (mid_marker token ++ third)) refl)))

    -- If the console sends the frames of a command, in whatever chunks, the reading loop of
    -- `execute` ends with the command's stdout, stderr and status, and what `feed` returned on
    -- the way is that stdout and stderr. The token has no underscore, the start marker is first
    -- found where what precedes the frames ends, the middle one where stdout ends, and the end,
    -- with its status, where stderr ends.
    pub collect-delivers :
        (chunks : List (List ℕ))
        → flatten chunks ≡ stream_of token before out err ending after
        → (g : Frame) × (collect token chunks new_frame ≡ some g)
          × (g.out ≡ out)
          × (g.err ≡ err)
          × (g.returncode ≡ some status)
          × ((feed_all token chunks new_frame).out_emit ≡ out)
          × ((feed_all token chunks new_frame).err_emit ≡ err)
    collect-delivers chunks e =
        let whole : view (feed_all token chunks new_frame).frame ≡ finished =
          feed_all-feed token t chunks
          ∙ (ap (λ s. view (feed token s new_frame).frame) e
              ∙ ((feed-advance token new_frame (stream_of token before out err ending after)
                    start_IsValid).0
                  ∙ advance-finished)) in
        let (g, found, seen) =
          collect-feed_all token chunks new_frame start_IsValid (ap (λ v. v.state) whole) in
        let same = seen ∙ whole in
        let (out_emitted, err_emitted) = feed_all-emits token chunks new_frame in
        (
          g,
          found,
          ap (λ v. v.out) same,
          ap (λ v. v.err) same,
          ap (λ v. v.returncode) same,
          sym out_emitted ∙ ap (λ v. v.out) whole,
          sym err_emitted ∙ ap (λ v. v.err) whole,
        )
