-- ===== src/Console/Frame/View.antt =====
-- `_Frame` of console/_posix.py: `feed` on the buffer and its positions does what `advance` does on the
-- bytes still to be scanned.
use hostctl.Prelude.{
  ℕ, zero, suc, ◌+◌, ◌≤◌, ◌≡◌, refl, sym, subst, Option, none, List, [], ◌++◌, length,
  length-append, take, drop, codes, ltb, arith, Bool-cases, Option-cases, inl, inr, append-nil,
}
use hostctl.Prelude.Search.{find, rfind, held_at, drop-append, drop-drop, drop-take, length-drop}
use hostctl.Prelude.Search.Resume.{find-le, held_at_le}
use hostctl.Console.Frame.{
  start_marker, mid_marker, end_prefix, search_end, State, waiting, in_out, in_err, done, Frame,
  Pass, safe_end, pass_err, pass_out, pass_wait, pass_from, compacted, feed,
}
use hostctl.Console.Frame.Ending.Resume.{err_at, err_at_le}
use hostctl.Console.Frame.Partial.{partial_lem, rfind-find}
use hostctl.Console.Frame.Advance.{View, on_err, on_out, on_wait, on, advance}

abbrev pub pending_of : State → ℕ → List ℕ → List ℕ
pending_of done n text = []
pending_of _ n text = drop n text

abbrev pub view : Frame → View
view f = record {
  state = f.state;
  pending = pending_of f.state f.pos f.buffer;
  out = f.out;
  err = f.err;
  returncode = f.returncode;
}

pending_of-moved :
    (st : State) (n : ℕ) (text : List ℕ) → pending_of st 0 (drop n text) ≡ pending_of st n text
pending_of-moved waiting n text = refl
pending_of-moved in_out n text = refl
pending_of-moved in_err n text = refl
pending_of-moved done n text = refl

-- What holds of a frame between two calls of `feed`.
pub record IsValid (f : Frame) : Type 0 where
  pub scanned : f.scan ≡ f.pos
  pub within : f.pos ≤ length f.buffer
  pub at_start : f.state ≡ waiting → f.pos ≡ 0

-- a frame whose buffer is scanned from `n` on
abbrev placed : Frame → State → ℕ → Frame
placed f st n = record f { state = st; pos = n; scan = n }

-- what `feed` makes of a pass
abbrev settled : Pass → Frame
settled p = record p.frame { out = p.frame.out ++ p.out_emit; err = p.frame.err ++ p.err_emit }

-- A pass does what `v` says, and leaves a valid frame.
abbrev Does : Pass → View → Type 0
Does p v = (view (settled p) ≡ v) × IsValid (settled p)

module _ (token : List ℕ) where
  ends_find : (p : List ℕ) → rfind (end_prefix token) p ≡ none → find (end_prefix token) p ≡ none
  unfolding end_prefix
  ends_find p h = rfind-find b'_' (codes "_EN" ++ (token ++ codes "_")) p h

  safe_end_lem :
      (text : List ℕ) (n : ℕ)
      → n ≤ length text
      → safe_end token text n ≡ n + err_at (end_prefix token) (drop n text)
  unfolding safe_end err_at
  safe_end_lem text n h = elim (Option-cases (rfind (end_prefix token) (drop n text))) [
    | inl e ↦
        rw (e, safe_end, err_at)
          (partial_lem (end_prefix token) text n h (ends_find (drop n text) e))
    | inr (i, e) ↦ rw (e, safe_end, err_at) refl
  ]

  pass_err-Does :
      (f : Frame) (n : ℕ)
      → n ≤ length f.buffer
      → Does (pass_err token (placed f in_err n)) (on_err token (view f) (drop n f.buffer))
  unfolding pass_err on_err
  pass_err-Does f n h = elim (Option-cases (search_end token (drop n f.buffer))) [
    | inl e ↦
        let k = err_at (end_prefix token) (drop n f.buffer) in
        let short = err_at_le (end_prefix token) (drop n f.buffer) in
        let size = length-drop n f.buffer in
        rw
          (
            e,
            pass_err,
            on_err,
            safe_end_lem f.buffer n h,
            append-nil f.out,
            drop-take n k f.buffer,
            drop-drop n k f.buffer,
          )
          (refl, record { scanned = refl; within = omega arith; at_start = λ w. cc })
    | inr ((i, status), e) ↦
        rw (e, pass_err, on_err, append-nil f.out, drop-take n i f.buffer)
          (refl, record { scanned = refl; within = h; at_start = λ w. cc })
  ]

  -- bytes of stdout that were emitted before the stderr
  pass_err-emitted :
      (f : Frame) (n : ℕ) (e : List ℕ)
      → (let more = pass_err token (placed f in_err n) in
          settled (record more { out_emit = e ++ more.out_emit }))
        ≡ settled (pass_err token (placed (record f { out = f.out ++ e }) in_err n))
  unfolding pass_err
  pass_err-emitted f n e = elim (Option-cases (search_end token (drop n f.buffer))) [
    | inl h ↦ rw (h, pass_err, append-nil e, append-nil (f.out ++ e)) refl
    | inr ((i, status), h) ↦ rw (h, pass_err, append-nil e, append-nil (f.out ++ e)) refl
  ]

  pass_out-Does :
      (f : Frame) (n : ℕ)
      → n ≤ length f.buffer
      → Does (pass_out token (placed f in_out n)) (on_out token (view f) (drop n f.buffer))
  unfolding pass_out on_out
  pass_out-Does f n h = elim (Option-cases (find (mid_marker token) (drop n f.buffer))) [
    | inl e ↦
        let k = held_at (mid_marker token) (drop n f.buffer) in
        let short = held_at_le (mid_marker token) (drop n f.buffer) in
        let size = length-drop n f.buffer in
        rw
          (
            e,
            pass_out,
            on_out,
            partial_lem (mid_marker token) f.buffer n h e,
            append-nil f.err,
            drop-take n k f.buffer,
            drop-drop n k f.buffer,
          )
          (refl, record { scanned = refl; within = omega arith; at_start = λ w. cc })
    | inr (i, e) ↦
        let fits = find-le (mid_marker token) (drop n f.buffer) i e in
        let size = length-drop n f.buffer in
        let next = n + i + length (mid_marker token) in
        let given = take i (drop n f.buffer) in
        let same : n + (i + length (mid_marker token)) ≡ next = omega arith in
        rw
          (
            e,
            pass_out,
            on_out,
            drop-take n i f.buffer,
            drop-drop n (i + length (mid_marker token)) f.buffer,
            same,
          )
          (subst
            (λ (g : Frame).
              (view g
                ≡ on_err token (view (record f { out = f.out ++ given })) (drop next f.buffer))
              × IsValid g)
            (sym (pass_err-emitted f next given))
            (pass_err-Does (record f { out = f.out ++ given }) next (omega arith)))
  ]

  pass_wait-Does :
      (f : Frame) → Does (pass_wait token (placed f waiting 0)) (on_wait token (view f) f.buffer)
  unfolding pass_wait on_wait
  pass_wait-Does f = elim (Option-cases (find (start_marker token) f.buffer)) [
    | inl e ↦
        rw (e, pass_wait, on_wait, append-nil f.out, append-nil f.err)
          (refl, record { scanned = refl; within = omega arith; at_start = λ w. refl })
    | inr (i, e) ↦
        let fits = find-le (start_marker token) f.buffer i e in
        let same : 0 + i + length (start_marker token) ≡ i + length (start_marker token) =
          omega arith in
        rw (e, pass_wait, on_wait, same) (pass_out-Does f (i + length (start_marker token)) fits)
  ]

  compacted_lem :
      (p : Pass) (v : View)
      → Does p v
      → (let kept = compacted p.frame in
          let f = record kept { out = kept.out ++ p.out_emit; err = kept.err ++ p.err_emit } in
          (view f ≡ v) × IsValid f)
  unfolding compacted
  compacted_lem p v (same, valid) = elim (Bool-cases (ltb 65536 p.frame.pos)) [
    | inl e ↦
        let moved = pending_of-moved p.frame.state p.frame.pos p.frame.buffer in
        let scanned = valid.scanned in
        rw (e, moved)
          (same, record { scanned = omega arith; within = omega arith; at_start = λ w. refl })
    | inr e ↦ rw e (same, valid)
  ]

  module _ (out err : List ℕ) (returncode : Option ℕ) where
    -- a frame that is scanned up to its position
    abbrev at_pos : List ℕ → State → ℕ → Frame
    at_pos text st n = record {
      buffer = text;
      state = st;
      pos = n;
      scan = n;
      out = out;
      err = err;
      returncode = returncode;
    }

    pass_from-Does :
        (st : State) (text : List ℕ) (n : ℕ) (chunk : List ℕ)
        → n ≤ length text
        → (st ≡ waiting → n ≡ 0)
        → Does
            (pass_from token st (at_pos (text ++ chunk) st n))
            (on token st (view (at_pos text st n)) (pending_of st n text ++ chunk))
    unfolding pass_from on on_wait on_out on_err
    pass_from-Does waiting text zero chunk h w = pass_wait-Does (at_pos (text ++ chunk) waiting 0)
    pass_from-Does waiting text (suc n) chunk h w = let e = w refl in absurd (omega arith)
    pass_from-Does in_out text n chunk h w =
        let both = length-append text chunk in
        rw⁻¹ (drop-append n text chunk h)
          (pass_out-Does (at_pos (text ++ chunk) in_out n) n (omega arith))
    pass_from-Does in_err text n chunk h w =
        let both = length-append text chunk in
        rw⁻¹ (drop-append n text chunk h)
          (pass_err-Does (at_pos (text ++ chunk) in_err n) n (omega arith))
    pass_from-Does done text n chunk h w =
        let both = length-append text chunk in
        rw (append-nil out, append-nil err)
          (refl, record { scanned = refl; within = omega arith; at_start = λ e. cc })

  -- `feed` does what `advance` does.
  pub feed-advance :
      (f : Frame) (chunk : List ℕ)
      → IsValid f
      → (view (feed token chunk f).frame ≡ advance token (view f) chunk)
        × IsValid (feed token chunk f).frame
  unfolding feed advance
  feed-advance f chunk valid =
      let back : f.pos ≡ f.scan = sym valid.scanned in
      let same : record f { scan = f.pos } ≡ f = λ i. record f { scan = back i } in
      subst
        (λ (g : Frame).
          (view (feed token chunk g).frame ≡ advance token (view g) chunk)
          × IsValid (feed token chunk g).frame)
        same
        (compacted_lem _ _ (
          pass_from-Does f.out f.err f.returncode f.state f.buffer f.pos chunk valid.within
            valid.at_start))
