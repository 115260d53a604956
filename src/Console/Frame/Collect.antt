-- ===== src/Console/Frame/Collect.antt =====
-- The reading loop of `execute` in console/_posix.py, and what it returns for a command's frames.
use hostctl.Prelude.{
  ℕ, Bool, true, false, ◌≡◌, refl, ap, sym, subst, ◌∙◌, Option, none, some, List, [], ◌∷◌, ◌++◌,
  drop, ltb, Option-cases, Bool-cases, inl, inr, append_assoc, append-nil, if◌then◌else◌,
}
use hostctl.Prelude.Search.{find}
use hostctl.Console.Frame.{
  start_marker, mid_marker, search_end, State, waiting, in_out, in_err, done, Frame, Pass,
  compacted, pass_err, pass_out, pass_wait, pass_from, feed,
}
use hostctl.Console.Frame.Advance.{on, advance}
use hostctl.Console.Frame.View.{view, IsValid, feed-advance}
use hostctl.Console.Frame.Chunks.{feed_all}

abbrev pub is_done : State → Bool
is_done done = true
is_done _ = false

is_done_lem : (st : State) → is_done st ≡ true → st ≡ done
is_done_lem waiting h = cc
is_done_lem in_out h = cc
is_done_lem in_err h = cc
is_done_lem done h = refl

module _ (token : List ℕ) where
  -- The loop of `execute`, for a stream that gives these chunks: `none` while it waits for more.
  unfoldable pub collect : List (List ℕ) → Frame → Option Frame
  collect [] f = if is_done f.state then some f else none
  collect (chunk ∷ chunks) f =
      let later = collect chunks (feed token chunk f).frame in
      if is_done f.state then some f else later

  -- A pass leaves what was collected before as it is.
  abbrev Keeps : Frame → Pass → Type 0
  Keeps f p = (p.frame.out ≡ f.out) × (p.frame.err ≡ f.err)

  pass_err-Keeps : (f : Frame) → Keeps f (pass_err token f)
  unfolding pass_err
  pass_err-Keeps f = elim (Option-cases (search_end token (drop f.scan f.buffer))) [
    | inl e ↦ rw (e, pass_err) (refl, refl)
    | inr ((i, status), e) ↦ rw (e, pass_err) (refl, refl)
  ]

  pass_out-Keeps : (f : Frame) → Keeps f (pass_out token f)
  unfolding pass_out
  pass_out-Keeps f = elim (Option-cases (find (mid_marker token) (drop f.scan f.buffer))) [
    | inl e ↦ rw (e, pass_out) (refl, refl)
    | inr (i, e) ↦ rw (e, pass_out) (pass_err-Keeps _)
  ]

  pass_wait-Keeps : (f : Frame) → Keeps f (pass_wait token f)
  unfolding pass_wait
  pass_wait-Keeps f = elim (Option-cases (find (start_marker token) (drop f.scan f.buffer))) [
    | inl e ↦ rw (e, pass_wait) (refl, refl)
    | inr (i, e) ↦ rw (e, pass_wait) (pass_out-Keeps _)
  ]

  pass_from-Keeps : (st : State) (f : Frame) → Keeps f (pass_from token st f)
  unfolding pass_from
  pass_from-Keeps waiting f = pass_wait-Keeps f
  pass_from-Keeps in_out f = pass_out-Keeps f
  pass_from-Keeps in_err f = pass_err-Keeps f
  pass_from-Keeps done f = (refl, refl)

  compacted-Keeps : (f : Frame) → ((compacted f).out ≡ f.out) × ((compacted f).err ≡ f.err)
  unfolding compacted
  compacted-Keeps f = elim (Bool-cases (ltb 65536 f.pos)) [
    | inl e ↦ rw e (refl, refl)
    | inr e ↦ rw e (refl, refl)
  ]

  -- What `feed` returns is what it adds to the frame.
  feed-emits :
      (f : Frame) (chunk : List ℕ)
      → ((feed token chunk f).frame.out ≡ f.out ++ (feed token chunk f).out_emit)
        × ((feed token chunk f).frame.err ≡ f.err ++ (feed token chunk f).err_emit)
  unfolding feed
  feed-emits f chunk =
      let (out, err) = pass_from-Keeps f.state (record f { buffer = f.buffer ++ chunk }) in
      let p = pass_from token f.state (record f { buffer = f.buffer ++ chunk }) in
      let (same_out, same_err) = compacted-Keeps p.frame in
      (ap (λ x. x ++ p.out_emit) (same_out ∙ out), ap (λ x. x ++ p.err_emit) (same_err ∙ err))

  pub feed_all-emits :
      (chunks : List (List ℕ)) (f : Frame)
      → ((feed_all token chunks f).frame.out ≡ f.out ++ (feed_all token chunks f).out_emit)
        × ((feed_all token chunks f).frame.err ≡ f.err ++ (feed_all token chunks f).err_emit)
  unfolding feed_all
  feed_all-emits [] f = (sym (append-nil f.out), sym (append-nil f.err))
  feed_all-emits (chunk ∷ chunks) f =
      let p = feed token chunk f in
      let (out, err) = feed-emits f chunk in
      let (more_out, more_err) = feed_all-emits chunks p.frame in
      let later = feed_all token chunks p.frame in
      (
        more_out
            ∙ (ap (λ x. x ++ later.out_emit) out ∙ append_assoc f.out p.out_emit later.out_emit),
        more_err
            ∙ (ap (λ x. x ++ later.err_emit) err ∙ append_assoc f.err p.err_emit later.err_emit),
      )

  -- a finished frame stays as it is
  feed_all-done :
      (chunks : List (List ℕ)) (f : Frame)
      → IsValid f
      → f.state ≡ done
      → view (feed_all token chunks f).frame ≡ view f
  unfolding feed_all
  feed_all-done [] f h e = refl
  feed_all-done (chunk ∷ chunks) f h e =
      let (same, valid) = feed-advance token f chunk h in
      let still : view (feed token chunk f).frame ≡ view f =
        same
        ∙ unfold advance on in
          (subst (λ st. on token st (view f) ((view f).pending ++ chunk) ≡ view f) (sym e) refl) in
      feed_all-done chunks (feed token chunk f).frame valid (ap (λ v. v.state) still ∙ e) ∙ still

  -- The loop ends with the frame that all the chunks give, if they finish it.
  pub collect-feed_all :
      (chunks : List (List ℕ)) (f : Frame)
      → IsValid f
      → (feed_all token chunks f).frame.state ≡ done
      → (g : Frame) × (collect chunks f ≡ some g) × (view g ≡ view (feed_all token chunks f).frame)
  unfolding collect feed_all
  collect-feed_all [] f h e = (f, rw e refl, refl)
  collect-feed_all (chunk ∷ chunks) f h e = elim (Bool-cases (is_done f.state)) [
    | inl d ↦ (f, rw d refl, sym (feed_all-done (chunk ∷ chunks) f h (is_done_lem f.state d)))
    | inr d ↦
        let (same, valid) = feed-advance token f chunk h in
        let (g, found, seen) = collect-feed_all chunks (feed token chunk f).frame valid e in
        (g, rw d found, seen)
  ]
