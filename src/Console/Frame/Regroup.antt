-- ===== src/Console/Frame/Regroup.antt =====
-- `feed` of console/_posix.py on two chunks, and on one that is both.
use hostctl.Prelude.{
  ℕ, ◌+◌, ◌-◌, ◌≤◌, true, ◌≡◌, refl, ap, sym, subst, ◌∙◌, none, some, List, ◌++◌, length,
  length-append, take, drop, arith, Option-cases, inl, inr, append_assoc,
}
use hostctl.Prelude.Search.{
  find, shift_by, held_at, take-append, drop-append, take-further, drop-further, length-drop,
}
use hostctl.Prelude.Search.Resume.{
  find-le, find-append, find-held, find-last, held_at-append, held_at_le,
}
use hostctl.Console.Frame.{
  start_marker, mid_marker, end_prefix, search_end, State, waiting, in_out, in_err, done,
}
use hostctl.Console.Frame.Ending.{plain}
use hostctl.Console.Frame.Ending.Resume.{err_at, err_at_le, err_at-append}
use hostctl.Console.Frame.Ending.Find.{shifted, search_end-append, search_end-held, search_end-le}
use hostctl.Console.Frame.Advance.{
  View, on_err, on_out, on_wait, on, advance, on_err-none, on_err-some, on_out-none, on_out-some,
  on_wait-none, on_wait-some,
}

module _ (token : List ℕ) (t : plain token ≡ true) where
  abbrev ends : List ℕ
  ends = end_prefix token

  -- what was emitted before the bytes that are held, and what comes of them
  err-held :
      (v : View) (p b : List ℕ)
      → search_end token p ≡ none
      → on_err token
          (record v { err = v.err ++ take (err_at ends p) p })
          (drop (err_at ends p) p ++ b)
        ≡ on_err token v (p ++ b)
  err-held v p b h =
      let n = err_at ends p in
      let rest = drop n p ++ b in
      let before = record v { err = v.err ++ take n p } in
      let short : n ≤ length p = err_at_le ends p in
      elim (Option-cases (search_end token rest)) [
        | inl e ↦
            let whole : search_end token (p ++ b) ≡ none =
              search_end-held token t p b h ∙ ap (shifted n) e in
            rw
              (
                on_err-none token before rest e,
                on_err-none token v (p ++ b) whole,
                err_at-append ends p b,
                take-further n (err_at ends rest) p b short,
                drop-further n (err_at ends rest) p b short,
                append_assoc v.err (take n p) (take (err_at ends rest) rest),
              )
              refl
        | inr ((i, status), e) ↦
            let whole : search_end token (p ++ b) ≡ some (n + i, status) =
              search_end-held token t p b h ∙ ap (shifted n) e in
            rw
              (
                on_err-some token before rest i status e,
                on_err-some token v (p ++ b) (n + i) status whole,
                take-further n i p b short,
                append_assoc v.err (take n p) (take i rest),
              )
              refl
      ]

  on_err-append :
      (v : View) (p b : List ℕ) → advance token (on_err token v p) b ≡ on_err token v (p ++ b)
  unfolding advance on
  on_err-append v p b = elim (Option-cases (search_end token p)) [
    | inl e ↦ rw (on_err-none token v p e) (err-held v p b e)
    | inr ((i, status), e) ↦
        let still = search_end-append token t p b (i, status) e in
        let short = search_end-le token p i status e in
        rw
          (
            on_err-some token v p i status e,
            on_err-some token v (p ++ b) i status still,
            take-append i p b short,
          )
          refl
  ]

  abbrev mid : List ℕ
  mid = mid_marker token

  out-held :
      (v : View) (p b : List ℕ)
      → find mid p ≡ none
      → on_out token
          (record v { out = v.out ++ take (held_at mid p) p })
          (drop (held_at mid p) p ++ b)
        ≡ on_out token v (p ++ b)
  out-held v p b h =
      let n = held_at mid p in
      let rest = drop n p ++ b in
      let before = record v { out = v.out ++ take n p } in
      let short : n ≤ length p = held_at_le mid p in
      elim (Option-cases (find mid rest)) [
        | inl e ↦
            let whole : find mid (p ++ b) ≡ none = find-held mid p b h ∙ ap (shift_by n) e in
            rw
              (
                on_out-none token before rest e,
                on_out-none token v (p ++ b) whole,
                held_at-append mid p b,
                take-further n (held_at mid rest) p b short,
                drop-further n (held_at mid rest) p b short,
                append_assoc v.out (take n p) (take (held_at mid rest) rest),
              )
              refl
        | inr (i, e) ↦
            let whole : find mid (p ++ b) ≡ some (n + i) =
              find-held mid p b h ∙ ap (shift_by n) e in
            let further : n + i + length mid ≡ n + (i + length mid) = omega arith in
            rw
              (
                on_out-some token before rest i e,
                on_out-some token v (p ++ b) (n + i) whole,
                take-further n i p b short,
                further,
                drop-further n (i + length mid) p b short,
                append_assoc v.out (take n p) (take i rest),
              )
              refl
      ]

  on_out-append :
      (v : View) (p b : List ℕ) → advance token (on_out token v p) b ≡ on_out token v (p ++ b)
  unfolding advance on
  on_out-append v p b = elim (Option-cases (find mid p)) [
    | inl e ↦ rw (on_out-none token v p e) (out-held v p b e)
    | inr (i, e) ↦
        let fits = find-le mid p i e in
        let short : i ≤ length p = omega arith in
        rw
          (
            on_out-some token v p i e,
            on_out-some token v (p ++ b) i (find-append mid p b i e),
            take-append i p b short,
            drop-append (i + length mid) p b fits,
          )
          (on_err-append (record v { out = v.out ++ take i p }) (drop (i + length mid) p) b)
  ]

  abbrev first : List ℕ
  first = start_marker token

  wait-held :
      (v : View) (p b : List ℕ)
      → find first p ≡ none
      → on_wait token v (drop (length p - (length first - 1)) p ++ b) ≡ on_wait token v (p ++ b)
  wait-held v p b h =
      let k = length first - 1 in
      let n = length p - k in
      let rest = drop n p ++ b in
      let short : n ≤ length p = omega arith in
      let found = find-last first p b k (omega arith) h in
      elim (Option-cases (find first rest)) [
        | inl e ↦
            let whole : find first (p ++ b) ≡ none = found ∙ ap (shift_by n) e in
            let both = length-append p b in
            let less = length-append (drop n p) b in
            let left = length-drop n p in
            let same : length (p ++ b) - k ≡ n + (length rest - k) = omega arith in
            rw
              (
                on_wait-none token v rest e,
                on_wait-none token v (p ++ b) whole,
                same,
                drop-further n (length rest - k) p b short,
              )
              refl
        | inr (i, e) ↦
            let whole : find first (p ++ b) ≡ some (n + i) = found ∙ ap (shift_by n) e in
            let further : n + i + length first ≡ n + (i + length first) = omega arith in
            rw
              (
                on_wait-some token v rest i e,
                on_wait-some token v (p ++ b) (n + i) whole,
                further,
                drop-further n (i + length first) p b short,
              )
              refl
      ]

  on_wait-append :
      (v : View) (p b : List ℕ) → advance token (on_wait token v p) b ≡ on_wait token v (p ++ b)
  unfolding advance on
  on_wait-append v p b = elim (Option-cases (find first p)) [
    | inl e ↦ rw (on_wait-none token v p e) (wait-held v p b e)
    | inr (i, e) ↦
        rw
          (
            on_wait-some token v p i e,
            on_wait-some token v (p ++ b) i (find-append first p b i e),
            drop-append (i + length first) p b (find-le first p i e),
          )
          (on_out-append v (drop (i + length first) p) b)
  ]

  on-append :
      (st : State) (v : View) (a b : List ℕ)
      → v.state ≡ st
      → advance token (on token st v (v.pending ++ a)) b ≡ on token st v (v.pending ++ (a ++ b))
  unfolding advance on
  on-append waiting v a b h =
      on_wait-append v (v.pending ++ a) b ∙ ap (on_wait token v) (append_assoc v.pending a b)
  on-append in_out v a b h =
      on_out-append v (v.pending ++ a) b ∙ ap (on_out token v) (append_assoc v.pending a b)
  on-append in_err v a b h =
      on_err-append v (v.pending ++ a) b ∙ ap (on_err token v) (append_assoc v.pending a b)
  on-append done v a b h = subst (λ st. on token st v (v.pending ++ b) ≡ v) (sym h) refl

  pub advance-append :
      (v : View) (a b : List ℕ) → advance token (advance token v a) b ≡ advance token v (a ++ b)
  unfolding advance
  advance-append v a b = on-append v.state v a b refl
