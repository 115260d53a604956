-- ===== src/Console/Frame/Advance.antt =====
-- `feed` of console/_posix.py on the bytes that are still to be scanned: a list in place of the
-- buffer and its positions.
use hostctl.Prelude.{ℕ, ◌+◌, ◌-◌, ◌≡◌, refl, Option, none, some, List, [], ◌++◌, length, take, drop}
use hostctl.Prelude.Search.{find, held_at}
use hostctl.Console.Frame.{
  start_marker, mid_marker, end_prefix, search_end, State, waiting, in_out, in_err, done,
}
use hostctl.Console.Frame.Ending.Resume.{err_at}

-- What is seen of a frame: once it is done, what else comes is not.
pub record View : Type 0 where
  pub state : State
  pub pending : List ℕ
  pub out : List ℕ
  pub err : List ℕ
  pub returncode : Option ℕ

module _ (token : List ℕ) where
  unfoldable pub on_err : View → List ℕ → View
  on_err v p = elim (search_end token p) [
    | none ↦
        let n = err_at (end_prefix token) p in
        record v { state = in_err; pending = drop n p; err = v.err ++ take n p }
    | some (i, status) ↦ record v {
      state = done;
      pending = [];
      err = v.err ++ take i p;
      returncode = some status;
    }
  ]

  unfoldable pub on_out : View → List ℕ → View
  unfolding on_err
  on_out v p = elim (find (mid_marker token) p) [
    | none ↦
        let n = held_at (mid_marker token) p in
        record v { state = in_out; pending = drop n p; out = v.out ++ take n p }
    | some i ↦
        on_err (record v { out = v.out ++ take i p }) (drop (i + length (mid_marker token)) p)
  ]

  unfoldable pub on_wait : View → List ℕ → View
  unfolding on_out
  on_wait v p = elim (find (start_marker token) p) [
    | none ↦ record v {
      state = waiting;
      pending = drop (length p - (length (start_marker token) - 1)) p;
    }
    | some i ↦ on_out v (drop (i + length (start_marker token)) p)
  ]

  unfoldable pub on : State → View → List ℕ → View
  unfolding on_wait
  on waiting v p = on_wait v p
  on in_out v p = on_out v p
  on in_err v p = on_err v p
  on done v p = v

  unfoldable pub advance : View → List ℕ → View
  unfolding on
  advance v chunk = on v.state v (v.pending ++ chunk)

  -- the equations of the three stages
  pub on_err-none :
      (v : View) (p : List ℕ)
      → search_end token p ≡ none
      → on_err v p ≡ record v {
        state = in_err;
        pending = drop (err_at (end_prefix token) p) p;
        err = v.err ++ take (err_at (end_prefix token) p) p;
      }
  unfolding on_err
  on_err-none v p h = rw (h, on_err) refl

  pub on_err-some :
      (v : View) (p : List ℕ) (i status : ℕ)
      → search_end token p ≡ some (i, status)
      → on_err v p
        ≡ record v { state = done; pending = []; err = v.err ++ take i p; returncode = some status }
  unfolding on_err
  on_err-some v p i status h = rw (h, on_err) refl

  pub on_out-none :
      (v : View) (p : List ℕ)
      → find (mid_marker token) p ≡ none
      → on_out v p ≡ record v {
        state = in_out;
        pending = drop (held_at (mid_marker token) p) p;
        out = v.out ++ take (held_at (mid_marker token) p) p;
      }
  unfolding on_out
  on_out-none v p h = rw (h, on_out) refl

  pub on_out-some :
      (v : View) (p : List ℕ) (i : ℕ)
      → find (mid_marker token) p ≡ some i
      → on_out v p
        ≡ on_err (record v { out = v.out ++ take i p }) (drop (i + length (mid_marker token)) p)
  unfolding on_out
  on_out-some v p i h = rw (h, on_out) refl

  pub on_wait-none :
      (v : View) (p : List ℕ)
      → find (start_marker token) p ≡ none
      → on_wait v p ≡ record v {
        state = waiting;
        pending = drop (length p - (length (start_marker token) - 1)) p;
      }
  unfolding on_wait
  on_wait-none v p h = rw (h, on_wait) refl

  pub on_wait-some :
      (v : View) (p : List ℕ) (i : ℕ)
      → find (start_marker token) p ≡ some i
      → on_wait v p ≡ on_out v (drop (i + length (start_marker token)) p)
  unfolding on_wait
  on_wait-some v p i h = rw (h, on_wait) refl
