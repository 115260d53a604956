-- ===== src/Console/Stream/Steps.antt =====
-- The steps of a stream and what they do with the bytes.
use hostctl.Prelude.{
  ℕ, zero, suc, Bool, true, false, ◌≡◌, refl, ap, ◌∙◌, sym, inl, inr, Option, none, some, List, [],
  ◌∷◌, ◌++◌, append_assoc, append-nil, null, take, take-drop, Bool-cases,
}
use hostctl.Console.Stream.{
  Failure, wrong_type, other_failure, Stream, start, Pumped, bytes, text, raised, pump, Size,
  invalid_size, everything, at_most, Wait, unbounded, negative, bounded, ReadResult, delivered,
  value_error, type_error, connection_error, is_ready, take_count, end_error, read_ready, read,
  reset_input_buffer,
}

abbrev pub bytes_of : Pumped → List ℕ
bytes_of (bytes data_read) = data_read
bytes_of text = []
bytes_of (raised e) = []

abbrev pub bytes_in : ReadResult → List ℕ
bytes_in (delivered data_read) = data_read
bytes_in value_error = []
bytes_in type_error = []
bytes_in connection_error = []

-- Whether a read's wait can end in this state: one without a limit ends only when there is something
-- to report, unless the read takes nothing.
abbrev pub wait_over : Size → Wait → Stream → Bool
wait_over size negative s = true
wait_over size bounded s = true
wait_over invalid_size unbounded s = true
wait_over everything unbounded s = is_ready s
wait_over (at_most zero) unbounded s = true
wait_over (at_most (suc n)) unbounded s = is_ready s

-- What the pump has read, what reads and resets have taken, and the state, step by step. The pump
-- stops at the end.
pub data Reach : List ℕ → List ℕ → Stream → Type 0 where
  started : Reach [] [] start
  pumps :
      {p t : List ℕ} {s : Stream}
      → Reach p t s
      → s.ended ≡ false
      → (given : Pumped) → Reach (p ++ bytes_of given) t (pump given s)
  reads :
      {p t : List ℕ} {s : Stream}
      → Reach p t s
      → (size : Size) (wait : Wait) → wait_over size wait s ≡ true
      → Reach p (t ++ bytes_in (read size wait s).0) (read size wait s).1
  resets :
      {p t : List ℕ} {s : Stream} → Reach p t s → Reach p (t ++ s.buffer) (reset_input_buffer s)

pump_bytes : (given : Pumped) (s : Stream) → (pump given s).buffer ≡ s.buffer ++ bytes_of given
unfolding pump
pump_bytes (bytes []) s = sym (append-nil s.buffer)
pump_bytes (bytes (b ∷ d)) s = refl
pump_bytes text s = sym (append-nil s.buffer)
pump_bytes (raised e) s = sym (append-nil s.buffer)

pub ready_ended :
    (size : Size) (s : Stream)
    → null s.buffer ≡ true
    → s.ended ≡ true
    → read_ready size s ≡ (end_error s.error, s)
unfolding read_ready
ready_ended size s h k = rw (h, k) refl

pub ready_idle :
    (size : Size) (s : Stream)
    → null s.buffer ≡ true
    → s.ended ≡ false
    → read_ready size s ≡ (delivered [], s)
unfolding read_ready
ready_idle size s h k = rw (h, k) refl

pub ready_filled :
    (size : Size) (s : Stream)
    → null s.buffer ≡ false
    → (read_ready size s).0 ≡ delivered (take (take_count size s) s.buffer)
unfolding read_ready
ready_filled size s h = rw h refl

bytes_in-end_error : (e : Option Failure) → bytes_in (end_error e) ≡ []
bytes_in-end_error none = refl
bytes_in-end_error (some wrong_type) = refl
bytes_in-end_error (some other_failure) = refl

read_ready_bytes :
    (size : Size) (s : Stream)
    → bytes_in (read_ready size s).0 ++ (read_ready size s).1.buffer ≡ s.buffer
unfolding read_ready
read_ready_bytes size s = elim (Bool-cases (null s.buffer)) [
  | inr e ↦ rw e (take-drop (take_count size s) s.buffer)
  | inl e ↦ elim (Bool-cases s.ended) [
    | inl k ↦ rw (ready_ended size s e k, bytes_in-end_error s.error) refl
    | inr k ↦ rw (ready_idle size s e k) refl
  ]
]

read_bytes :
    (size : Size) (wait : Wait) (s : Stream)
    → bytes_in (read size wait s).0 ++ (read size wait s).1.buffer ≡ s.buffer
unfolding read
read_bytes invalid_size wait s = refl
read_bytes everything negative s = refl
read_bytes everything unbounded s = read_ready_bytes everything s
read_bytes everything bounded s = read_ready_bytes everything s
read_bytes (at_most n) negative s = refl
read_bytes (at_most zero) unbounded s = refl
read_bytes (at_most zero) bounded s = refl
read_bytes (at_most (suc n)) unbounded s = read_ready_bytes (at_most (suc n)) s
read_bytes (at_most (suc n)) bounded s = read_ready_bytes (at_most (suc n)) s

-- Bytes are taken in the order in which they were pumped, and none is lost or repeated.
pub Reach-kept : {p t : List ℕ} {s : Stream} → Reach p t s → p ≡ t ++ s.buffer
unfolding reset_input_buffer
Reach-kept started = refl
Reach-kept (pumps {p} {t} {s} path open_end given) =
    ap (λ x. x ++ bytes_of given) (Reach-kept path)
    ∙ append_assoc t s.buffer (bytes_of given)
    ∙ ap (λ x. t ++ x) (sym (pump_bytes given s))
Reach-kept (reads {p} {t} {s} path size wait over) =
    Reach-kept path
    ∙ ap (λ x. t ++ x) (sym (read_bytes size wait s))
    ∙ sym (append_assoc t (bytes_in (read size wait s).0) (read size wait s).1.buffer)
Reach-kept (resets {p} {t} {s} path) = Reach-kept path ∙ sym (append-nil (t ++ s.buffer))
