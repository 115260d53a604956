-- ===== src/Console/Stream/Delivery.antt =====
-- The stream delivers the bytes of the process in order, and its end only after all of them.
use hostctl.Prelude.{
  ℕ, zero, suc, true, false, ◌≡◌, refl, ap, ◌∙◌, sym, inl, inr, ◌⊎◌, Option, none, some, List, [],
  ◌∷◌, ◌++◌, arith, append_assoc, append-nil, null, length, take, drop, take-drop, ◌<◌, Bool-cases,
}
use hostctl.Console.Stream.{
  Failure, wrong_type, other_failure, Stream, Size, invalid_size, everything, at_most, Wait,
  unbounded, negative, bounded, ReadResult, delivered, value_error, type_error, connection_error,
  is_ready, take_count, end_error, read_ready, read,
}
use hostctl.Console.Stream.Steps.{
  wait_over, Reach, ready_ended, ready_idle, ready_filled, Reach-kept,
}

-- What the result of a read says of the bytes pumped and those taken before it.
abbrev pub Says : List ℕ → List ℕ → Size → Wait → Stream → ReadResult → Type 0
Says p t size wait s (delivered []) =
    (size ≡ at_most 0) ⊎ ((wait ≡ bounded) × (p ≡ t) × (s.ended ≡ false))
Says p t size wait s (delivered (b ∷ d)) = (rest : List ℕ) × (p ≡ t ++ (b ∷ d) ++ rest)
Says p t size wait s value_error = (size ≡ invalid_size) ⊎ (wait ≡ negative)
Says p t size wait s type_error = (p ≡ t) × (s.ended ≡ true) × (s.error ≡ some wrong_type)
Says p t size wait s connection_error = (p ≡ t) × (s.ended ≡ true)

nothing_kept : (p t b : List ℕ) → p ≡ t ++ b → null b ≡ true → p ≡ t
nothing_kept p t [] h k = h ∙ append-nil t
nothing_kept p t (x ∷ b) h k = cc

end-Says :
    (p t : List ℕ) (size : Size) (wait : Wait) (s : Stream)
    → p ≡ t
    → s.ended ≡ true
    → (e : Option Failure) → s.error ≡ e
    → Says p t size wait s (end_error e)
end-Says p t size wait s h k none e = (h, k)
end-Says p t size wait s h k (some wrong_type) e = (h, k, e)
end-Says p t size wait s h k (some other_failure) e = (h, k)

idle-Says :
    (p t : List ℕ) (size : Size) (wait : Wait) (s : Stream)
    → p ≡ t
    → null s.buffer ≡ true
    → s.ended ≡ false
    → (is_ready s ≡ true) ⊎ (wait ≡ bounded)
    → Says p t size wait s (delivered [])
idle-Says p t size wait s h e k (inr w) = inr (w, h, k)
idle-Says p t size wait s h e k (inl ready) = ground arith

filled-Says :
    (p t : List ℕ) (size : Size) (wait : Wait) (s : Stream) (n : ℕ) (b : List ℕ)
    → p ≡ t ++ b
    → null b ≡ false
    → 0 < n
    → Says p t size wait s (delivered (take n b))
filled-Says p t size wait s n [] h k j = cc
filled-Says p t size wait s zero (x ∷ b) h k j = ground arith
filled-Says p t size wait s (suc n) (x ∷ b) h k j = (
  drop n b,
  h ∙ ap (λ r. t ++ x ∷ r) (sym (take-drop n b)) ∙ sym (append_assoc t (x ∷ take n b) (drop n b)),
)

null-positive : (b : List ℕ) → null b ≡ false → 0 < length b
null-positive [] h = cc
null-positive (x ∷ b) h = omega arith

ready-Says :
    (p t : List ℕ) (size : Size) (wait : Wait) (s : Stream)
    → p ≡ t ++ s.buffer
    → (null s.buffer ≡ false → 0 < take_count size s)
    → (is_ready s ≡ true) ⊎ (wait ≡ bounded)
    → Says p t size wait s (read_ready size s).0
ready-Says p t size wait s h some_count over = elim (Bool-cases (null s.buffer)) [
  | inr e ↦
      rw (ready_filled size s e)
        (filled-Says p t size wait s (take_count size s) s.buffer h e (some_count e))
  | inl e ↦
      let taken = nothing_kept p t s.buffer h e in
      elim (Bool-cases s.ended) [
        | inl k ↦ rw (ready_ended size s e k) (end-Says p t size wait s taken k s.error refl)
        | inr k ↦ rw (ready_idle size s e k) (idle-Says p t size wait s taken e k over)
      ]
]

read-Says :
    (p t : List ℕ) (size : Size) (wait : Wait) (s : Stream)
    → p ≡ t ++ s.buffer
    → wait_over size wait s ≡ true
    → Says p t size wait s (read size wait s).0
unfolding read
read-Says p t invalid_size wait s h over = inl refl
read-Says p t everything negative s h over = inr refl
read-Says p t everything unbounded s h over =
    ready-Says p t everything unbounded s h (null-positive s.buffer) (inl over)
read-Says p t everything bounded s h over =
    ready-Says p t everything bounded s h (null-positive s.buffer) (inr refl)
read-Says p t (at_most n) negative s h over = inr refl
read-Says p t (at_most zero) unbounded s h over = inl refl
read-Says p t (at_most zero) bounded s h over = inl refl
read-Says p t (at_most (suc n)) unbounded s h over =
    ready-Says p t (at_most (suc n)) unbounded s h (λ k. omega arith) (inl over)
read-Says p t (at_most (suc n)) bounded s h over =
    ready-Says p t (at_most (suc n)) bounded s h (λ k. omega arith) (inr refl)

-- In every state that the pump, reads and resets lead to, the bytes taken and those in the buffer are
-- the bytes pumped, in order, and a read whose wait is over says no more than that: bytes are the
-- next ones, none at all means a read of size zero or a limited wait on an empty buffer before the
-- end, and the end is reported, as an error, only after every byte has been taken.
pub read_lem :
    (p t : List ℕ) (s : Stream) (size : Size) (wait : Wait)
    → Reach p t s
    → wait_over size wait s ≡ true
    → (p ≡ t ++ s.buffer) × Says p t size wait s (read size wait s).0
read_lem p t s size wait path over =
    let kept = Reach-kept path in (kept, read-Says p t size wait s kept over)
