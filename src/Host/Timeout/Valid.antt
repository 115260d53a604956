-- ===== src/Host/Timeout/Valid.antt =====
-- Which timeouts can be built, and that building one again changes nothing.
use hostctl.Prelude.{zero, suc, Bool, true, false, ◌≡◌, refl, ap, ◌∙◌, arith, ◌&&◌, not}
use hostctl.Host.Timeout.{
  nan, infinity, finite, allows_zero, Value, default_value, none_value, number, other_value,
  Seconds, default, no_limit, after, Checked, ok, type_error, value_error, then_check, Field, total,
  connect, read, write, seconds, Timeout, field, make,
}
use hostctl.Host.Timeout.Config.{as_value}

-- A positive finite number of seconds, or, for reading and writing, plain zero.
abbrev pub is_valid : Field → Seconds → Bool
is_valid name default = true
is_valid name no_limit = true
is_valid name (after nan) = false
is_valid name (after (infinity negative)) = false
is_valid name (after (finite negative zero)) = not negative && allows_zero name
is_valid name (after (finite negative (suc n))) = not negative

abbrev pub IsValid : Timeout → Type 0
IsValid t = (name : Field) → is_valid name (field name t) ≡ true

seconds-valid :
    (name : Field) (v : Value) (s : Seconds) → seconds name v ≡ ok s → is_valid name s ≡ true
unfolding seconds
seconds-valid name default_value s h = ground arith
seconds-valid name none_value s h = ground arith
seconds-valid name other_value s h = ground arith
seconds-valid name (number nan) s h = ground arith
seconds-valid name (number (infinity negative)) s h = ground arith
seconds-valid name (number (finite negative zero)) s h = ground arith
seconds-valid name (number (finite negative (suc n))) s h = ground arith

seconds-same :
    (name : Field) (s : Seconds) → is_valid name s ≡ true → seconds name (as_value s) ≡ ok s
unfolding seconds
seconds-same name default h = refl
seconds-same name no_limit h = refl
seconds-same name (after nan) h = ground arith
seconds-same name (after (infinity negative)) h = ground arith
seconds-same name (after (finite true zero)) h = ground arith
seconds-same name (after (finite false zero)) h = ground arith
seconds-same name (after (finite negative (suc n))) h = ground arith

then_check-ok :
    {A B : Type 0}
    → (c : Checked A) (f : A → Checked B) (b : B) → then_check c f ≡ ok b
    → (a : A) × (c ≡ ok a) × (f a ≡ ok b)
then_check-ok (ok a) f b h = (a, refl, h)
then_check-ok type_error f b h = ground arith
then_check-ok value_error f b h = ground arith

ok_injective : {A : Type 0} {a b : A} → ok a ≡ ok b → a ≡ b
ok_injective h = cc

make-ok :
    (t c r w : Value) (made : Timeout)
    → make t c r w ≡ ok made
    → (seconds total t ≡ ok made.total)
      × (seconds connect c ≡ ok made.connect)
      × (seconds read r ≡ ok made.read)
      × (seconds write w ≡ ok made.write)
unfolding make
make-ok t c r w made h =
    let (ts, th, t_next) = then_check-ok (seconds total t) _ made h in
    let (cs, ch, c_next) = then_check-ok (seconds connect c) _ made t_next in
    let (rs, rh, r_next) = then_check-ok (seconds read r) _ made c_next in
    let (ws, wh, w_next) = then_check-ok (seconds write w) _ made r_next in
    let same = ok_injective w_next in
    (
      th ∙ ap (λ m. ok m.total) same,
      ch ∙ ap (λ m. ok m.connect) same,
      rh ∙ ap (λ m. ok m.read) same,
      wh ∙ ap (λ m. ok m.write) same,
    )

make-IsValid : (t c r w : Value) (made : Timeout) → make t c r w ≡ ok made → IsValid made
make-IsValid t c r w made h =
    let (ht, hc, hr, hw) = make-ok t c r w made h in
    λ name. elim name as (λ k. is_valid k (field k made) ≡ true) [
      | total ↦ seconds-valid total t made.total ht
      | connect ↦ seconds-valid connect c made.connect hc
      | read ↦ seconds-valid read r made.read hr
      | write ↦ seconds-valid write w made.write hw
    ]

pub make-same :
    (t : Timeout)
    → IsValid t
    → make (as_value t.total) (as_value t.connect) (as_value t.read) (as_value t.write) ≡ ok t
unfolding make
make-same t valid =
    rw
      (
        seconds-same total t.total (valid total),
        seconds-same connect t.connect (valid connect),
        seconds-same read t.read (valid read),
        seconds-same write t.write (valid write),
      )
      refl

-- Whatever is given for the four fields, `Timeout` raises or holds in each field `DEFAULT`, `None` or a
-- positive finite number of seconds, or zero for reading and writing; and from what it then holds it
-- builds the same timeout again.
pub make_lem :
    (t c r w : Value) (made : Timeout)
    → make t c r w ≡ ok made
    → IsValid made
      × (make
            (as_value made.total)
            (as_value made.connect)
            (as_value made.read)
            (as_value made.write)
          ≡ ok made)
make_lem t c r w made h = let valid = make-IsValid t c r w made h in (valid, make-same made valid)
