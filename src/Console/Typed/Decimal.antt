-- ===== src/Console/Typed/Decimal.antt =====
-- How many digits a number has.
use native.Mathlib.Nat.{pow-suc}
use hostctl.Prelude.{
  ℕ, zero, suc, ◌+◌, ◌/◌, ◌%◌, ◌^◌, ◌≤◌, ◌<◌, true, ◌≡◌, [], ◌∷◌, length, length-append, ltb, arith,
  Bool-cases, inl, inr,
}
use hostctl.Console.Typed.{decimal_from, decimal}

decimal_from_le : (k fuel n : ℕ) → n < 10 ^ suc k → length (decimal_from fuel n) ≤ suc k
unfolding decimal_from
decimal_from_le k zero n h = omega arith
decimal_from_le zero (suc fuel) n h =
    let few : ltb n 10 ≡ true = ground arith in rw few (omega arith)
decimal_from_le (suc k) (suc fuel) n h = elim (Bool-cases (ltb n 10)) [
  | inl e ↦ rw e (omega arith)
  | inr e ↦
      let power = pow-suc 10 (suc k) in
      let rest = decimal_from_le k fuel (n / 10) (omega arith) in
      let both = length-append (decimal_from fuel (n / 10)) ((b'0' + n % 10) ∷ []) in
      rw e (omega arith)
]

pub decimal_le : (k n : ℕ) → n < 10 ^ suc k → length (decimal n) ≤ suc k
unfolding decimal
decimal_le k n h = decimal_from_le k n n h
