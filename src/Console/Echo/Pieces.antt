-- ===== src/Console/Echo/Pieces.antt =====
-- What the lines that console/_posix.py types are made of: base64, numbers and quoted words.
use hostctl.Prelude.{
  ℕ, zero, suc, ◌+◌, ◌*◌, ◌%◌, ◌/◌, true, false, ◌≡◌, refl, ap, sym, subst, List, [], ◌∷◌, ◌++◌,
  take, drop, null, ltb, ◌==◌, All, All-append, codes, arith, Bool-cases, inl, inr, append_assoc,
}
use hostctl.Prelude.Search.{begins_with}
use hostctl.Console.Typed.{sextet, b64encode, quoted, decimal_from, decimal, slices}
use hostctl.Console.Echo.Marks.{
  is_hex, IsPlain, opens, opens_by, clean, Sealed, make_Sealed, append-Sealed, plain-Sealed,
}

sextet-plain : (n : ℕ) → (sextet n == b'_') ≡ false
unfolding sextet
sextet-plain n = ground arith

pub b64encode-IsPlain : (bytes : List ℕ) → IsPlain (b64encode bytes)
unfolding b64encode
b64encode-IsPlain [] = tt
b64encode-IsPlain (a ∷ []) = (sextet-plain (a / 4), (sextet-plain (a % 4 * 16), (refl, (refl, tt))))
b64encode-IsPlain (a ∷ b ∷ []) = (
  sextet-plain (a / 4),
  (sextet-plain (a % 4 * 16 + b / 16), (sextet-plain (b % 16 * 4), (refl, tt))),
)
b64encode-IsPlain (a ∷ b ∷ c ∷ rest) = (
  sextet-plain (a / 4),
  (
    sextet-plain (a % 4 * 16 + b / 16),
    (sextet-plain (b % 16 * 4 + c / 64), (sextet-plain (c % 64), b64encode-IsPlain rest)),
  ),
)

take-IsPlain : (n : ℕ) (text : List ℕ) → IsPlain text → IsPlain (take n text)
take-IsPlain zero text h = tt
take-IsPlain (suc n) [] h = tt
take-IsPlain (suc n) (c ∷ cs) (plain, h) = (plain, take-IsPlain n cs h)

drop-IsPlain : (n : ℕ) (text : List ℕ) → IsPlain text → IsPlain (drop n text)
drop-IsPlain zero text h = h
drop-IsPlain (suc n) [] h = tt
drop-IsPlain (suc n) (c ∷ cs) (plain, h) = drop-IsPlain n cs h

pub slices-IsPlain : (fuel : ℕ) (text : List ℕ) → IsPlain text → All IsPlain (slices fuel text)
unfolding slices
slices-IsPlain zero text h = tt
slices-IsPlain (suc fuel) [] h = tt
slices-IsPlain (suc fuel) (c ∷ cs) h = (
  take-IsPlain 768 (c ∷ cs) h,
  slices-IsPlain fuel (drop 768 (c ∷ cs)) (drop-IsPlain 768 (c ∷ cs) h),
)

null-append : (xs : List ℕ) (c : ℕ) → null (xs ++ c ∷ []) ≡ false
null-append [] c = refl
null-append (x ∷ xs) c = refl

-- A number is digits, one at least.
decimal_from-IsPlain :
    (fuel n : ℕ) → IsPlain (decimal_from fuel n) × (null (decimal_from fuel n) ≡ false)
unfolding decimal_from
decimal_from-IsPlain zero n = ((ground arith, tt), refl)
decimal_from-IsPlain (suc fuel) n = elim (Bool-cases (ltb n 10)) [
  | inl e ↦ rw e ((ground arith, tt), refl)
  | inr e ↦
      let (plain, some_digit) = decimal_from-IsPlain fuel (n / 10) in
      rw e (
        All-append (λ c. (c == b'_') ≡ false) (decimal_from fuel (n / 10)) ((b'0' + n % 10) ∷ [])
            plain (ground arith, tt),
        null-append (decimal_from fuel (n / 10)) (b'0' + n % 10),
      )
]

underscore-Sealed : (text : List ℕ) → IsPlain text → null text ≡ false → Sealed (codes "_" ++ text)
unfolding clean opens opens_by begins_with
underscore-Sealed [] h k = cc
underscore-Sealed (c ∷ cs) (plain, h) k =
    make_Sealed (codes "_" ++ c ∷ cs)
      (λ rest. ground (arith, (plain-Sealed (c ∷ cs) (plain, h)).before rest))

pub closing-Sealed :
    (number : ℕ) → Sealed ((codes "_" ++ (decimal number ++ codes "__")) ++ codes "\"")
unfolding clean opens opens_by begins_with is_hex decimal
closing-Sealed number =
    let (plain, some_digit) = decimal_from-IsPlain number number in
    subst Sealed
      (ap (λ r. codes "_" ++ r) (sym (append_assoc (decimal number) (codes "__") (codes "\""))))
      (append-Sealed (underscore-Sealed (decimal number) plain some_digit)
        (make_Sealed (codes "__\"") (λ rest. refl)))

pub hex-IsPlain : (text : List ℕ) → All (λ c. is_hex c ≡ true) text → IsPlain text
unfolding is_hex
hex-IsPlain [] h = tt
hex-IsPlain (c ∷ cs) (hex, h) = (ground arith, hex-IsPlain cs h)

pub quoted-Sealed : {part : List ℕ} → Sealed part → Sealed (quoted part)
unfolding clean opens opens_by begins_with
quoted-Sealed h =
    append-Sealed (make_Sealed (codes "\"") (λ rest. refl))
      (append-Sealed h (make_Sealed (codes "\"") (λ rest. refl)))

-- The underscores that end a part are sealed by the quote after them.
pub before_quote-Sealed :
    {part : List ℕ} (tail : List ℕ)
    → Sealed part
    → Sealed (tail ++ codes "\"")
    → Sealed (quoted (part ++ tail))
unfolding clean opens opens_by begins_with
before_quote-Sealed {part} tail h k =
    append-Sealed (make_Sealed (codes "\"") (λ rest. refl))
      (subst Sealed (sym (append_assoc part tail (codes "\""))) (append-Sealed h k))
