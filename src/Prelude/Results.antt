-- ===== src/Prelude/Results.antt =====
-- Results of code that raises: a value, or the class of the exception.
use mathlib.Core.Path.{◌≡◌, refl, subst}
use native.Mathlib.Omega.{arith}
use mathlib.Core.Logic.{◌⊎◌, inl, inr}
use mathlib.Core.Bool.{Bool, true, false}
use mathlib.Core.Option.{Option, none, some}
use hostctl.Prelude.Tests.{if◌then◌else◌}

pub data Error : Type 0 where
  type_error value_error not_implemented unsupported : Error

pub data Result {ℓ} (A : Type ℓ) : Type ℓ where
  ok : A → Result A
  err : Error → Result A

infixl 5 ◌>>=◌
abbrev pub ◌>>=◌ {ℓ κ} : {A : Type ℓ} {B : Type κ} → Result A → (A → Result B) → Result B
ok a >>= f = f a
err e >>= f = err e

abbrev pub or_value_error {ℓ} : {A : Type ℓ} → Option A → Result A
or_value_error none = err value_error
or_value_error (some a) = ok a

abbrev pub is_ok {ℓ} : {A : Type ℓ} → Result A → Bool
is_ok (ok a) = true
is_ok (err e) = false

module _ {ℓ κ μ} {A : Type ℓ} {B : Type κ} {C : Type μ} where
  pub bind-bind :
      (r : Result A) (k : A → Result B) (m : B → Result C)
      → (r >>= k >>= m) ≡ (r >>= λ a. k a >>= m)
  bind-bind (ok a) k m = refl
  bind-bind (err e) k m = refl

pub Result-cases {ℓ} :
    {A : Type ℓ} (r : Result A) → ((a : A) × (r ≡ ok a)) ⊎ ((e : Error) × (r ≡ err e))
Result-cases (ok a) = inl (a, refl)
Result-cases (err e) = inr (e, refl)

module _ {ℓ κ} {A : Type ℓ} (P : A → Type κ) where
  -- What is said of the value, if there is one.
  abbrev pub WhenOk : Result A → Type κ
  WhenOk (ok a) = P a
  WhenOk (err e) = Unit

  pub WhenOk-bind {μ} :
      {B : Type μ} (k : B → Result A) → ((b : B) → WhenOk (k b)) → (r : Result B) → WhenOk (r >>= k)
  WhenOk-bind k h (ok b) = h b
  WhenOk-bind k h (err e) = tt

  pub WhenOk-of : (r : Result A) (a : A) → WhenOk r → r ≡ ok a → P a
  WhenOk-of (ok b) a h e = subst P (ground arith) h
  WhenOk-of (err x) a h e = cc

module _ {ℓ κ μ ν} {A : Type ℓ} {B : Type κ} (Q : A → Type μ) (P : B → Type ν) where
  pub WhenOk-then :
      (k : A → Result B)
      → ((a : A) → Q a → WhenOk P (k a))
      → (r : Result A) → WhenOk Q r
      → WhenOk P (r >>= k)
  WhenOk-then k h (ok a) q = h a q
  WhenOk-then k h (err e) q = tt

pub WhenOk-if {ℓ κ} :
    {A : Type ℓ} (P : A → Type κ) (b : Bool) (x y : Result A)
    → WhenOk P x
    → WhenOk P y
    → WhenOk P (if b then x else y)
WhenOk-if P true x y hx hy = hx
WhenOk-if P false x y hx hy = hy

pub WhenOk-with {ℓ κ μ} :
    {A : Type ℓ} {B : Type κ} (P : B → Type μ) (k : A → Result B) (r : Result A)
    → ((a : A) → r ≡ ok a → WhenOk P (k a))
    → WhenOk P (r >>= k)
WhenOk-with P k (ok a) h = h a refl
WhenOk-with P k (err e) h = tt

pub WhenOk-split {ℓ κ} :
    {A : Type ℓ} (P : A → Type κ) (b : Bool) (x y : Result A)
    → (b ≡ true → WhenOk P x)
    → (b ≡ false → WhenOk P y)
    → WhenOk P (if b then x else y)
WhenOk-split P true x y hx hy = hx refl
WhenOk-split P false x y hx hy = hy refl
