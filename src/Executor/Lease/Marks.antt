-- ===== src/Executor/Lease/Marks.antt =====
-- The tokens that have ended, as a list of marks.
use hostctl.Prelude.{
  ℕ, zero, suc, ◌+◌, ◌<◌, Bool, true, false, ◌≡◌, refl, ap, ◌∙◌, sym, List, [], ◌∷◌, ◌++◌, arith,
  ◌==◌, length, if◌then◌else◌,
}
use hostctl.Executor.Lease.{set_ended, has_ended}

-- How many of the tokens have ended.
abbrev pub count : List Bool → ℕ
count [] = 0
count (e ∷ es) = (if e then 1 else 0) + count es

pub length-set_ended : (t : ℕ) (es : List Bool) → length (set_ended t es) ≡ length es
length-set_ended t [] = refl
length-set_ended zero (e ∷ es) = refl
length-set_ended (suc t) (e ∷ es) = ap suc (length-set_ended t es)

pub set_ended-again : (t : ℕ) (es : List Bool) → has_ended t es ≡ true → set_ended t es ≡ es
set_ended-again t [] h = refl
set_ended-again zero (e ∷ es) h = ap (λ x. x ∷ es) (sym h)
set_ended-again (suc t) (e ∷ es) h = ap (λ r. e ∷ r) (set_ended-again t es h)

==_suc : (t u : ℕ) → (t == u) ≡ (suc t == suc u)
==_suc t u = ground arith

pub has_ended-set_ended :
    (u t : ℕ) (es : List Bool)
    → t < length es
    → has_ended u (set_ended t es) ≡ (if t == u then true else has_ended u es)
has_ended-set_ended u t [] h = ground arith
has_ended-set_ended zero zero (e ∷ es) h = refl
has_ended-set_ended (suc u) zero (e ∷ es) h = ground arith
has_ended-set_ended zero (suc t) (e ∷ es) h = ground arith
has_ended-set_ended (suc u) (suc t) (e ∷ es) h =
    has_ended-set_ended u t es (omega arith)
    ∙ ap (λ b. if b then true else has_ended u es) (==_suc t u)

pub count-set_ended :
    (t : ℕ) (es : List Bool)
    → t < length es
    → has_ended t es ≡ false
    → count (set_ended t es) ≡ count es + 1
count-set_ended t [] h k = ground arith
count-set_ended zero (e ∷ es) h k = ground arith
count-set_ended (suc t) (e ∷ es) h k = omega (arith, count-set_ended t es (omega arith) k)

pub has_ended-append :
    (t : ℕ) (es : List Bool) → t < length es → has_ended t (es ++ false ∷ []) ≡ has_ended t es
has_ended-append t [] h = ground arith
has_ended-append zero (e ∷ es) h = refl
has_ended-append (suc t) (e ∷ es) h = has_ended-append t es (omega arith)

pub has_ended-fresh : (es : List Bool) → has_ended (length es) (es ++ false ∷ []) ≡ false
has_ended-fresh [] = refl
has_ended-fresh (e ∷ es) = has_ended-fresh es

pub count-append : (es : List Bool) → count (es ++ false ∷ []) ≡ count es
count-append [] = refl
count-append (e ∷ es) = ap (λ n. (if e then 1 else 0) + n) (count-append es)
