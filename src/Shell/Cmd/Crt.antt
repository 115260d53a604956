-- ===== src/Shell/Cmd/Crt.antt =====
-- How a C-runtime child reads its command line, and what quoting for it writes. `crt_read` is the
-- rule of the C runtime, not code of the repository.
use hostctl.Prelude.{
  ℕ, zero, suc, ◌+◌, ◌*◌, ◌/◌, ◌%◌, Bool, true, false, ◌≡◌, refl, ap, ◌∙◌, sym, Option, none, some,
  [], ◌∷◌, ◌++◌, arith, append_assoc, append-nil, ◌==◌, ==_iff, ◌&&◌, ◌||◌, not, if◌then◌else◌, any,
  codes, Bool-cases, inl, inr,
}
use hostctl.Shell.Text.{Text, quotation, backslash, space, among}
use hostctl.Shell.Cmd.{is_space, slashes}

abbrev starts_quoted : Text → Bool
starts_quoted [] = false
starts_quoted (c ∷ s) = c == quotation

-- A text that is one argument: inside quotes or not, backslashes pending, the value so far. Two
-- quotes in a row inside quotes mean different things to different runtimes and are refused.
unfoldable pub crt_read : Bool → ℕ → Text → Text → Option Text
crt_read true n out [] = none
crt_read false n out [] = some (out ++ slashes n)
crt_read inside n out (c ∷ s) =
    let pending = crt_read inside (n + 1) out s in
    let literal = crt_read inside 0 (out ++ slashes (n / 2) ++ quotation ∷ []) s in
    let toggled = crt_read (not inside) 0 (out ++ slashes (n / 2)) s in
    let plain = crt_read inside 0 (out ++ slashes n ++ c ∷ []) s in
    if c == backslash
    then pending
    else if c == quotation
    then if n % 2 == 1 then literal else if inside && starts_quoted s then none else toggled
    else if not inside && (c == space || c == b'\t')
    then none
    else plain

-- `escape_loop` without the carets.
unfoldable pub crt_escape : Text → ℕ → Text
crt_escape [] n = slashes (n * 2)
crt_escape (c ∷ s) n =
    let more = crt_escape s (n + 1) in
    let rest = crt_escape s 0 in
    if c == backslash
    then more
    else if c == quotation
    then slashes (n * 2 + 1) ++ quotation ∷ rest
    else slashes n ++ c ∷ rest

pub escape_plain :
    (c : ℕ) (s : Text) (n : ℕ)
    → (c == backslash) ≡ false
    → (c == quotation) ≡ false
    → crt_escape (c ∷ s) n ≡ slashes n ++ c ∷ crt_escape s 0
unfolding crt_escape
escape_plain c s n h k = rw (h, k) refl

pub escape_backslash : (s : Text) (n : ℕ) → crt_escape (backslash ∷ s) n ≡ crt_escape s (n + 1)
unfolding crt_escape
escape_backslash s n = refl

pub escape_quotation :
    (s : Text) (n : ℕ)
    → crt_escape (quotation ∷ s) n ≡ slashes (n * 2 + 1) ++ quotation ∷ crt_escape s 0
unfolding crt_escape
escape_quotation s n = refl

one_more : (n m : ℕ) → n + 1 + m ≡ n + suc m
one_more n m = omega arith

read-slashes :
    (inside : Bool) (m n : ℕ) (out s : Text)
    → crt_read inside n out (slashes m ++ s) ≡ crt_read inside (n + m) out s
unfolding slashes crt_read
read-slashes inside zero n out s = let none_more : n + 0 ≡ n = omega arith in rw none_more refl
read-slashes true (suc m) n out s =
    read-slashes true m (n + 1) out s ∙ ap (λ k. crt_read true k out s) (one_more n m)
read-slashes false (suc m) n out s =
    read-slashes false m (n + 1) out s ∙ ap (λ k. crt_read false k out s) (one_more n m)

read_literal :
    (n : ℕ) (out s : Text)
    → crt_read true (n * 2 + 1) out (quotation ∷ s)
      ≡ crt_read true 0 (out ++ slashes n ++ quotation ∷ []) s
unfolding crt_read
read_literal n out s =
    let odd : (n * 2 + 1) % 2 ≡ 1 = omega arith in
    let half : (n * 2 + 1) / 2 ≡ n = omega arith in rw (odd, half) refl

read_close :
    (n : ℕ) (out : Text) → crt_read true (n * 2) out (quotation ∷ []) ≡ some (out ++ slashes n)
unfolding crt_read slashes
read_close n out =
    let even : n * 2 % 2 ≡ 0 = omega arith in
    let half : n * 2 / 2 ≡ n = omega arith in rw (even, half, append-nil) refl

read_other :
    (c n : ℕ) (out s : Text)
    → (c == backslash) ≡ false
    → (c == quotation) ≡ false
    → crt_read true n out (c ∷ s) ≡ crt_read true 0 (out ++ slashes n ++ c ∷ []) s
unfolding crt_read
read_other c n out s h k = rw (h, k) refl

read_first_slashes :
    (m : ℕ) (out s : Text) → crt_read true 0 out (slashes m ++ s) ≡ crt_read true m out s
read_first_slashes m out s =
    let all : 0 + m ≡ m = omega arith in
    read-slashes true m 0 out s ∙ ap (λ k. crt_read true k out s) all

slashes-suc : (n : ℕ) → slashes (n + 1) ≡ backslash ∷ slashes n
unfolding slashes
slashes-suc n = let next : n + 1 ≡ suc n = omega arith in rw next refl

pub slashes_more : (n : ℕ) (s : Text) → slashes (n + 1) ++ s ≡ slashes n ++ backslash ∷ s
slashes_more zero s = unfold slashes in refl
slashes_more (suc n) s =
    let next : suc n ≡ n + 1 = omega arith in
    ap (λ r. r ++ s) (slashes-suc (suc n))
    ∙ ap (λ k. backslash ∷ slashes k ++ s) next
    ∙ ap (λ r. backslash ∷ r) (slashes_more n s)
    ∙ unfold slashes in refl

pub shut :
    (out b : Text) (c : ℕ) (s : Text) → out ++ b ++ c ∷ [] ++ slashes 0 ++ s ≡ out ++ b ++ c ∷ s
unfolding slashes
shut out b c s = rw (append-nil (out ++ b ++ c ∷ [])) (append_assoc (out ++ b) (c ∷ []) s)

-- inside quotes, the escaped value is read as the value
pub read-crt_escape :
    (s : Text) (n : ℕ) (out : Text)
    → crt_read true 0 out (crt_escape s n ++ quotation ∷ []) ≡ some (out ++ slashes n ++ s)
read-crt_escape [] n out =
    unfold crt_escape in
    read_first_slashes (n * 2) out (quotation ∷ [])
    ∙ read_close n out
    ∙ ap some (sym (append-nil (out ++ slashes n)))
read-crt_escape (c ∷ s) n out = elim (Bool-cases (c == backslash)) [
  | inl e ↦
      rw ((==_iff c backslash).0 e, escape_backslash)
        (read-crt_escape s (n + 1) out
          ∙ ap some (append_assoc out (slashes (n + 1)) s)
          ∙ ap (λ t. some (out ++ t)) (slashes_more n s)
          ∙ ap some (sym (append_assoc out (slashes n) (backslash ∷ s))))
  | inr e ↦ elim (Bool-cases (c == quotation)) [
    | inl q ↦
        rw ((==_iff c quotation).0 q, escape_quotation, append_assoc)
          (read_first_slashes (n * 2 + 1) out _
            ∙ read_literal n out _
            ∙ read-crt_escape s 0 (out ++ slashes n ++ quotation ∷ [])
            ∙ ap some (shut out (slashes n) quotation s))
    | inr q ↦
        rw (escape_plain c s n e q, append_assoc)
          (read_first_slashes n out _
            ∙ read_other c n out _ e q
            ∙ read-crt_escape s 0 (out ++ slashes n ++ c ∷ [])
            ∙ ap some (shut out (slashes n) c s))
  ]
]

abbrev pub is_unsafe : ℕ → Bool
is_unsafe c = is_space c || among c (codes "&|<>()@^\"%!")

space-plain : (c : ℕ) → is_space c ≡ false → (c == space || c == b'\t') ≡ false
unfolding is_space
space-plain c h = ground arith

unsafe-space : (c : ℕ) → is_unsafe c ≡ false → is_space c ≡ false
unsafe-space c h = ground arith

unsafe-quotation : (c : ℕ) → is_unsafe c ≡ false → (c == quotation) ≡ false
unsafe-quotation c h = ground arith

bare_other :
    (c n : ℕ) (out s : Text)
    → is_unsafe c ≡ false
    → (c == backslash) ≡ false
    → crt_read false n out (c ∷ s) ≡ crt_read false 0 (out ++ slashes n ++ c ∷ []) s
unfolding crt_read
bare_other c n out s h k = rw (k, unsafe-quotation c h, space-plain c (unsafe-space c h)) refl

bare_backslash :
    (n : ℕ) (out s : Text) → crt_read false n out (backslash ∷ s) ≡ crt_read false (n + 1) out s
unfolding crt_read
bare_backslash n out s = refl

-- a value that needs no quotes is read as it stands
pub read_bare :
    (s : Text) (n : ℕ) (out : Text)
    → any is_unsafe s ≡ false
    → crt_read false n out s ≡ some (out ++ slashes n ++ s)
read_bare [] n out h = unfold crt_read in ap some (sym (append-nil (out ++ slashes n)))
read_bare (c ∷ s) n out h = elim (Bool-cases (c == backslash)) [
  | inl e ↦ rw ((==_iff c backslash).0 e) (
      bare_backslash n out s
      ∙ read_bare s (n + 1) out (ground arith)
      ∙ ap some (append_assoc out (slashes (n + 1)) s)
      ∙ ap (λ t. some (out ++ t)) (slashes_more n s)
      ∙ ap some (sym (append_assoc out (slashes n) (backslash ∷ s))))
  | inr e ↦
      bare_other c n out s (ground arith) e
      ∙ read_bare s 0 (out ++ slashes n ++ c ∷ []) (ground arith)
      ∙ ap some (shut out (slashes n) c s)
]
