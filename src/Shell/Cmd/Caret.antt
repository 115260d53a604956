-- ===== src/Shell/Cmd/Caret.antt =====
-- One parse of a line by cmd.exe: carets. `caret_parse` is the documented rule, not code of the
-- repository.
use hostctl.Prelude.{
  ℕ, zero, suc, Bool, true, false, ◌≡◌, refl, ap, ◌∙◌, sym, Option, none, some, List, [], ◌∷◌, ◌++◌,
  arith, append_assoc, ◌==◌, ==_iff, ◌&&◌, ◌||◌, not, if◌then◌else◌, any, codes, Bool-cases, inl,
  inr,
}
use hostctl.Shell.Text.{backslash, Text, among, replace}
use hostctl.Shell.Cmd.{slashes, caret, replace_each}

-- Characters with a meaning to cmd when no caret stands before them.
unfoldable pub is_meta : ℕ → Bool
is_meta c = among c (codes "&|<>()\"%!\n\r")

abbrev pub prefix : ℕ → Option Text → Option Text
prefix c none = none
prefix c (some s) = some (c ∷ s)

-- What a line says after its carets are taken off, `none` if cmd would act on a character. The
-- Boolean says whether a caret has just been read.
unfoldable pub caret_parse : Bool → Text → Option Text
caret_parse false [] = some []
caret_parse true [] = none
caret_parse true (c ∷ s) =
    let rest = caret_parse false s in if c == b'\n' || c == b'\r' then none else prefix c rest
caret_parse false (c ∷ s) =
    let escaped = caret_parse true s in
    let rest = caret_parse false s in
    if c == caret then escaped else if is_meta c then none else prefix c rest

-- Each of the characters with a caret before it.
abbrev pub careted : List ℕ → Text → Text
careted cs [] = []
careted cs (c ∷ s) = (if among c cs then caret ∷ c ∷ [] else c ∷ []) ++ careted cs s

replace-append : (c : ℕ) (by s t : Text) → replace c by (s ++ t) ≡ replace c by s ++ replace c by t
replace-append c by [] t = refl
replace-append c by (d ∷ s) t =
    ap (λ r. (if d == c then by else d ∷ []) ++ r) (replace-append c by s t)
    ∙ sym (append_assoc (if d == c then by else d ∷ []) (replace c by s) (replace c by t))

replace_each-append :
    (cs : List ℕ) (s t : Text) → replace_each cs (s ++ t) ≡ replace_each cs s ++ replace_each cs t
unfolding replace_each
replace_each-append [] s t = refl
replace_each-append (c ∷ cs) s t =
    ap (replace_each cs) (replace-append c (caret ∷ c ∷ []) s t)
    ∙ replace_each-append cs (replace c (caret ∷ c ∷ []) s) (replace c (caret ∷ c ∷ []) t)

abbrev distinct : List ℕ → Bool
distinct [] = true
distinct (c ∷ cs) = not (among c cs) && distinct cs

-- characters that are not the caret, in turn, on one that is none of them
replace_each-other : (cs : List ℕ) (c : ℕ) → among c cs ≡ false → replace_each cs (c ∷ []) ≡ c ∷ []
unfolding replace_each
replace_each-other [] c h = refl
replace_each-other (d ∷ cs) c h =
    let differ : (c == d) ≡ false = ground arith in
    rw differ (replace_each-other cs c (ground arith))

replace_each-pair :
    (cs : List ℕ) (c : ℕ)
    → among caret cs ≡ false
    → among c cs ≡ false
    → replace_each cs (caret ∷ c ∷ []) ≡ caret ∷ c ∷ []
replace_each-pair cs c k h =
    rw
      (
        replace_each-append cs (caret ∷ []) (c ∷ []),
        replace_each-other cs caret k,
        replace_each-other cs c h,
      )
      refl

replace_each-one :
    (cs : List ℕ) (c : ℕ)
    → among caret cs ≡ false
    → distinct cs ≡ true
    → replace_each cs (c ∷ []) ≡ (if among c cs then caret ∷ c ∷ [] else c ∷ [])
unfolding replace_each
replace_each-one [] c k u = refl
replace_each-one (d ∷ cs) c k u = elim (Bool-cases (c == d)) [
  | inl e ↦
      let same = (==_iff c d).0 e in
      rw (e, same) (replace_each-pair cs d (ground arith) (ground arith))
  | inr e ↦ rw e (replace_each-one cs c (ground arith) (ground arith))
]

replace_each-caret :
    (cs : List ℕ) (c : ℕ)
    → among caret cs ≡ false
    → distinct cs ≡ true
    → replace_each (caret ∷ cs) (c ∷ []) ≡ (if among c (caret ∷ cs) then caret ∷ c ∷ [] else c ∷ [])
unfolding replace_each
replace_each-caret cs c k u = elim (Bool-cases (c == caret)) [
  | inl e ↦ let same = (==_iff c caret).0 e in rw (e, same) (replace_each-pair cs caret k k)
  | inr e ↦ rw e (replace_each-one cs c k u)
]

replace_each-nil : (cs : List ℕ) → replace_each cs [] ≡ []
unfolding replace_each
replace_each-nil [] = refl
replace_each-nil (c ∷ cs) = replace_each-nil cs

pub replace_each-careted :
    (cs : List ℕ) (s : Text)
    → among caret cs ≡ false
    → distinct cs ≡ true
    → replace_each (caret ∷ cs) s ≡ careted (caret ∷ cs) s
replace_each-careted cs [] k u = replace_each-nil (caret ∷ cs)
replace_each-careted cs (c ∷ s) k u =
    replace_each-append (caret ∷ cs) (c ∷ []) s
    ∙ rw (replace_each-caret cs c k u, replace_each-careted cs s k u) refl

-- one escaped character and one that needs no caret
pub caret_parse-escaped :
    (c : ℕ) (s : Text)
    → (c == b'\n' || c == b'\r') ≡ false
    → caret_parse false (caret ∷ c ∷ s) ≡ prefix c (caret_parse false s)
unfolding caret_parse
caret_parse-escaped c s h = rw h refl

pub caret_parse-plain :
    (c : ℕ) (s : Text)
    → (c == caret) ≡ false
    → is_meta c ≡ false
    → caret_parse false (c ∷ s) ≡ prefix c (caret_parse false s)
unfolding caret_parse
caret_parse-plain c s h k = rw (h, k) refl

-- What cmd passes on of an echoed value is the value.
pub parse-careted :
    (s : Text)
    → any (λ c. c == b'\n' || c == b'\r') s ≡ false
    → caret_parse false (careted (codes "^&|<>()\"%!") s) ≡ some s
parse-careted [] h = unfold caret_parse in refl
parse-careted (c ∷ s) h = elim (Bool-cases (among c (codes "^&|<>()\"%!"))) [
  | inl e ↦ rw e (
      caret_parse-escaped c (careted (codes "^&|<>()\"%!") s) (ground arith)
      ∙ ap (prefix c) (parse-careted s (ground arith)))
  | inr e ↦ rw e (
      caret_parse-plain c (careted (codes "^&|<>()\"%!") s) (ground arith)
        (unfold is_meta in ground arith)
      ∙ ap (prefix c) (parse-careted s (ground arith)))
]

abbrev pub prefixed : Text → Option Text → Option Text
prefixed [] o = o
prefixed (c ∷ s) o = prefix c (prefixed s o)

pub prefixed-append :
    (s t : Text) (o : Option Text) → prefixed (s ++ t) o ≡ prefixed s (prefixed t o)
prefixed-append [] t o = refl
prefixed-append (c ∷ s) t o = ap (prefix c) (prefixed-append s t o)

pub parse-slashes :
    (n : ℕ) (s : Text)
    → caret_parse false (slashes n ++ s) ≡ prefixed (slashes n) (caret_parse false s)
unfolding slashes
parse-slashes zero s = refl
parse-slashes (suc n) s =
    caret_parse-plain backslash (slashes n ++ s) refl (unfold is_meta in refl)
    ∙ ap (prefix backslash) (parse-slashes n s)

-- backslashes, a character with or without its caret, and more
pub parse_escaped_run :
    (m c : ℕ) (u tail : Text)
    → (c == b'\n' || c == b'\r') ≡ false
    → caret_parse false ((slashes m ++ caret ∷ c ∷ u) ++ tail)
      ≡ prefixed (slashes m) (prefix c (caret_parse false (u ++ tail)))
parse_escaped_run m c u tail h =
    ap (caret_parse false) (append_assoc (slashes m) (caret ∷ c ∷ u) tail)
    ∙ parse-slashes m (caret ∷ c ∷ u ++ tail)
    ∙ ap (prefixed (slashes m)) (caret_parse-escaped c (u ++ tail) h)

pub parse_plain_run :
    (m c : ℕ) (u tail : Text)
    → (c == caret) ≡ false
    → is_meta c ≡ false
    → caret_parse false ((slashes m ++ c ∷ u) ++ tail)
      ≡ prefixed (slashes m) (prefix c (caret_parse false (u ++ tail)))
parse_plain_run m c u tail h k =
    ap (caret_parse false) (append_assoc (slashes m) (c ∷ u) tail)
    ∙ parse-slashes m (c ∷ u ++ tail)
    ∙ ap (prefixed (slashes m)) (caret_parse-plain c (u ++ tail) h k)

pub prefixed-some : (s t : Text) → prefixed s (some t) ≡ some (s ++ t)
prefixed-some [] t = refl
prefixed-some (c ∷ s) t = ap (prefix c) (prefixed-some s t)
