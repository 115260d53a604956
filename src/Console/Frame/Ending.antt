-- ===== src/Console/Frame/Ending.antt =====
-- The end marker of a frame (`self.end` of console/_posix.py): where one text can match it.
pub mod Inside
pub mod Resume
pub mod Find
use hostctl.Prelude.{
  ℕ, zero, suc, ◌+◌, Bool, true, false, ◌≡◌, refl, ap, sym, subst, ◌∙◌, ◌&&◌, not, Option, none,
  some, List, [], ◌∷◌, ◌++◌, length, drop, null, member, leb, ◌==◌, codes, arith, Bool-cases,
  Option-cases, inl, inr, ◌⊎◌, append_assoc, if◌then◌else◌, ◌≢◌,
}
use hostctl.Prelude.Search.{begins_with, rfind, begins_with-append}
use hostctl.Console.Frame.{
  end_prefix, is_digit, digits, past_digits, number_from, status_after, end_match, search_end,
}

-- `_EN__`
abbrev pub ending : List ℕ
ending = codes "_EN__"

-- A text without underscores.
abbrev pub plain : List ℕ → Bool
plain text = not (member b'_' text)

digits-plain : (text : List ℕ) → plain (digits text) ≡ true
unfolding digits is_digit
digits-plain [] = refl
digits-plain (c ∷ cs) = ground (arith, digits-plain cs)

digits-past : (text : List ℕ) → text ≡ digits text ++ past_digits text
unfolding digits past_digits
digits-past [] = refl
digits-past (c ∷ cs) = elim (Bool-cases (is_digit c)) [
  | inl e ↦ rw e (ap (◌∷◌ c) (digits-past cs))
  | inr e ↦ rw e refl
]

begins_with-drop : (m text : List ℕ) → begins_with m text ≡ true → text ≡ m ++ drop (length m) text
unfolding begins_with
begins_with-drop [] text h = refl
begins_with-drop (c ∷ m) [] h = cc
begins_with-drop (c ∷ m) (x ∷ text) h =
    let same : c ≡ x = ground arith in
    let rest : begins_with m text ≡ true = ground arith in
    rw same (ap (◌∷◌ x) (begins_with-drop m text rest))

pub begins_with_self : (m rest : List ℕ) → begins_with m (m ++ rest) ≡ true
unfolding begins_with
begins_with_self [] rest = refl
begins_with_self (c ∷ m) rest = ground (arith, begins_with_self m rest)

drop-length : (m rest : List ℕ) → drop (length m) (m ++ rest) ≡ rest
drop-length [] rest = refl
drop-length (c ∷ m) rest = drop-length m rest

-- digits that another character ends are found whole
digits-stop : (text rest : List ℕ) → digits (digits text ++ b'_' ∷ rest) ≡ digits text
unfolding digits is_digit
digits-stop [] rest = refl
digits-stop (c ∷ cs) rest = ground (arith, digits-stop cs rest)

past_digits-stop : (text rest : List ℕ) → past_digits (digits text ++ b'_' ∷ rest) ≡ b'_' ∷ rest
unfolding digits past_digits is_digit
past_digits-stop [] rest = refl
past_digits-stop (c ∷ cs) rest = ground (arith, past_digits-stop cs rest)

-- What a match consists of.
pub record IsEnding (token text : List ℕ) (status : ℕ) : Type 0 where
  pub number : List ℕ
  pub rest : List ℕ
  pub splits : text ≡ end_prefix token ++ (digits number ++ (ending ++ rest))
  pub some_digit : null (digits number) ≡ false
  pub value : number_from 0 (digits number) ≡ status

status_after_lem :
    (text : List ℕ) (status : ℕ)
    → status_after text ≡ some status
    → (null (digits text) ≡ false)
      × (begins_with ending (past_digits text) ≡ true)
      × (number_from 0 (digits text) ≡ status)
unfolding status_after
status_after_lem text status h = ground arith

end_match_lem :
    (token text : List ℕ) (status : ℕ)
    → end_match token text ≡ some status
    → (begins_with (end_prefix token) text ≡ true)
      × (status_after (drop (length (end_prefix token)) text) ≡ some status)
unfolding end_match
end_match_lem token text status h = ground arith

pub end_match-IsEnding :
    (token text : List ℕ) (status : ℕ)
    → end_match token text ≡ some status
    → IsEnding token text status
end_match-IsEnding token text status h =
    let (begins, found) = end_match_lem token text status h in
    let t = drop (length (end_prefix token)) text in
    let (some_digit, ends, value) = status_after_lem t status found in
    record {
      number = t;
      rest = drop (length ending) (past_digits t);
      splits =
          begins_with-drop (end_prefix token) text begins
          ∙ ap (λ x. end_prefix token ++ x)
              (digits-past t
                ∙ ap (λ x. digits t ++ x) (begins_with-drop ending (past_digits t) ends));
      some_digit = some_digit;
      value = value;
    }

status_after-digits :
    (number rest : List ℕ)
    → null (digits number) ≡ false
    → status_after (digits number ++ (ending ++ rest)) ≡ some (number_from 0 (digits number))
unfolding status_after begins_with
status_after-digits number rest h =
    rw
      (digits-stop number (codes "EN__" ++ rest), past_digits-stop number (codes "EN__" ++ rest), h)
      refl

pub IsEnding-end_match :
    (token text : List ℕ) (status : ℕ)
    → IsEnding token text status
    → end_match token text ≡ some status
unfolding end_match
IsEnding-end_match token text status e =
    let t = digits e.number ++ (ending ++ e.rest) in
    rw (e.splits, begins_with_self (end_prefix token) t, drop-length (end_prefix token) t)
      (status_after-digits e.number e.rest e.some_digit ∙ ap some e.value)

-- A match stays when more bytes come.
pub end_match-append :
    (token text b : List ℕ) (status : ℕ)
    → end_match token text ≡ some status
    → end_match token (text ++ b) ≡ some status
end_match-append token text b status h =
    let e = end_match-IsEnding token text status h in
    IsEnding-end_match token (text ++ b) status (record {
      number = e.number;
      rest = e.rest ++ b;
      splits =
          ap (λ x. x ++ b) e.splits
          ∙ (append_assoc (end_prefix token) (digits e.number ++ (ending ++ e.rest)) b
              ∙ ap (λ x. end_prefix token ++ x)
                  (append_assoc (digits e.number) (ending ++ e.rest) b));
      some_digit = e.some_digit;
      value = e.value;
    })
