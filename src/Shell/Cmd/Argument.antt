-- ===== src/Shell/Cmd/Argument.antt =====
-- A C-runtime child reads back what `quote` of shell/_cmd.py writes, once cmd has taken the carets
-- off.
use hostctl.Prelude.{
  ℕ, ◌+◌, ◌*◌, true, false, ◌≡◌, refl, ap, ◌∙◌, Option, none, some, [], ◌∷◌, ◌++◌, arith, ltb, ◌==◌,
  ==_iff, ◌&&◌, ◌||◌, not, any, null, codes, Bool-cases, inl, inr,
}
use hostctl.Shell.Text.{Text, quotation, backslash, among, text_value}
use hostctl.Shell.Cmd.{caret, is_space, slashes, escape_loop, argument, quote}
use hostctl.Shell.Cmd.Caret.{
  prefixed, prefixed-append, prefixed-some, parse-slashes, parse_escaped_run, parse_plain_run,
  is_meta, prefix, caret_parse, careted, replace_each-careted, caret_parse-escaped,
  caret_parse-plain,
}
use hostctl.Shell.Cmd.Crt.{
  escape_plain, escape_backslash, escape_quotation, crt_read, crt_escape, is_unsafe,
  read-crt_escape, read_bare,
}

loop_plain :
    (c : ℕ) (s : Text) (n : ℕ)
    → (c == backslash) ≡ false
    → (c == quotation) ≡ false
    → escape_loop (c ∷ s) n ≡ slashes n ++ c ∷ escape_loop s 0
unfolding escape_loop
loop_plain c s n h k = rw (h, k) refl

loop_backslash : (s : Text) (n : ℕ) → escape_loop (backslash ∷ s) n ≡ escape_loop s (n + 1)
unfolding escape_loop
loop_backslash s n = refl

loop_quotation :
    (s : Text) (n : ℕ)
    → escape_loop (quotation ∷ s) n ≡ slashes (n * 2 + 1) ++ caret ∷ quotation ∷ escape_loop s 0
unfolding escape_loop
loop_quotation s n = refl

loop_special :
    (c : ℕ) (s : Text) (n : ℕ)
    → (c == backslash) ≡ false
    → (c == quotation) ≡ false
    → escape_loop (caret ∷ c ∷ s) n ≡ slashes n ++ caret ∷ c ∷ escape_loop s 0
unfolding escape_loop
loop_special c s n h k = rw (h, k) refl

-- the carets that `replace` wrote are taken off again
parse-escape_loop :
    (s : Text) (n : ℕ) (tail : Text)
    → any (λ c. ltb c 32 || c == 127) s ≡ false
    → caret_parse false (escape_loop (careted (codes "^%!&|<>()") s) n ++ tail)
      ≡ prefixed (crt_escape s n) (caret_parse false tail)
parse-escape_loop [] n tail h = unfold escape_loop crt_escape in parse-slashes (n * 2) tail
parse-escape_loop (c ∷ s) n tail h =
    let specials = codes "^%!&|<>()" in
    elim (Bool-cases (c == backslash)) [
      | inl e ↦
          let same = (==_iff c backslash).0 e in
          rw (same, loop_backslash, escape_backslash)
            (parse-escape_loop s (n + 1) tail (ground arith))
      | inr e ↦ elim (Bool-cases (c == quotation)) [
        | inl q ↦
            let same = (==_iff c quotation).0 q in
            rw
              (
                same,
                loop_quotation,
                escape_quotation,
                prefixed-append,
                parse_escaped_run (n * 2 + 1) quotation (escape_loop (careted specials s) 0) tail
                    refl,
                parse-escape_loop s 0 tail (ground arith),
              )
              refl
        | inr q ↦ elim (Bool-cases (among c specials)) [
          | inl m ↦
              rw
                (
                  m,
                  loop_special c (careted specials s) n e q,
                  escape_plain c s n e q,
                  prefixed-append,
                  parse_escaped_run n c (escape_loop (careted specials s) 0) tail (ground arith),
                  parse-escape_loop s 0 tail (ground arith),
                )
                refl
          | inr m ↦
              rw
                (
                  m,
                  loop_plain c (careted specials s) n e q,
                  escape_plain c s n e q,
                  prefixed-append,
                  parse_plain_run n c (escape_loop (careted specials s) 0) tail (ground arith)
                      (unfold is_meta in ground arith),
                  parse-escape_loop s 0 tail (ground arith),
                )
                refl
        ]
      ]
    ]

unsafe-meta : (c : ℕ) → is_unsafe c ≡ false → is_meta c ≡ false
unfolding is_meta is_space
unsafe-meta c h = ground arith

parse_bare : (s : Text) → any is_unsafe s ≡ false → caret_parse false s ≡ some s
parse_bare [] h = unfold caret_parse in refl
parse_bare (c ∷ s) h =
    caret_parse-plain c s (ground arith) (unsafe-meta c (ground arith))
    ∙ ap (prefix c) (parse_bare s (ground arith))

-- What a C-runtime child makes of a command line's argument.
unfoldable pub received : Text → Option Text
unfolding caret_parse crt_read
received line = elim (caret_parse false line) [ none ↦ none | some w ↦ crt_read false 0 [] w ]

received_parsed :
    (line w : Text) → caret_parse false line ≡ some w → received line ≡ crt_read false 0 [] w
unfolding received
received_parsed line w h = rw (h, received) refl

open_quote : (w : Text) → crt_read false 0 [] (quotation ∷ w) ≡ crt_read true 0 [] w
unfolding crt_read slashes
open_quote w = refl

-- the line that `_argument` writes when the value needs quotes
abbrev wrapped : Text → Text
wrapped value =
    caret ∷ quotation ∷ escape_loop (careted (codes "^%!&|<>()") value) 0 ++ caret ∷ quotation ∷ []

parse_delimiter : caret_parse false (caret ∷ quotation ∷ []) ≡ some (quotation ∷ [])
unfolding caret_parse
parse_delimiter = refl

parse_wrapped :
    (value : Text)
    → any (λ c. ltb c 32 || c == 127) value ≡ false
    → caret_parse false (wrapped value) ≡ some (quotation ∷ crt_escape value 0 ++ quotation ∷ [])
parse_wrapped value h =
    caret_parse-escaped quotation _ refl
    ∙ ap (prefix quotation) (
        parse-escape_loop value 0 (caret ∷ quotation ∷ []) h
        ∙ ap (prefixed (crt_escape value 0)) parse_delimiter
        ∙ prefixed-some (crt_escape value 0) (quotation ∷ []))

received-wrapped :
    (value : Text)
    → any (λ c. ltb c 32 || c == 127) value ≡ false
    → received (wrapped value) ≡ some value
received-wrapped value h =
    received_parsed (wrapped value) _ (parse_wrapped value h)
    ∙ open_quote _
    ∙ read-crt_escape value 0 []
    ∙ unfold slashes in refl

received_bare : (value : Text) → any is_unsafe value ≡ false → received value ≡ some value
received_bare value h =
    received_parsed value value (parse_bare value h)
    ∙ read_bare value 0 [] h
    ∙ unfold slashes in refl

argument-bare :
    (value : Text) → (not (null value) && not (any is_unsafe value)) ≡ true → argument value ≡ value
unfolding argument
argument-bare value e = rw e refl

argument-wrapped :
    (value : Text)
    → (not (null value) && not (any is_unsafe value)) ≡ false
    → argument value ≡ wrapped value
unfolding argument
argument-wrapped value e = rw (e, replace_each-careted (codes "%!&|<>()") value refl refl) refl

pub received-argument :
    (value : Text)
    → any (λ c. ltb c 32 || c == 127) value ≡ false
    → received (argument value) ≡ some value
received-argument value h = elim (Bool-cases (not (null value) && not (any is_unsafe value))) [
  | inl e ↦ rw (argument-bare value e) (received_bare value (ground arith))
  | inr e ↦ rw (argument-wrapped value e) (received-wrapped value h)
]

quote-some :
    (value line : Text)
    → quote value ≡ some line
    → (line ≡ argument value) × (any (λ c. ltb c 32 || c == 127) value ≡ false)
unfolding quote text_value
quote-some value line h = ground arith

-- A child that reads its command line by the rules of the C runtime, after cmd has read it once,
-- gets the value that `CmdShellFlavour.quote` was given as one argument.
pub received-quote : (value line : Text) → quote value ≡ some line → received line ≡ some value
received-quote value line h =
    let (same, clean) = quote-some value line h in rw same (received-argument value clean)
