-- ===== src/Console/Typed/Tests.antt =====
-- Commands that are typed in batches and in writes.
use mathlib.Core.List.{flatten}
use hostctl.Prelude.{
  ℕ, ◌-◌, ◌^◌, ◌≤◌, ◌<◌, false, ◌≡◌, refl, some, List, [], ◌∷◌, ◌++◌, length, null, All, arith,
  codes,
}
use hostctl.Console.Typed.{
  b64encode, slices, append_lines, input_lines, setup_lines, main_line, acknowledged, typed_batches,
  sextet, decimal, decimal_from,
}
use hostctl.Console.Typed.Groups.{all_lines}
use hostctl.Console.Typed.Bounds.{IsTypeable, typed_batches-IsTypeable}
use hostctl.Console.Typed.Writes.{typed_writes, pieces_from, typed_bytes, typed_writes-typed_bytes}

abbrev token : List ℕ
token = codes "0123456789abcdef"

few_lines : length (setup_lines token (codes "cat") (some (codes "hello"))) < 10 ^ 22 - 1
unfolding setup_lines append_lines input_lines slices b64encode
few_lines = omega arith

typed_batches-IsTypeable_example :
    All
      (IsTypeable 1024)
      (typed_batches token (codes "cat") (some (codes "hello")) false (some 1024))
    × ((closed : List (List (List ℕ))) × (last : List (List ℕ)) × (typed_batches token
            (codes "cat")
            (some (codes "hello"))
            false
            (some 1024)
          ≡ acknowledged token 1 closed ++ last ∷ [])
        × (all_lines closed ++ last
            ≡ setup_lines token (codes "cat") (some (codes "hello"))
              ++ main_line token (some (codes "hello")) false ∷ [])
        × (null last ≡ false))
typed_batches-IsTypeable_example =
    typed_batches-IsTypeable token refl 1024 (omega arith) (codes "cat") (some (codes "hello"))
      false few_lines

typed_writes-typed_bytes_example :
    All (λ piece. length piece ≤ 2048) (typed_writes (codes "a" ∷ codes "bc" ∷ []))
    × (flatten (typed_writes (codes "a" ∷ codes "bc" ∷ []))
        ≡ typed_bytes (codes "a" ∷ codes "bc" ∷ []))
typed_writes-typed_bytes_example =
    typed_writes-typed_bytes (codes "a" ∷ codes "bc" ∷ []) (omega arith, (omega arith, tt))

padded : b64encode (codes "hello") ≡ codes "aGVsbG8="
unfolding b64encode sextet
padded = refl

three_digits : decimal 107 ≡ codes "107"
unfolding decimal decimal_from
three_digits = refl

one_write :
    typed_writes (codes "a" ∷ codes "bc" ∷ []) ≡ (codes "a" ++ 10 ∷ codes "bc" ++ 10 ∷ []) ∷ []
unfolding typed_writes pieces_from
one_write = refl
