-- ===== src/Console/Echo/Lines.antt =====
-- The lines of `_typed_batches` in console/_posix.py, command by command, against the marks of
-- Marks.
use hostctl.Prelude.{
  ℕ, Bool, true, false, ◌≡◌, refl, Option, none, some, List, [], ◌∷◌, ◌++◌, length, map, All,
  All-append, codes,
}
use hostctl.Prelude.Search.{begins_with}
use hostctl.Console.Typed.{
  b64encode, quoted, halves, decimal, var, tmp, append_line, append_lines, input_lines, setup_lines,
  stdin_of, stderr_of, main_parts, main_line, acknowledgement,
}
use hostctl.Console.Echo.Marks.{
  is_hex, IsPlain, opens, opens_by, clean, Sealed, make_Sealed, append-Sealed, plain-Sealed,
  joined_by-Sealed,
}
use hostctl.Console.Echo.Pieces.{
  b64encode-IsPlain, slices-IsPlain, closing-Sealed, hex-IsPlain, quoted-Sealed,
  before_quote-Sealed,
}

module _ (token : List ℕ) (t : All (λ c. is_hex c ≡ true) token) where
  token-Sealed : Sealed token
  token-Sealed = plain-Sealed token (hex-IsPlain token t)

  var-Sealed : Sealed (var token)
  unfolding clean opens opens_by begins_with
  var-Sealed = append-Sealed (make_Sealed (codes "__hc") (λ rest. refl)) token-Sealed

  tmp-Sealed : Sealed (tmp token)
  unfolding clean opens opens_by begins_with
  tmp-Sealed =
      append-Sealed (make_Sealed (b'"' ∷ b'$' ∷ b'{' ∷ []) (λ rest. refl))
        (append-Sealed var-Sealed (make_Sealed (codes "d:?" ++ (b'}' ∷ codes "\"")) (λ rest. refl)))

  append_line-Sealed :
      (name piece : List ℕ) → Sealed name → Sealed piece → Sealed (append_line token name piece)
  unfolding clean opens opens_by begins_with append_line
  append_line-Sealed name piece h k =
      append-Sealed (make_Sealed (codes "printf %s '") (λ rest. refl)) (
        append-Sealed k (
          append-Sealed (make_Sealed (codes "' >> ") (λ rest. refl))
            (append-Sealed tmp-Sealed (append-Sealed (make_Sealed (codes "/") (λ rest. refl)) h))))

  map-Sealed :
      (name : List ℕ) (pieces : List (List ℕ))
      → Sealed name
      → All IsPlain pieces
      → All Sealed (map (append_line token name) pieces)
  map-Sealed name [] h k = tt
  map-Sealed name (piece ∷ pieces) h (plain, k) =
      (append_line-Sealed name piece h (plain-Sealed piece plain), map-Sealed name pieces h k)

  append_lines-Sealed :
      (content name : List ℕ) → Sealed name → All Sealed (append_lines token content name)
  unfolding append_lines
  append_lines-Sealed content name h =
      map-Sealed name _ h (
        slices-IsPlain (length (b64encode content)) (b64encode content) (b64encode-IsPlain content))

  input_lines-Sealed : (input : Option (List ℕ)) → All Sealed (input_lines token input)
  unfolding clean opens opens_by begins_with input_lines
  input_lines-Sealed none = tt
  input_lines-Sealed (some []) = tt
  input_lines-Sealed (some (c ∷ cs)) =
      All-append Sealed (append_lines token (c ∷ cs) (codes "i")) _
        (append_lines-Sealed (c ∷ cs) (codes "i") (make_Sealed (codes "i") (λ rest. refl)))
        (
          append-Sealed (make_Sealed (codes "base64 -d < ") (λ rest. refl)) (
              append-Sealed tmp-Sealed (
                append-Sealed (make_Sealed (codes "/i > ") (λ rest. refl))
                  (append-Sealed tmp-Sealed (make_Sealed (codes "/f") (λ rest. refl))))),
          tt,
        )

  pub setup_lines-Sealed :
      (command : List ℕ) (input : Option (List ℕ)) → All Sealed (setup_lines token command input)
  unfolding clean opens opens_by begins_with setup_lines
  setup_lines-Sealed command input = (
    append-Sealed var-Sealed (make_Sealed (codes "d=$(mktemp -d)") (λ rest. refl)),
    All-append Sealed (append_lines token command (codes "c")) (input_lines token input)
        (append_lines-Sealed command (codes "c") (make_Sealed (codes "c") (λ rest. refl)))
        (input_lines-Sealed input),
  )

  stdin_of-Sealed : (input : Option (List ℕ)) → Sealed (stdin_of token input)
  unfolding clean opens opens_by begins_with
  stdin_of-Sealed none = make_Sealed (codes "/dev/null") (λ rest. refl)
  stdin_of-Sealed (some []) = make_Sealed (codes "/dev/null") (λ rest. refl)
  stdin_of-Sealed (some (c ∷ cs)) =
      append-Sealed tmp-Sealed (make_Sealed (codes "/f") (λ rest. refl))

  stderr_of-Sealed : (merge_stderr : Bool) → Sealed (stderr_of token merge_stderr)
  unfolding clean opens opens_by begins_with
  stderr_of-Sealed true = make_Sealed (codes "2>&1") (λ rest. refl)
  stderr_of-Sealed false =
      append-Sealed (make_Sealed (codes "2>") (λ rest. refl))
        (append-Sealed tmp-Sealed (make_Sealed (codes "/e") (λ rest. refl)))

  -- `_halves` of a word and the end of a marker
  marker-Sealed :
      (word tail : List ℕ)
      → Sealed (quoted word)
      → Sealed (tail ++ codes "\"")
      → Sealed (halves (word ∷ (token ++ tail) ∷ []))
  unfolding clean opens opens_by begins_with
  marker-Sealed word tail h k = append-Sealed (make_Sealed (codes "printf ") (λ rest. refl)) (
      append-Sealed (make_Sealed (codes "%s%s") (λ rest. refl)) (
        append-Sealed (make_Sealed (codes " ") (λ rest. refl)) (
          append-Sealed h (
            append-Sealed (make_Sealed (codes " ") (λ rest. refl))
              (before_quote-Sealed tail token-Sealed k)))))

  last_marker-Sealed : Sealed (
      halves (
        codes "__EN"
        ∷ (token ++ codes "_")
        ∷ (codes "$" ++ (var token ++ codes "r"))
        ∷ codes "_EN__"
        ∷ []))
  unfolding clean opens opens_by begins_with is_hex
  last_marker-Sealed =
      let space = make_Sealed (codes " ") (λ rest. refl) in
      append-Sealed (make_Sealed (codes "printf ") (λ rest. refl)) (
        append-Sealed (make_Sealed (codes "%s%s%s%s") (λ rest. refl)) (
          append-Sealed space (
            joined_by-Sealed (codes " ")
              (quoted (codes "__EN")
                ∷ quoted (token ++ codes "_")
                ∷ quoted (codes "$" ++ (var token ++ codes "r"))
                ∷ quoted (codes "_EN__")
                ∷ [])
              space
              (
                make_Sealed (quoted (codes "__EN")) (λ rest. refl),
                (
                  before_quote-Sealed (codes "_") token-Sealed
                      (make_Sealed (codes "_\"") (λ rest. refl)),
                  (
                    quoted-Sealed (
                        append-Sealed (make_Sealed (codes "$") (λ rest. refl))
                          (append-Sealed var-Sealed (make_Sealed (codes "r") (λ rest. refl)))),
                    (make_Sealed (quoted (codes "_EN__")) (λ rest. refl), tt),
                  ),
                ),
              ))))

  pub acknowledgement-Sealed : (number : ℕ) → Sealed (acknowledgement token number)
  unfolding clean opens opens_by begins_with is_hex acknowledgement
  acknowledgement-Sealed number = append-Sealed (make_Sealed (codes "; ") (λ rest. refl)) (
      marker-Sealed (codes "__AK") (codes "_" ++ (decimal number ++ codes "__"))
        (make_Sealed (quoted (codes "__AK")) (λ rest. refl)) (closing-Sealed number))

  pub main_line-Sealed :
      (input : Option (List ℕ)) (merge_stderr : Bool) → Sealed (main_line token input merge_stderr)
  unfolding clean opens opens_by begins_with is_hex main_line
  main_line-Sealed input merge_stderr =
      let tail = make_Sealed (codes "__\"") (λ rest. refl) in
      joined_by-Sealed (codes "; ") (main_parts token input merge_stderr)
        (make_Sealed (codes "; ") (λ rest. refl))
        (
          append-Sealed var-Sealed (make_Sealed (codes "s=$(stty -g 2>/dev/null)") (λ rest. refl)),
          (
            make_Sealed (codes "stty -opost 2>/dev/null") (λ rest. refl),
            (
              marker-Sealed (codes "__ST") (codes "__")
                  (make_Sealed (quoted (codes "__ST")) (λ rest. refl)) tail,
              (
                append-Sealed (make_Sealed (codes "eval \"$(base64 -d < ") (λ rest. refl)) (
                    append-Sealed tmp-Sealed (
                      append-Sealed (make_Sealed (codes "/c)\" < ") (λ rest. refl)) (
                        append-Sealed (stdin_of-Sealed input) (
                          append-Sealed (make_Sealed (codes " ") (λ rest. refl))
                            (stderr_of-Sealed merge_stderr))))),
                (
                  append-Sealed var-Sealed (make_Sealed (codes "r=$?") (λ rest. refl)),
                  (
                    marker-Sealed (codes "__OUT") (codes "__")
                        (make_Sealed (quoted (codes "__OUT")) (λ rest. refl)) tail,
                    (
                      append-Sealed (make_Sealed (codes "cat ") (λ rest. refl)) (
                          append-Sealed tmp-Sealed
                            (make_Sealed (codes "/e 2>/dev/null") (λ rest. refl))),
                      (
                        append-Sealed (make_Sealed (codes "rm -rf ") (λ rest. refl)) tmp-Sealed,
                        (
                          append-Sealed (make_Sealed (codes "stty \"$") (λ rest. refl)) (
                              append-Sealed var-Sealed
                                (make_Sealed (codes "s\" 2>/dev/null") (λ rest. refl))),
                          (
                            last_marker-Sealed,
                            (
                              append-Sealed (make_Sealed (codes "unset ") (λ rest. refl)) (
                                  append-Sealed var-Sealed (
                                    append-Sealed (make_Sealed (codes "d ") (λ rest. refl)) (
                                      append-Sealed var-Sealed (
                                        append-Sealed (make_Sealed (codes "r ") (λ rest. refl)) (
                                          append-Sealed var-Sealed
                                            (make_Sealed (codes "s") (λ rest. refl))))))),
                              tt,
                            ),
                          ),
                        ),
                      ),
                    ),
                  ),
                ),
              ),
            ),
          ),
        )
