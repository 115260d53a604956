-- ===== src/Console/Echo/Tests.antt =====
-- A command whose text holds the markers of its own token.
use hostctl.Prelude.{ℕ, true, false, ◌≡◌, refl, none, some, List, [], ◌∷◌, All, codes}
use hostctl.Prelude.Search.{begins_with, find}
use hostctl.Console.Typed.{typed_batches, halves}
use hostctl.Console.Typed.Writes.{typed_bytes}
use hostctl.Console.Frame.{start_marker}
use hostctl.Console.Echo.Marks.{is_hex}
use hostctl.Console.Echo.Batches.{IsUnmarked, typed_batches-IsUnmarked}

abbrev token : List ℕ
token = codes "0a9f"

token_hex : All (λ c. is_hex c ≡ true) token
unfolding is_hex
token_hex = (refl, (refl, (refl, (refl, tt))))

abbrev command : List ℕ
command = codes "echo __ST0a9f__"

typed_batches-IsUnmarked_example :
    All
      (λ lines. IsUnmarked token (typed_bytes lines))
      (typed_batches token command (some (codes "__EN0a9f_0_EN__")) false (some 1024))
typed_batches-IsUnmarked_example =
    typed_batches-IsUnmarked token refl token_hex command (some (codes "__EN0a9f_0_EN__")) false
      (some 1024)

in_the_command : find (start_marker token) command ≡ some 5
unfolding find begins_with start_marker
in_the_command = refl

in_halves : find (start_marker token) (halves (codes "__ST" ∷ codes "0a9f__" ∷ [])) ≡ none
unfolding find begins_with start_marker
in_halves = refl
