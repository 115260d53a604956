-- ===== src/Console/Tests.antt =====
-- A stream whose process ends while bytes are in the buffer, and one that acknowledges a batch.
use mathlib.Core.Option
use mathlib.Core.List.{flatten}
use hostctl.Prelude.{ℕ, ◌+◌, true, ◌≡◌, refl, none, some, List, [], ◌∷◌, ◌++◌, length, drop, codes}
use hostctl.Prelude.Search.{find, begins_with}
use hostctl.Console.Stream.{Stream, delivered, bytes, pump, at_most, unbounded, read, read_ready}
use hostctl.Console.Stream.Steps.{Reach, started, pumps}
use hostctl.Console.Stream.Delivery.{Says, read_lem}
use hostctl.Console.Typed.{decimal, decimal_from}
use hostctl.Console.Acknowledged.{
  ack_marker, await, unread, await_acknowledgement, await_acknowledgement-find,
}

abbrev ending : Stream
ending = record { buffer = 4 ∷ 5 ∷ 6 ∷ []; ended = true; error = none }

ending_reached : Reach (4 ∷ 5 ∷ 6 ∷ []) [] ending
unfolding pump
ending_reached = pumps (pumps started refl (bytes (4 ∷ 5 ∷ 6 ∷ []))) refl (bytes [])

read_lem_example :
    (4 ∷ 5 ∷ 6 ∷ [] ≡ [] ++ ending.buffer)
    × Says (4 ∷ 5 ∷ 6 ∷ []) [] (at_most 2) unbounded ending (read (at_most 2) unbounded ending).0
read_lem_example = read_lem (4 ∷ 5 ∷ 6 ∷ []) [] ending (at_most 2) unbounded ending_reached refl

two_delivered : (read (at_most 2) unbounded ending).0 ≡ delivered (4 ∷ 5 ∷ [])
unfolding read read_ready
two_delivered = refl

abbrev answer : List (List ℕ)
answer = codes "$ __A" ∷ codes "Kab_" ∷ codes "1__$ " ∷ codes "__" ∷ []

await_acknowledgement-find_example :
    Option.map unread (await_acknowledgement (codes "ab") 1 answer)
    ≡ Option.map
        (λ hit. drop (hit + length (ack_marker (codes "ab") 1)) (flatten answer))
        (find (ack_marker (codes "ab") 1) (flatten answer))
await_acknowledgement-find_example = await_acknowledgement-find (codes "ab") 1 answer

acknowledged_once : await_acknowledgement (codes "ab") 1 answer ≡ some (codes "$ ", codes "__" ∷ [])
unfolding await_acknowledgement await ack_marker find begins_with decimal decimal_from
acknowledged_once = refl

not_yet : await_acknowledgement (codes "ab") 2 answer ≡ none
unfolding await_acknowledgement await ack_marker find begins_with decimal decimal_from
not_yet = refl
