-- ===== src/Tests/Numbering.antt =====
-- The ids of a namespace over a run.
use socket_io_java.Common.{
  false, IsObject, ◌<◌, none, some, ◌≡◌, refl, ◌⊎◌, List, [], ◌∷◌, codes, lookup, decimal, arith,
}
use socket_io_java.Value.{nil}
use socket_io_java.Parser.Decode.{decode_packet}
use socket_io_java.Client.State.{Client, Namespace}
use socket_io_java.Client.Namespaces.{namespace_at, ticket}
use socket_io_java.Client.Events.{run, handle, Event, sends, emits, joins, receives, post_succeeds}
use socket_io_java.Client.Numbering.{IsCounted}
use socket_io_java.Client.Numbering.Running.{run-IsNumbered}
use socket_io_java.Tests.Samples.{sample_json}
use socket_io_java.Tests.Connecting.{online, hello}

-- A namespace that has given two ids; the function 7 still waits for an answer.
abbrev asking : Namespace
asking = record { name = codes "/r"; json = false; ack_packets = 2; acks = (codes "2", 7) ∷ [] }

abbrev counted : Client
counted = record online { namespaces = (codes "/r", asking) ∷ [] }

counted-IsCounted : IsCounted counted
unfolding lookup IsObject decimal
counted-IsCounted = record { object = (refl, tt); numbered = (((2, omega arith, refl), tt), tt) }

abbrev events : List Event
events =
    emits (codes "/r") hello nil (some 8)
    ∷ receives (codes "6:::2")
    ∷ joins []
    ∷ sends (codes "/r") hello (some 9)
    ∷ post_succeeds
    ∷ []

-- The answer to another id, and another call.
abbrev later : List Event
later = receives (codes "6:::3") ∷ emits (codes "/r") hello nil (some 6) ∷ []

waiting :
    (namespace_at (some (codes "/r")) (run sample_json events counted)).acks
    ≡ (codes "2", 7) ∷ (codes "3", 8) ∷ (codes "4", 9) ∷ []
unfolding run namespace_at decode_packet
waiting = refl

run-IsNumbered_example :
    let t = run sample_json events counted in
    let n = namespace_at (some (codes "/r")) t in
    let u = handle sample_json (sends (codes "/r") hello (some 5)) t in
    let n' = namespace_at (some (codes "/r")) (run sample_json later u) in
    IsCounted (run sample_json later u)
    × (lookup (ticket n 5) n.acks ≡ none)
    × (lookup (ticket n 5) (namespace_at (some (codes "/r")) u).acks ≡ some 5)
    × ((lookup (ticket n 5) n'.acks ≡ none) ⊎ (lookup (ticket n 5) n'.acks ≡ some 5))
    × (n.ack_packets < n'.ack_packets)
run-IsNumbered_example =
    run-IsNumbered sample_json events later counted (codes "/r") hello 5 counted-IsCounted
