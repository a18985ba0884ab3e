-- ===== src/Tests/Polling.antt =====
-- Polling at a concrete connection.
use socket_io_java.Common.{◌≢◌, true, none, some, ◌≡◌, refl, ◌⊎◌, List, [], ◌∷◌, codes, Text}
use socket_io_java.Client.State.{waiting, Client, Transport, not_open, yes_open}
use socket_io_java.Client.Namespaces.{new_namespace}
use socket_io_java.Client.Events.{run, handle, Event, sends, poll_succeeds, post_succeeds, on_data}
use socket_io_java.Parser.Decode.{decode_packet}
use socket_io_java.Client.Polling.{Polls}
use socket_io_java.Client.Polling.Asking.{run-Polls, poll_stops}
use socket_io_java.Tests.Samples.{sample_json}
use socket_io_java.Tests.Connecting.{polling, online, hello}

-- Two polls with a message, between them a post and its end.
abbrev polls : List Event
polls =
    poll_succeeds (codes "3:::a")
    ∷ sends [] hello none
    ∷ post_succeeds
    ∷ poll_succeeds (codes "2::")
    ∷ []

run-Polls_example : Polls (run sample_json polls online).transport
unfolding handle decode_packet
run-Polls_example =
    run-Polls sample_json polls online (refl, (refl, (refl, (refl, tt)))) λ k o. refl

still_waiting :
    (run sample_json polls online).transport ≡ some (record polling { close_timer = true })
unfolding run decode_packet
still_waiting = refl

-- A socket with a function that waits for an acknowledgement.
abbrev asked : Client
asked = record online {
  namespaces = ([], record (new_namespace []) { acks = (codes "1", 9) ∷ [] }) ∷ [];
}

-- The server acknowledges with arguments that are no array.
abbrev broken : Text
broken = codes "6:::1+true"

poll_stops_example :
    (t : Transport) × ((handle sample_json (poll_succeeds broken) asked).transport ≡ some t)
    × (t.channel ≢ waiting)
    × ((t.opened ≡ not_open) ⊎ (t.opened ≡ yes_open))
unfolding on_data decode_packet
poll_stops_example = poll_stops sample_json broken asked polling refl refl refl refl
