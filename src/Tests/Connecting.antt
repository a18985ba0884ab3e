-- ===== src/Tests/Connecting.antt =====
-- Connections at concrete states and events.
use socket_io_java.Common.{
  true, false, none, some, ◌≡◌, refl, List, [], ◌∷◌, ◌++◌, codes, if◌then◌else◌, ◌==◌, text_eq,
  nat_eq, lookup, map,
}
use socket_io_java.Value.{Value, str, nil}
use socket_io_java.Parser.Packet.{Packet, no_packet, Kind}
use socket_io_java.Client.State.{
  xhr_polling, waiting, Client, Transport, Namespace, Closure, answers, yes_open, raise,
}
use socket_io_java.Parser.Decode.{decode_packet}
use socket_io_java.Client.Close.{on_disconnect}
use socket_io_java.Client.Namespaces.{new_namespace, namespace_at, connect_packet}
use socket_io_java.Client.Opening.{on_connect}
use socket_io_java.Client.Packets.{disconnect, disconnect_packet, acknowledge}
use socket_io_java.Client.Events.{
  run, Event, sends, emits, disconnects, receives, post_succeeds, transport_on_packet,
}
use socket_io_java.Client.Delivery.{IsOrdered, pending, handed}
use socket_io_java.Client.Delivery.Running.{run-Grows}
use socket_io_java.Client.Ending.{unrolled, ended, on_disconnects, unrolled_ends}
use socket_io_java.Client.Disconnection.{disconnect_while_posting, on_disconnect_outcome}
use socket_io_java.Client.Acknowledgement.{acknowledge_once}
use socket_io_java.Client.Reconnection.{on_connect_outcome}
use socket_io_java.Client.Malformed.{malformed_connects}
use socket_io_java.Tests.Samples.{sample_json}

abbrev pub polling : Transport
polling = record { kind = xhr_polling; opened = yes_open; close_timer = false; channel = waiting }

abbrev stale : Closure
stale = record { identity = 0; try_multiple = true }

abbrev later : Closure
later = record { identity = 1; try_multiple = false }

-- A connected socket over a transport that posts.
abbrev pub online : Client
online = record {
  options = record { reconnect = true; try_multiple = true; delay = 500 };
  connected = true;
  connecting = false;
  reconnecting = false;
  opened = true;
  namespaces = ([], new_namespace []) ∷ [];
  buffer = [];
  do_buffer = false;
  transport = some polling;
  heartbeat_timer = true;
  connect_timer = false;
  reconnection = none;
  reconnection_timer = false;
  closures = [];
  next_closure = 0;
  log = [];
  raised = false;
}

-- A socket that reconnects, with two closures that wait.
abbrev offline : Client
offline = record online {
  connected = false;
  reconnecting = true;
  reconnection = some (0, 500);
  closures = stale ∷ later ∷ [];
  next_closure = 2;
}

pub online-IsOrdered : IsOrdered online
online-IsOrdered = record { attached = (polling, refl); flushed = λ e. refl }

abbrev pub hello : Value
hello = str (codes "hello")

-- Two messages, of which the second waits for the post, an emit, the end of the post, and a disconnection.
abbrev events : List Event
events =
    sends [] hello none
    ∷ emits (codes "chat") hello nil (some 9)
    ∷ post_succeeds
    ∷ receives (codes "1::")
    ∷ disconnects
    ∷ []

run-Grows_example :
    IsOrdered (run sample_json events online)
    × ((ps : List Packet) × (handed (run sample_json events online).log ≡ handed online.log ++ ps)
        × (pending (run sample_json events online) ≡ pending online ++ ps))
run-Grows_example = run-Grows sample_json events online online-IsOrdered

-- Deeper calls would put an exception into the log.
unrolled_ends_example :
    unrolled (λ c s. raise s) 9 on_disconnects online ≡ ended on_disconnects online
unrolled_ends_example = unrolled_ends (λ c s. raise s) 0 on_disconnects online

on_disconnect_outcome_example :
    ((on_disconnect none online).connected ≡ false)
    × ((on_disconnect none online).connecting ≡ false)
    × ((on_disconnect none online).buffer ≡ [])
    × ((on_disconnect none online).do_buffer ≡ false)
    × ((on_disconnect none online).reconnecting ≡ true)
    × ((on_disconnect none online).closures ≡ stale ∷ [])
on_disconnect_outcome_example = on_disconnect_outcome none online

abbrev expecting : Namespace
expecting = record { name = []; json = false; ack_packets = 1; acks = (codes "1", 9) ∷ [] }

abbrev answer : Packet
answer = record no_packet { type = some Kind.ack; ack_id = some (codes "1") }

acknowledge_once_example :
    let s' = acknowledge [] expecting answer online in
    (s'.log ≡ answers 9 none ∷ [])
    × (acknowledge [] (namespace_at (some []) s') answer s' ≡ s')
    × (lookup (codes "2") (namespace_at (some []) s').acks
        ≡ (if codes "1" == codes "2" then none else none))
unfolding lookup
acknowledge_once_example = acknowledge_once [] expecting answer 9 online (codes "2") refl refl

on_connect_outcome_example :
    let s' = on_connect offline in
    (s'.connected ≡ true)
    × (s'.reconnecting ≡ false)
    × (s'.reconnection ≡ none)
    × (s'.options.try_multiple ≡ true)
    × (s'.closures ≡ later ∷ [])
on_connect_outcome_example = on_connect_outcome offline stale (later ∷ []) refl refl refl

malformed_connects_example :
    let u = transport_on_packet (decode_packet sample_json (codes "oops")) online in
    let p = record connect_packet { endpoint = some [] } in
    (handed u.log ≡ handed online.log ++ p ∷ [])
    × (pending u ≡ pending online ++ p ∷ [])
    × (transport_on_packet (decode_packet sample_json (codes "<html>")) u
        ≡ record u { heartbeat_timer = true })
unfolding lookup
malformed_connects_example =
    malformed_connects sample_json (codes "oops") (codes "<html>") online
      (refl, (refl, (refl, (refl, tt)))) (refl, (refl, (refl, (refl, (refl, (refl, tt))))))
      online-IsOrdered refl

-- The disconnection packet did not leave: a post was under way.
left_behind : map (λ p. p.type) (run sample_json events online).buffer ≡ some Kind.disconnect ∷ []
unfolding run decode_packet
left_behind = refl

disconnect_while_posting_example :
    ((disconnect (record online { do_buffer = true })).connected ≡ false)
    × ((disconnect (record online { do_buffer = true })).buffer
        ≡ record disconnect_packet { endpoint = some [] } ∷ [])
unfolding lookup
disconnect_while_posting_example =
    disconnect_while_posting (record online { do_buffer = true }) (new_namespace []) refl refl refl
      refl
