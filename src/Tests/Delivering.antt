-- ===== src/Tests/Delivering.antt =====
-- A run, and what the server reads of it.
use socket_io_java.Common.{true, none, some, ◌≡◌, refl, List, [], ◌∷◌, ◌++◌, map, codes, All}
use socket_io_java.Value.{Value, str, nil}
use socket_io_java.Parser.Packet.{Packet}
use socket_io_java.Parser.Decode.{decode_packet}
use socket_io_java.Parser.Wire.{
  Wire, unacknowledged, by_receipt, messages, connects, calls, to_packet,
}
use socket_io_java.Client.Events.{run, handle, Event, sends, emits, joins, post_succeeds}
use socket_io_java.Client.Delivery.{pending, handed}
use socket_io_java.Client.Delivery.Texts.{texts_read, as_read, CanSend}
use socket_io_java.Client.Delivery.Received.{run-texts_read, run_flushed}
use socket_io_java.Tests.Samples.{sample_json}
use socket_io_java.Tests.Connecting.{online, hello, online-IsOrdered}

abbrev chat : Value
chat = str (codes "chat")

-- A message that is posted; a namespace that is joined and an emit in it wait for the end of the post; then a
-- message waits again.
abbrev events : List Event
events =
    sends [] hello none
    ∷ joins (codes "/r")
    ∷ emits (codes "/r") chat nil none
    ∷ post_succeeds
    ∷ sends (codes "/r") hello (some 7)
    ∷ []

abbrev greeting : Wire
greeting = record { ticket = unacknowledged; address = []; body = messages (codes "hello") }

abbrev joining : Wire
joining = record { ticket = unacknowledged; address = codes "/r"; body = connects [] }

abbrev calling : Wire
calling = record { ticket = unacknowledged; address = codes "/r"; body = calls chat nil }

abbrev asking : Wire
asking = record {
  ticket = by_receipt (codes "1");
  address = codes "/r";
  body = messages (codes "hello");
}

sent :
    map as_read (pending (run sample_json events online))
    ≡ map to_packet (greeting ∷ joining ∷ calling ∷ asking ∷ [])
unfolding run to_packet decode_packet
sent = refl

sent-CanSend : All (CanSend sample_json) (pending (run sample_json events online))
unfolding run to_packet decode_packet
sent-CanSend = (
  (greeting, record { ticket = tt; address = tt; body = tt }, refl),
  (
    (joining, record { ticket = tt; address = (refl, (refl, tt)); body = tt }, refl),
    (
      (calling, record { ticket = tt; address = (refl, (refl, tt)); body = refl }, refl),
      (
        (
          asking,
          record { ticket = (λ e. cc e, (refl, tt)); address = (refl, (refl, tt)); body = tt },
          refl,
        ),
        tt,
      ),
    ),
  ),
)

run-texts_read_example :
    (ps : List Packet) × (handed (run sample_json events online).log ≡ handed online.log ++ ps)
    × (texts_read sample_json (run sample_json events online).log
          ++ map as_read (run sample_json events online).buffer
        ≡ (texts_read sample_json online.log ++ map as_read online.buffer) ++ map as_read ps)
run-texts_read_example = run-texts_read sample_json events online online-IsOrdered tt sent-CanSend

handed_over :
    map as_read (handed (run sample_json events online).log)
    ≡ map as_read (pending (run sample_json events online))
unfolding run decode_packet
handed_over = refl

still_connected : (run sample_json events online).connected ≡ true
unfolding run decode_packet
still_connected = refl

handed-CanSend : All (CanSend sample_json) (handed (run sample_json events online).log)
unfolding run to_packet decode_packet
handed-CanSend = sent-CanSend

run_flushed_example :
    let t = handle sample_json post_succeeds (run sample_json events online) in
    (t.buffer ≡ []) × (texts_read sample_json t.log ≡ map as_read (handed t.log))
run_flushed_example =
    run_flushed sample_json events online online-IsOrdered tt refl still_connected handed-CanSend
