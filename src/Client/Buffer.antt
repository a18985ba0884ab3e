-- ===== src/Client/Buffer.antt =====
-- Sending through the transport, and the socket's buffer.
use socket_io_java.Common.{
  Bool, true, false, not, ◌&&◌, Option, none, some, List, [], ◌∷◌, ◌++◌, if◌then◌else◌,
}
use socket_io_java.Parser.Packet.{Packet}
use socket_io_java.Client.State.{streams, Client, Transport, transmits, hands, put, raise}

-- A transport that posts sets the buffer while its request is under way: `post` begins with
-- `setBuffer(true)`, which does nothing else.
abbrev pub after_send : Transport → Client → Client
after_send t s = if streams t.kind then s else record s { do_buffer = true }

-- `transport.packet(packet)`.
abbrev pub transport_packet : Packet → Option Transport → Client → Client
transport_packet p none s = raise s
transport_packet p (some t) s = after_send t (put (transmits (p ∷ [])) s)

-- The loop of WS.payload.
unfoldable pub send_each : List Packet → Client → Client
send_each [] s = s
send_each (p ∷ ps) s = send_each ps (put (transmits (p ∷ [])) s)

-- `transport.payload(buffer)`.
abbrev pub transport_payload : List Packet → Option Transport → Client → Client
transport_payload ps none s = raise s
transport_payload ps (some t) s =
    if streams t.kind then send_each ps s else after_send t (put (transmits ps) s)

-- The body of Socket.packet.
abbrev pub pass_on : Packet → Client → Client
pass_on p s =
    if s.connected && not s.do_buffer
    then transport_packet p s.transport s
    else record s { buffer = s.buffer ++ p ∷ [] }

-- Socket.packet, with a note of the call in the log.
unfoldable pub packet : Packet → Client → Client
packet p s = pass_on p (put (hands p) s)

abbrev pub is_empty : List Packet → Bool
is_empty [] = true
is_empty _ = false

abbrev pub clear_buffer : Client → Client
clear_buffer s = record s { buffer = [] }

-- Socket.setBuffer. Without a transport the payload throws, and the buffer stays.
abbrev pub flush : Option Transport → Client → Client
flush none s = raise s
flush (some t) s = clear_buffer (transport_payload s.buffer (some t) s)

unfoldable pub set_buffer : Bool → Client → Client
unfolding send_each
set_buffer v s =
    if not v && (s.connected && not (is_empty s.buffer))
    then flush s.transport (record s { do_buffer = v })
    else record s { do_buffer = v }

-- Socket.onOpen and Socket.onClose.
unfoldable pub on_open : Client → Client
on_open s = record s { opened = true }

unfoldable pub on_close : Client → Client
on_close s = record s { opened = false; heartbeat_timer = false }
