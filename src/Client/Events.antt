-- ===== src/Client/Events.antt =====
-- Transport.onPacket and onData, and the events of timers, web sockets and requests.
use socket_io_java.Common.{
  ℕ, Bool, true, false, ◌&&◌, ◌||◌, Option, none, some, List, [], ◌∷◌, Text, codes, if◌then◌else◌,
  ◌==◌, text_eq, nat_eq,
}
use socket_io_java.Value.{Value, Items}
use socket_io_java.Parser.Packet.{Packet, Kind, kind_beq, no_packet}
use socket_io_java.Parser.Encode.{Json, or_empty}
use socket_io_java.Parser.Payload.{decode_payload}
use socket_io_java.Client.State.{
  Client, Transport, Namespace, beats, put, raise, yes_open, is_open, streams, xhr_polling,
  htmlfile, jsonp_polling, Channel, waiting, answered,
}
use socket_io_java.Client.Buffer.{after_send, set_buffer, on_open}
use socket_io_java.Client.Close.{
  set_transport, clear_timeouts, mark_closed, transport_on_close, transport_on_disconnect,
}
use socket_io_java.Client.Namespaces.{of, namespace_at, send, emit_event, json_send, json_emit}
use socket_io_java.Client.Opening.{on_connect}
use socket_io_java.Client.Packets.{on_packet, on_error, disconnect, namespace_disconnect, call_ack}

abbrev pub is_kind : Kind → Packet → Bool
is_kind k p = elim p.type [ none ↦ false | some j ↦ kind_beq j k ]

-- Transport.onHeartbeat: the answer goes to the transport, past the buffer.
abbrev pub beat : Option Transport → Client → Client
beat none s = raise s
beat (some t) s = after_send t (put beats s)

-- `packet.endpoint == ''`.
abbrev pub at_root : Option Text → Bool
at_root none = false
at_root (some t) = t == []

abbrev pub open_socket : Packet → Client → Client
open_socket p s = if is_kind Kind.connect p && at_root p.endpoint then on_connect s else s

abbrev pub close_on_advice : Packet → Client → Client
close_on_advice p s =
    if is_kind Kind.error p && (or_empty p.advice == codes "reconnect") then mark_closed s else s

-- Transport.onPacket.
unfoldable pub transport_on_packet : Packet → Client → Client
unfolding on_connect on_packet
transport_on_packet p s =
    let timed = record s { heartbeat_timer = true } in
    if is_kind Kind.heartbeat p
    then beat s.transport timed
    else on_packet p (close_on_advice p (open_socket p timed))

-- The loop of onData; an exception ends it.
unfoldable pub on_packets : List Packet → Client → Client
unfolding transport_on_packet
on_packets [] s = s
on_packets (p ∷ ps) s =
    let s' = transport_on_packet p s in
    let later = on_packets ps s' in if s'.raised then s' else later

abbrev pub set_close_timeout : Client → Client
set_close_timeout s = elim s.transport [
  | none ↦ s
  | some t ↦ set_transport s (record t { close_timer = true })
]

abbrev pub renew_close_timeout : Client → Client
renew_close_timeout s =
    if s.connected || (s.connecting || s.reconnecting)
    then set_close_timeout (clear_timeouts s)
    else clear_timeouts s

-- Transport.onData.
unfoldable pub on_data : Json → Text → Client → Client
unfolding on_packets decode_payload
on_data js t s =
    let s' = renew_close_timeout (record s { raised = false }) in
    if t == [] then s' else on_packets (decode_payload js t) s'

abbrev pub mark_open : Client → Client
mark_open s = elim s.transport [
  | none ↦ s
  | some t ↦ set_transport s (record t { opened = yes_open; close_timer = false })
]

-- Transport.onOpen.
unfoldable pub transport_on_open : Client → Client
unfolding on_open
transport_on_open s = on_open (mark_open s)

-- `get` of the transports that post: XHRPolling.get asks only while the transport is open, HTMLFile.get makes the iframe and
-- JSONPPolling.get a new script.
abbrev pub asks : Transport → Bool
asks t = elim t.kind [
  | xhr_polling ↦ is_open t.opened
  | htmlfile ↦ true
  | jsonp_polling ↦ true
  | _ ↦ false
]

abbrev pub get_from : Bool → Transport → Client → Client
get_from true t s = set_transport s (record t { channel = waiting })
get_from false t s = s

abbrev pub get : Client → Client
get s = elim s.transport [ none ↦ s | some t ↦ get_from (asks t) t s ]

-- XHR.open.
unfoldable pub xhr_open : Client → Client
unfolding transport_on_open set_buffer
xhr_open s = set_close_timeout (get (transport_on_open (set_buffer false s)))

abbrev pub is_waiting : Channel → Bool
is_waiting waiting = true
is_waiting _ = false

-- Whose answer it is that comes: the handlers of a request stay until it is answered or given up, and a script calls its
-- function of `io.j` whenever it is run.
abbrev pub awaits_request : Transport → Bool
awaits_request t = elim t.kind [ xhr_polling ↦ is_waiting t.channel | _ ↦ false ]

abbrev pub awaits_iframe : Transport → Bool
awaits_iframe t = elim t.kind [ htmlfile ↦ is_waiting t.channel | _ ↦ false ]

abbrev pub awaits_script : Transport → Bool
awaits_script t = elim t.kind [ jsonp_polling ↦ true | _ ↦ false ]

-- `self.get()` behind `self.onData(…)`, which an exception does not reach.
abbrev pub get_again : Client → Client
get_again s = if s.raised then s else get s

-- `if (this.open) this.get()` in JSONPPolling._.
abbrev pub opened_transport : Option Transport → Bool
opened_transport none = false
opened_transport (some t) = is_open t.opened

abbrev pub get_if_open : Client → Client
get_if_open s = if s.raised then s else if opened_transport s.transport then get s else s

abbrev pub answer_from : (Transport → Bool) → (Client → Client) → Option Transport → Client → Client
answer_from awaits f none s = s
answer_from awaits f (some t) s =
    if awaits t then f (set_transport s (record t { channel = answered })) else s

-- An answer to the request or the script of the transport, and what is done with it.
unfoldable pub answer : (Transport → Bool) → (Client → Client) → Client → Client
answer awaits f s = answer_from awaits f s.transport s

-- HTMLFile._ is called while the iframe is there.
abbrev pub push_from : (Client → Client) → Option Transport → Client → Client
push_from f none s = s
push_from f (some t) s = if awaits_iframe t then f s else s

-- `onopen` is called on a transport that has a web socket.
abbrev pub over_socket : Option Transport → Bool
over_socket none = false
over_socket (some t) = streams t.kind

-- What can happen to a connection once its transport is there: calls of the interface, on the namespace of
-- a name, and the events of the transport and the timers.
pub data Event : Type 0 where
  sends json_sends : Text → Value → Option ℕ → Event
  emits json_emits : Text → Value → Items → Option ℕ → Event
  acknowledges : Text → Option Text → Items → Event
  joins leaves : Text → Event
  disconnects : Event
  -- The web socket opened, or closed, or told of an error; a message came.
  socket_opens socket_closes socket_fails : Event
  receives : Text → Event
  -- XHR.open; a post ended with status 200, or otherwise.
  request_opens post_succeeds post_fails : Event
  -- The request of a polling transport ended with status 200, or otherwise; the iframe called; the script called, or
  -- failed to load.
  poll_succeeds : Text → Event
  poll_fails : Event
  iframe_calls script_calls : Text → Event
  script_fails : Event
  heartbeat_expires close_expires : Event

abbrev pub at : Text → (Text → Namespace → Client → Client) → Client → Client
at name f s = let s' = of (some name) s in f name (namespace_at (some name) s') s'

-- `self.transport.onClose()`.
abbrev pub close_of : Option Transport → Client → Client
close_of none s = raise s
close_of (some t) s = transport_on_close s

-- WS.onError: the error of a web socket has neither a reason nor an advice, as an empty packet has none.
abbrev pub socket_error : Client → Client
socket_error = on_error no_packet

unfoldable pub handle : Json → Event → Client → Client
unfolding send json_send emit_event json_emit call_ack of namespace_at namespace_disconnect
    disconnect transport_on_open set_buffer transport_on_close on_data transport_on_disconnect
    xhr_open answer on_error
handle js (sends name v fn) s = at name (λ k n. send k n v fn) s
handle js (json_sends name v fn) s = at name (λ k n. json_send k n v fn) s
handle js (emits name v args fn) s = at name (λ k n. emit_event k n v args fn) s
handle js (json_emits name v args fn) s = at name (λ k n. json_emit k n v args fn) s
handle js (acknowledges name id args) s = at name (λ k n. call_ack k n id args) s
handle js (joins name) s = of (some name) s
handle js (leaves name) s = at name namespace_disconnect s
handle js disconnects s = disconnect s
handle js socket_opens s =
    if over_socket s.transport then set_buffer false (transport_on_open s) else s
handle js socket_closes s = set_buffer true (transport_on_close s)
handle js socket_fails s = if over_socket s.transport then socket_error s else s
handle js (receives t) s = on_data js t s
handle js request_opens s = xhr_open s
handle js post_succeeds s = set_buffer false s
handle js post_fails s = transport_on_close s
handle js (poll_succeeds t) s = answer awaits_request (λ u. get_again (on_data js t u)) s
handle js poll_fails s = answer awaits_request transport_on_close s
handle js (iframe_calls t) s = push_from (on_data js t) s.transport s
handle js (script_calls t) s = answer awaits_script (λ u. get_if_open (on_data js t u)) s
handle js script_fails s = answer awaits_script transport_on_close s
handle js heartbeat_expires s = close_of s.transport (record s { heartbeat_timer = false })
handle js close_expires s = transport_on_disconnect s

-- A run of events.
unfoldable pub run : Json → List Event → Client → Client
unfolding handle
run js [] s = s
run js (e ∷ es) s = run js es (handle js e s)
