-- ===== src/Client/State.antt =====
-- The objects of a connection as one state. What leaves the client is appended to a log.
use socket_io_java.Common.{ℕ, Bool, true, false, Option, List, [], ◌∷◌, ◌++◌, Text, codes}
use socket_io_java.Value.{Value}
use socket_io_java.Parser.Packet.{Packet}

-- What a client does to its surroundings, in order, and the calls of Socket.packet among it.
pub data Output : Type 0 where
  -- Socket.packet is called with a packet. Nothing leaves the client by that; no operation reads it.
  hands : Packet → Output
  -- One message on the transport: a packet, or a payload of several.
  transmits : List Packet → Output
  -- The answer to a heartbeat, which does not pass through the buffer.
  beats : Output
  -- `websocket.close()`.
  closes : Output
  -- `publish`: the event is emitted on the socket, then on each namespace.
  publishes : Text → List Value → Output
  -- `emit` on the socket alone.
  emits : Text → Output
  -- `$emit` on the namespace of a key; the id is there if a function is passed that acknowledges.
  notifies : Text → Option Value → List (Option Value) → Option (Option Text) → Output
  -- `publish('error', packet)`, for a packet without a reason.
  publishes_packet : Packet → Output
  -- An acknowledgement calls the function that waits for it, with its arguments.
  answers : ℕ → Option Value → Output
  -- A TypeError: a method of a transport that is not there.
  throws : Output

-- The property `open` of a transport: at first the method of the prototype, which counts as true.
pub data OpenFlag : Type 0 where
  method yes_open not_open : OpenFlag

abbrev pub is_open : OpenFlag → Bool
is_open not_open = false
is_open _ = true

-- The classes of transports, under the names of io.Transport.
pub data TransportKind : Type 0 where
  websocket flashsocket htmlfile xhr_polling jsonp_polling : TransportKind

-- The property `name` of each class.
abbrev pub name_of : TransportKind → Text
name_of websocket = codes "websocket"
name_of flashsocket = codes "flashsocket"
name_of htmlfile = codes "htmlfile"
name_of xhr_polling = codes "xhr-polling"
name_of jsonp_polling = codes "jsonp-polling"

-- The classes over a web socket; the others post requests, as the class XHR above them does.
abbrev pub streams : TransportKind → Bool
streams websocket = true
streams flashsocket = true
streams _ = false

-- What a transport that posts receives by: the request of `xhr`, the iframe, or the script. There is none, or it is
-- under way, or it was answered.
pub data Channel : Type 0 where
  idle waiting answered : Channel

pub record Transport : Type 0 where
  pub kind : TransportKind
  pub opened : OpenFlag
  pub close_timer : Bool
  pub channel : Channel

pub record Namespace : Type 0 where
  pub name : Text
  pub json : Bool
  pub ack_packets : ℕ
  pub acks : List (Text × ℕ)

-- The options that the operations read.
pub record Options : Type 0 where
  pub reconnect : Bool
  pub try_multiple : Bool
  pub delay : ℕ

-- A closure `maybeReconnect`, by its identity, with what it captured of the options.
pub record Closure : Type 0 where
  pub identity : ℕ
  pub try_multiple : Bool

-- `reconnection` holds the attempts and the delay while they are properties of the socket, and
-- `closures` the functions that `reconnect` has registered for 'connect'.
pub record Client : Type 0 where
  pub options : Options
  pub connected : Bool
  pub connecting : Bool
  pub reconnecting : Bool
  pub opened : Bool
  pub namespaces : List (Text × Namespace)
  pub buffer : List Packet
  pub do_buffer : Bool
  pub transport : Option Transport
  pub heartbeat_timer : Bool
  pub connect_timer : Bool
  pub reconnection : Option (ℕ × ℕ)
  pub reconnection_timer : Bool
  pub closures : List Closure
  pub next_closure : ℕ
  pub log : List Output
  -- Whether the handling of the current event was ended by an exception.
  pub raised : Bool

abbrev pub put : Output → Client → Client
put o s = record s { log = s.log ++ o ∷ [] }

abbrev pub raise : Client → Client
raise s = record s { log = s.log ++ throws ∷ []; raised = true }
