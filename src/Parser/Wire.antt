-- ===== src/Parser/Wire.antt =====
-- What the parser promises: the packets of the protocol as a data type, the packet object of each, and
-- which of them can be sent.
pub mod Match
pub mod Fragments
pub mod RoundTrip
pub mod LineEnds
use socket_io_java.Common.{
  ℕ, ◌≡◌, ◌≢◌, refl, ap, ◌∙◌, sym, Bool, true, false, Option, none, some, [], ◌∷◌, ◌++◌,
  append_assoc, append-nil, Text, codes, InClass, Stops, is_digit, arith, take_while,
  take_while-append, drop_while-append, eqb, decimal, decimal-suc_ne_zero, list_beq_iff, nat_eq,
  text_eq, ◌==◌, take_while-all, join, if◌then◌else◌,
}
use socket_io_java.Value.{Value, Items, arr, obj, str, nil, cons, end, field, length_items}
use socket_io_java.Util.Indexing.{property}
use socket_io_java.Parser.Packet.{
  Packet, Kind, packets, reasons, advices, no_ack, receipt, with_data, no_packet,
}
use socket_io_java.Parser.Encode.{
  Json, encode_packet, type_text, or_empty, plus_if_data, optional, data_fragment, has_length,
  event_object, args_field, ack_fragment, error_fragment, index_or_empty,
}
use socket_io_java.Parser.Decode.{
  decode_packet, find_pieces, Pieces, match_id, match_plus, match_end, not_colon, not_line_end,
  args_or, set_id, skip, decode_pieces, decode_body, decode_event, decode_ack, decode_error,
}

-- How a packet is to be acknowledged: an id, with the arguments of the handler or without.
pub data Ticket : Type 0 where
  unacknowledged : Ticket
  by_receipt by_data : Text → Ticket

pub data Reason : Type 0 where
  transport_not_supported client_not_handshaken unauthorized : Reason

-- The parts of a packet that depend on its kind.
pub data Body : Type 0 where
  disconnects heartbeats does_nothing : Body
  connects messages : Text → Body
  carries : Value → Body
  calls : Value → Items → Body
  acknowledges : Text → Items → Body
  fails : Option Reason → Bool → Body

pub record Wire : Type 0 where
  pub ticket : Ticket
  pub address : Text
  pub body : Body

abbrev pub reason_text : Option Reason → Text
reason_text none = []
reason_text (some transport_not_supported) = codes "transport not supported"
reason_text (some client_not_handshaken) = codes "client not handshaken"
reason_text (some unauthorized) = codes "unauthorized"

abbrev pub advice_text : Bool → Text
advice_text true = codes "reconnect"
advice_text false = []

abbrev pub with_ticket : Packet → Ticket → Packet
with_ticket p unacknowledged = p
with_ticket p (by_receipt id) = record p { id = some id; ack = receipt }
with_ticket p (by_data id) = record p { id = some id; ack = with_data }

abbrev pub with_body : Packet → Body → Packet
with_body p disconnects = record p { type = some Kind.disconnect }
with_body p heartbeats = record p { type = some Kind.heartbeat }
with_body p does_nothing = record p { type = some Kind.noop }
with_body p (connects qs) = record p { type = some Kind.connect; qs = some qs }
with_body p (messages t) = record p { type = some Kind.message; payload = some (str t) }
with_body p (carries v) = record p { type = some Kind.json; payload = some v }
with_body p (calls n vs) = record p { type = some Kind.event; name = some n; args = some (arr vs) }
with_body p (acknowledges id vs) = record p {
  type = some Kind.ack;
  ack_id = some id;
  args = some (arr vs);
}
with_body p (fails r a) = record p {
  type = some Kind.error;
  reason = some (reason_text r);
  advice = some (advice_text a);
}

-- The packet object.
unfoldable pub to_packet : Wire → Packet
to_packet w =
    with_body (with_ticket (record no_packet { endpoint = some w.address }) w.ticket) w.body

-- The object that an event is sent as.
abbrev pub event_value : Value → Items → Value
event_value n nil = obj (field (codes "name") n end)
event_value n vs = obj (field (codes "name") n (field (codes "args") (arr vs) end))

-- JSON gives the value back.
abbrev pub RoundTrips : Json → Value → Type 0
RoundTrips js v = js.parse (js.stringify v) ≡ some v

-- Arguments of an acknowledgement are read up to the end of the line.
abbrev pub IsAckArgs : Json → Items → Type 0
IsAckArgs js nil = Unit {0}
IsAckArgs js vs =
    RoundTrips js (arr vs)
    × (js.stringify (arr vs) ≢ [])
    × InClass not_line_end (js.stringify (arr vs))

abbrev pub IsId : Text → Type 0
IsId id = (id ≢ []) × InClass is_digit id

abbrev pub IsTicket : Ticket → Type 0
IsTicket unacknowledged = Unit {0}
IsTicket (by_receipt id) = IsId id
IsTicket (by_data id) = IsId id

abbrev pub IsBody : Json → Body → Type 0
IsBody js (carries v) = RoundTrips js v
IsBody js (calls n vs) = RoundTrips js (event_value n vs)
IsBody js (acknowledges id vs) = IsId id × IsAckArgs js vs
IsBody js _ = Unit {0}

-- A packet that the protocol can carry: its ids are digits, its endpoint holds no colon, and JSON gives
-- back what is sent through it.
pub record IsSendable (js : Json) (w : Wire) : Type 0 where
  pub ticket : IsTicket w.ticket
  pub address : InClass not_colon w.address
  pub body : IsBody js w.body

abbrev pub kind : Body → Kind
kind disconnects = Kind.disconnect
kind heartbeats = Kind.heartbeat
kind does_nothing = Kind.noop
kind (connects qs) = Kind.connect
kind (messages t) = Kind.message
kind (carries v) = Kind.json
kind (calls n vs) = Kind.event
kind (acknowledges id vs) = Kind.ack
kind (fails r a) = Kind.error
