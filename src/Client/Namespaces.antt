-- ===== src/Client/Namespaces.antt =====
-- io.SocketNamespace: sending through a namespace, and Socket.of.
use socket_io_java.Common.{
  ℕ, suc, Bool, true, false, Option, none, some, [], Text, codes, decimal, if◌then◌else◌, ◌==◌,
  text_eq, nat_eq, lookup, insert,
}
use socket_io_java.Value.{Value, Items, arr}
use socket_io_java.Parser.Packet.{Ack, Packet, Kind, no_packet, receipt, with_data}
use socket_io_java.Parser.Encode.{or_empty}
use socket_io_java.Client.State.{Client, Namespace}
use socket_io_java.Client.Buffer.{packet}

-- The constructor SocketNamespace.
abbrev pub new_namespace : Text → Namespace
new_namespace name = record { name = name; json = false; ack_packets = 0; acks = [] }

abbrev pub set_namespace : Text → Namespace → Client → Client
set_namespace key n s = record s { namespaces = insert key n s.namespaces }

-- SocketNamespace.packet on the namespace of a key: its name becomes the endpoint, and its flags are reset.
unfoldable pub namespace_packet : Text → Namespace → Packet → Client → Client
unfolding packet insert
namespace_packet key n p s =
    set_namespace key (record n { json = false }) (packet (record p { endpoint = some n.name }) s)

-- The property name that an endpoint is: `namespaces[undefined]` is `namespaces['undefined']`.
abbrev pub key_of : Option Text → Text
key_of none = codes "undefined"
key_of (some t) = t

abbrev is_root : Option Text → Bool
is_root none = false
is_root (some t) = t == []

abbrev pub connect_packet : Packet
connect_packet = record no_packet { type = some Kind.connect }

-- Socket.of, where the namespace is not there yet.
abbrev pub create : Option Text → Client → Client
create name s =
    let n = new_namespace (or_empty name) in
    let s' = set_namespace (key_of name) n s in
    if is_root name then s' else namespace_packet (key_of name) n connect_packet s'

-- Socket.of: the namespace of a name, which is made where there is none.
unfoldable pub of : Option Text → Client → Client
unfolding namespace_packet lookup
of name s = elim (lookup (key_of name) s.namespaces) [ none ↦ create name s | some n ↦ s ]

-- The state of a namespace after `of`.
unfoldable pub namespace_at : Option Text → Client → Namespace
unfolding lookup
namespace_at name s = elim (lookup (key_of name) s.namespaces) [
  | none ↦ new_namespace (or_empty name)
  | some n ↦ n
]

-- `packet.id = ++this.ackPackets; packet.ack = …; this.acks[packet.id] = fn`.
abbrev pub ticket : Namespace → ℕ → Text
ticket n fn = decimal (suc n.ack_packets)

abbrev pub with_callback : Namespace → ℕ → Namespace
with_callback n fn = record n {
  ack_packets = suc n.ack_packets;
  acks = insert (ticket n fn) fn n.acks;
}

-- The packets of `send` and `emit`, and what a function for the acknowledgement adds.
abbrev pub message_packet : Namespace → Value → Packet
message_packet n v = record no_packet {
  type = (if n.json then some Kind.json else some Kind.message);
  payload = some v;
}

abbrev pub event_packet : Value → Items → Packet
event_packet name args = record no_packet {
  type = some Kind.event;
  name = some name;
  args = some (arr args);
}

abbrev pub with_id : Packet → Namespace → ℕ → Ack → Packet
with_id p n fn a = record p { id = some (ticket n fn); ack = a }

-- SocketNamespace.send, with the identity of the function if there is one.
unfoldable pub send : Text → Namespace → Value → Option ℕ → Client → Client
unfolding namespace_packet
send key n v none s = namespace_packet key n (message_packet n v) s
send key n v (some f) s =
    namespace_packet key (with_callback n f) (with_id (message_packet n v) n f receipt) s

-- SocketNamespace.emit, where `args` are the arguments but a last one that is a function.
unfoldable pub emit_event : Text → Namespace → Value → Items → Option ℕ → Client → Client
unfolding namespace_packet
emit_event key n name args none s = namespace_packet key n (event_packet name args) s
emit_event key n name args (some f) s =
    namespace_packet key (with_callback n f) (with_id (event_packet name args) n f with_data) s

-- Flag.send and Flag.emit of the flag 'json'.
unfoldable pub json_send : Text → Namespace → Value → Option ℕ → Client → Client
unfolding send
json_send key n v fn s = send key (record n { json = true }) v fn s

unfoldable pub json_emit : Text → Namespace → Value → Items → Option ℕ → Client → Client
unfolding emit_event
json_emit key n name args fn s = emit_event key (record n { json = true }) name args fn s
