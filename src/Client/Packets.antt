-- ===== src/Client/Packets.antt =====
-- Incoming packets: SocketNamespace.onPacket, Socket.onPacket, onError and disconnect.
use socket_io_java.Common.{
  Bool, true, false, not, ◌&&◌, ◌||◌, Option, none, some, List, [], ◌∷◌, Text, codes, if◌then◌else◌,
  ◌==◌, text_eq, nat_eq, lookup, delete,
}
use socket_io_java.Value.{Value, Items, nil, cons, arr, str, num, bool}
use socket_io_java.Parser.Packet.{Packet, Kind, Ack, receipt, with_data, no_packet}
use socket_io_java.Parser.Encode.{or_empty}
use socket_io_java.Client.State.{
  Client, Namespace, publishes, publishes_packet, notifies, answers, put, raise,
}
use socket_io_java.Client.Close.{on_disconnect, reconnect}
use socket_io_java.Client.Namespaces.{of, namespace_at, namespace_packet, set_namespace, key_of}

abbrev pub disconnect_packet : Packet
disconnect_packet = record no_packet { type = some Kind.disconnect }

-- `this.of('').packet({ type: 'disconnect' })`.
unfoldable pub say_goodbye : Client → Client
unfolding of namespace_at namespace_packet
say_goodbye s =
    let s' = of (some []) s in namespace_packet [] (namespace_at (some []) s') disconnect_packet s'

-- Socket.disconnect.
unfoldable pub disconnect : Client → Client
unfolding say_goodbye on_disconnect
disconnect s =
    if s.connected || s.connecting
    then on_disconnect (some (codes "booted")) (if s.opened then say_goodbye s else s)
    else s

-- SocketNamespace.disconnect.
unfoldable pub namespace_disconnect : Text → Namespace → Client → Client
unfolding disconnect namespace_packet
namespace_disconnect key n s =
    if n.name == []
    then disconnect s
    else put (notifies key (some (str (codes "disconnect"))) [] none)
        (namespace_packet key n disconnect_packet s)

-- `publish('error', err.reason ? err.reason : err)`.
abbrev pub publish_error : Packet → Client → Client
publish_error p s =
    if or_empty p.reason == []
    then put (publishes_packet p) s
    else put (publishes (codes "error") (str (or_empty p.reason) ∷ [])) s

abbrev pub advises_reconnect : Packet → Bool
advises_reconnect p = or_empty p.advice == codes "reconnect"

-- Socket.onError on a packet.
unfoldable pub on_error : Packet → Client → Client
unfolding disconnect reconnect
on_error p s =
    if advises_reconnect p && (s.connected || s.connecting)
    then (let s' = disconnect s in
        if s'.raised
        then s'
        else publish_error p (if s'.options.reconnect then reconnect s' else s'))
    else publish_error p s

-- `params.concat(args)`: the elements of an array, or the value itself.
abbrev pub items : Items → List (Option Value)
items nil = []
items (cons v vs) = some v ∷ items vs

abbrev pub spread : Option Value → List (Option Value)
spread (some (arr vs)) = items vs
spread o = o ∷ []

-- The function `ack` that is passed on, and the packet that is sent when no data is asked for.
abbrev pub ack_function : Packet → Option (Option Text)
ack_function p = elim p.ack [ with_data ↦ some p.id | _ ↦ none ]

abbrev pub receipt_packet : Packet → Packet
receipt_packet p = record no_packet { type = some Kind.ack; ack_id = p.id }

abbrev pub send_receipt : Text → Namespace → Packet → Ack → Client → Client
send_receipt key n p receipt s = namespace_packet key n (receipt_packet p) s
send_receipt key n p _ s = s

-- `apply` takes an array, an object, or nothing.
abbrev pub applicable : Option Value → Bool
applicable (some (bool b)) = false
applicable (some (num t)) = false
applicable (some (str t)) = false
applicable _ = true

-- An acknowledgement calls the function that waits under its id, and forgets it.
unfoldable pub acknowledge : Text → Namespace → Packet → Client → Client
unfolding lookup delete
acknowledge key n p s = elim (lookup (key_of p.ack_id) n.acks) [
  | none ↦ s
  | some f ↦
      if applicable p.args
      then set_namespace key (record n { acks = delete (key_of p.ack_id) n.acks })
          (put (answers f p.args) s)
      else raise s
]

abbrev pub optional_str : Option Text → Option Value
optional_str none = none
optional_str (some t) = some (str t)

abbrev pub or_booted : Option Text → Text
or_booted o = if or_empty o == [] then codes "booted" else or_empty o

unfoldable pub namespace_error : Text → Packet → Client → Client
unfolding on_error
namespace_error key p s =
    if not (or_empty p.advice == [])
    then on_error p s
    else put
        (notifies key
          (some (
            str (
              if or_empty p.reason == codes "unauthorized"
              then codes "connect_failed"
              else codes "error")))
          (optional_str p.reason ∷ []) none)
        s

-- SocketNamespace.onPacket, on the namespace of a key.
unfoldable pub namespace_on_packet : Text → Namespace → Packet → Option Kind → Client → Client
unfolding on_disconnect acknowledge namespace_error namespace_packet
namespace_on_packet key n p (some Kind.connect) s =
    put (notifies key (some (str (codes "connect"))) [] none) s
namespace_on_packet key n p (some Kind.disconnect) s =
    if n.name == []
    then on_disconnect (some (or_booted p.reason)) s
    else put (notifies key (some (str (codes "disconnect"))) (optional_str p.reason ∷ []) none) s
namespace_on_packet key n p (some Kind.message) s =
    put (notifies key (some (str (codes "message"))) (p.payload ∷ []) (ack_function p))
      (send_receipt key n p p.ack s)
namespace_on_packet key n p (some Kind.json) s =
    put (notifies key (some (str (codes "message"))) (p.payload ∷ []) (ack_function p))
      (send_receipt key n p p.ack s)
namespace_on_packet key n p (some Kind.event) s =
    put (notifies key p.name (spread p.args) (ack_function p)) s
namespace_on_packet key n p (some Kind.ack) s = acknowledge key n p s
namespace_on_packet key n p (some Kind.error) s = namespace_error key p s
namespace_on_packet key n p _ s = s

-- Socket.onPacket.
unfoldable pub on_packet : Packet → Client → Client
unfolding of namespace_at namespace_on_packet
on_packet p s =
    let s' = of p.endpoint s in
    namespace_on_packet (key_of p.endpoint) (namespace_at p.endpoint s') p p.type s'

abbrev pub ack_packet : Option Text → Items → Packet
ack_packet id args = record no_packet { type = some Kind.ack; args = some (arr args); ack_id = id }

-- The function `ack` that a handler was given, called with arguments.
unfoldable pub call_ack : Text → Namespace → Option Text → Items → Client → Client
unfolding namespace_packet
call_ack key n id args s = namespace_packet key n (ack_packet id args) s
