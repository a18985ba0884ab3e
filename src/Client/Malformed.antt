-- ===== src/Client/Malformed.antt =====
-- A text that is no packet: parser.decodePacket gives an empty object for it, which Transport.onPacket and Socket.onPacket
-- take for a packet without a type and an endpoint.
use socket_io_java.Common.{
  true, false, none, some, ◌≡◌, refl, ◌∙◌, Text, [], ◌∷◌, ◌++◌, codes, lookup, lookup-insert, eqb,
  All, text_eq, nat_eq,
}
use socket_io_java.Parser.Packet.{Packet, no_packet}
use socket_io_java.Parser.Encode.{Json}
use socket_io_java.Parser.Decode.{decode_packet, find_pieces}
use socket_io_java.Client.State.{Client, Namespace}
use socket_io_java.Client.Buffer.{packet}
use socket_io_java.Client.Namespaces.{
  set_namespace, new_namespace, namespace_packet, connect_packet, of,
}
use socket_io_java.Client.Packets.{namespace_on_packet, on_packet}
use socket_io_java.Client.Events.{transport_on_packet}
use socket_io_java.Client.Delivery.{IsOrdered, pending, handed, handed-packet, pending-packet}

-- The text holds no colon.
abbrev IsPlain : Text → Type 0
IsPlain t = All (λ c. eqb c b':' ≡ false) t

find_pieces-none : (run t : Text) → IsPlain t → find_pieces run t ≡ none
unfolding find_pieces
find_pieces-none run [] h = refl
find_pieces-none run (c ∷ cs) h = rw h.0 (find_pieces-none (run ++ c ∷ []) cs h.1)

decode_packet-none : (js : Json) (t : Text) → IsPlain t → decode_packet js t ≡ no_packet
unfolding decode_packet
decode_packet-none js t h = rw (find_pieces-none [] t h, decode_packet) refl

-- The namespace that is looked up for it.
abbrev nameless : Text
nameless = codes "undefined"

abbrev timed : Client → Client
timed s = record s { heartbeat_timer = true }

first_lem :
    (s : Client)
    → lookup nameless s.namespaces ≡ none
    → transport_on_packet no_packet s
      ≡ namespace_packet nameless
          (new_namespace [])
          connect_packet
          (set_namespace nameless (new_namespace []) (timed s))
unfolding transport_on_packet on_packet of namespace_on_packet
first_lem s e = rw (e, of) refl

later_lem :
    (s : Client) (m : Namespace)
    → lookup nameless s.namespaces ≡ some m
    → transport_on_packet no_packet s ≡ timed s
unfolding transport_on_packet on_packet of namespace_on_packet
later_lem s m e = rw (e, of) refl

-- A text without a colon, where no namespace is named 'undefined' yet, makes an ordered socket hand over a connect packet for the
-- root, once, and keep it; a second such text sets the heartbeat timer and does nothing else.
pub malformed_connects :
    (js : Json) (t t' : Text) (s : Client)
    → IsPlain t
    → IsPlain t'
    → IsOrdered s
    → lookup nameless s.namespaces ≡ none
    → let u = transport_on_packet (decode_packet js t) s in
      let p = record connect_packet { endpoint = some [] } in
      (handed u.log ≡ handed s.log ++ p ∷ [])
      × (pending u ≡ pending s ++ p ∷ [])
      × (transport_on_packet (decode_packet js t') u ≡ timed u)
unfolding namespace_packet
malformed_connects js t t' s h k o e =
    rw (decode_packet-none js t h, decode_packet-none js t' k, first_lem s e)
      (
        handed-packet p v,
        pending-packet p v (record { attached = o.attached; flushed = o.flushed }),
        later_lem w (record n { json = false }) there,
      )
  where
    n : Namespace
    n = new_namespace []

    p : Packet
    p = record connect_packet { endpoint = some [] }

    v : Client
    v = set_namespace nameless n (timed s)

    w : Client
    w = set_namespace nameless (record n { json = false }) (packet p v)

    there : lookup nameless w.namespaces ≡ some (record n { json = false })
    there =
        lookup-insert nameless nameless (record n { json = false }) (packet p v).namespaces ∙ refl
