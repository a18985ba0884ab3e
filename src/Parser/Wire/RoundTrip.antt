-- ===== src/Parser/Wire/RoundTrip.antt =====
-- Decoding is the inverse of encoding on the packets of the protocol.
use socket_io_java.Common.{
  ◌≡◌, refl, ap, ◌∙◌, sym, Bool, true, false, Option, none, some, [], ◌∷◌, ◌++◌, append_assoc,
  append-nil, Text, codes, InClass, is_digit, nat_eq, text_eq, join,
}
use socket_io_java.Parser.Packet.{Packet, Kind, no_ack, no_packet}
use socket_io_java.Parser.Encode.{
  Json, encode_packet, type_text, or_empty, plus_if_data, optional, data_fragment,
}
use socket_io_java.Parser.Decode.{
  not_colon, decode_packet, decode_body, set_id, decode_pieces, decode_body,
}
use socket_io_java.Parser.Wire.{
  Body, IsSendable, IsTicket, Ticket, Wire, by_data, by_receipt, disconnects, kind, to_packet,
  unacknowledged, with_body, with_ticket,
}
use socket_io_java.Parser.Wire.Match.{
  decode_packet-fragments, last, number_text, plus_text, property-number_text,
}
use socket_io_java.Parser.Wire.Fragments.{decode_body-data_fragment}

-- The id and the ack mark of a ticket, as fragments.
abbrev pub ticket_id : Ticket → Text
ticket_id unacknowledged = []
ticket_id (by_receipt id) = id
ticket_id (by_data id) = id

abbrev pub ticket_plus : Ticket → Bool
ticket_plus (by_data id) = true
ticket_plus _ = false

pub ticket_id-InClass : (t : Ticket) → IsTicket t → InClass is_digit (ticket_id t)
ticket_id-InClass unacknowledged h = tt
ticket_id-InClass (by_receipt id) h = h.1
ticket_id-InClass (by_data id) h = h.1

set_id-ticket :
    (p : Packet) (t : Ticket)
    → IsTicket t
    → p.id ≡ none
    → p.ack ≡ no_ack
    → set_id p (ticket_id t) (ticket_plus t) ≡ with_ticket p t
set_id-ticket p unacknowledged h a b = refl
set_id-ticket p (by_receipt []) h a b = absurd (h.0 refl)
set_id-ticket p (by_receipt (c ∷ cs)) h a b = refl
set_id-ticket p (by_data []) h a b = absurd (h.0 refl)
set_id-ticket p (by_data (c ∷ cs)) h a b = refl

-- The data fragment of a packet of the protocol.
abbrev pub fragment : Json → Wire → Option Text
fragment js w = data_fragment js (to_packet w) (some (kind w.body))

with_body_fields :
    (p : Packet) (b : Body)
    → ((with_body p b).type ≡ some (kind b))
      × ((with_body p b).id ≡ p.id)
      × ((with_body p b).ack ≡ p.ack)
      × ((with_body p b).endpoint ≡ p.endpoint)
with_body_fields p disconnects = (refl, refl, refl, refl)
with_body_fields p _ = (refl, refl, refl, refl)

abbrev pub blank : Text → Packet
blank address = record no_packet { endpoint = some address }

with_ticket_fields :
    (a : Text) (t : Ticket)
    → (or_empty (with_ticket (blank a) t).id ≡ ticket_id t)
      × (plus_if_data (with_ticket (blank a) t).ack ≡ plus_text (ticket_plus t))
      × (or_empty (with_ticket (blank a) t).endpoint ≡ a)
with_ticket_fields a unacknowledged = (refl, refl, refl)
with_ticket_fields a _ = (refl, refl, refl)

to_packet_fields :
    (w : Wire)
    → ((to_packet w).type ≡ some (kind w.body))
      × (or_empty (to_packet w).id ≡ ticket_id w.ticket)
      × (plus_if_data (to_packet w).ack ≡ plus_text (ticket_plus w.ticket))
      × (or_empty (to_packet w).endpoint ≡ w.address)
unfolding to_packet
to_packet_fields w =
    let b = with_body_fields (with_ticket (blank w.address) w.ticket) w.body in
    let t = with_ticket_fields w.address w.ticket in
    (b.0, ap or_empty b.1 ∙ t.0, ap plus_if_data b.2 ∙ t.1, ap or_empty b.3 ∙ t.2)

join-last :
    (a b c d : Text) (o : Option Text)
    → join (codes ":") (a ∷ (b ++ c) ∷ d ∷ optional o)
      ≡ a ++ (b':' ∷ (b ++ (c ++ b':' ∷ (d ++ last o))))
join-last a b c d none =
    ap (λ t. a ++ (b':' ∷ t)) (append_assoc b c (b':' ∷ d))
    ∙ ap (λ t. a ++ (b':' ∷ (b ++ (c ++ b':' ∷ t)))) (sym (append-nil d))
join-last a b c d (some t) = ap (λ u. a ++ (b':' ∷ u)) (append_assoc b c (b':' ∷ (d ++ b':' ∷ t)))

encode_packet-join :
    (js : Json) (p : Packet)
    → encode_packet js p
      ≡ type_text p.type
        ++ (b':'
            ∷ (or_empty p.id
                ++ (plus_if_data p.ack
                    ++ b':' ∷ (or_empty p.endpoint ++ last (data_fragment js p p.type)))))
unfolding encode_packet
encode_packet-join js p =
    join-last (type_text p.type) (or_empty p.id) (plus_if_data p.ack) (or_empty p.endpoint)
      (data_fragment js p p.type)

pub encode_packet-fragments :
    (js : Json) (w : Wire)
    → encode_packet js (to_packet w)
      ≡ number_text (kind w.body)
        ++ (b':'
            ∷ (ticket_id w.ticket
                ++ (plus_text (ticket_plus w.ticket)
                    ++ b':' ∷ (w.address ++ last (fragment js w)))))
encode_packet-fragments js w =
    let f = to_packet_fields w in rw (encode_packet-join js (to_packet w), f.0, f.1, f.2, f.3)

-- The type can be set before the ticket.
ticket_type :
    (a : Text) (k : Kind) (t : Ticket)
    → with_ticket (record (blank a) { type = some k }) t
      ≡ record (with_ticket (blank a) t) { type = some k }
ticket_type a k unacknowledged = refl
ticket_type a k _ = refl

-- What is read from an encoded packet, before its last fragment is looked at.
pub decode_packet-body :
    (js : Json) (w : Wire)
    → IsTicket w.ticket
    → InClass not_colon w.address
    → decode_packet js (encode_packet js (to_packet w))
      ≡ decode_body js
          (record (with_ticket (blank w.address) w.ticket) { type = some (kind w.body) })
          (some (kind w.body))
          (or_empty (fragment js w))
unfolding decode_pieces
decode_packet-body js w h c =
    let k = kind w.body in
    let rest = or_empty (fragment js w) in
    let typed = λ (o : Option Kind). record (blank w.address) { type = o } in
    ap (decode_packet js) (encode_packet-fragments js w)
    ∙ decode_packet-fragments js k (ticket_id w.ticket) (ticket_plus w.ticket) w.address
        (fragment js w) (ticket_id-InClass w.ticket h) c
    ∙ ap (λ o. decode_body js (set_id (typed o) (ticket_id w.ticket) (ticket_plus w.ticket)) o rest)
        (property-number_text k)
    ∙ ap (λ p. decode_body js p (some k) rest)
        (set_id-ticket (typed (some k)) w.ticket h refl refl ∙ ticket_type w.address k w.ticket)

-- Decoding an encoded packet gives the packet back, for every packet of the protocol whose ids are digits,
-- whose endpoint holds no colon, and whose values JSON gives back. The arguments of an
-- acknowledgement must also be printed with no line terminator.
pub decode_packet-encode_packet :
    (js : Json) (w : Wire)
    → IsSendable js w
    → decode_packet js (encode_packet js (to_packet w)) ≡ to_packet w
decode_packet-encode_packet js w h =
    decode_packet-body js w h.ticket h.address
    ∙ unfold to_packet in
      decode_body-data_fragment js (with_ticket (blank w.address) w.ticket) w.body h.body
