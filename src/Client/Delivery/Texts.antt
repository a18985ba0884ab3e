-- ===== src/Client/Delivery/Texts.antt =====
-- The texts that the messages of a log are sent as, and what a peer that decodes as the client does reads in them.
use socket_io_java.Common.{
  Option, none, some, List, [], ◌∷◌, ◌++◌, ◌≡◌, refl, sym, ap, ◌∙◌, Text, map, map-append,
  if◌then◌else◌, ◌==◌, text_eq, nat_eq, All, All-split, Stops, eqb,
}
use socket_io_java.Util.Indexing.{index_of}
use socket_io_java.Parser.Packet.{Packet, Kind}
use socket_io_java.Parser.Encode.{
  Json, or_empty, data_fragment, type_text, index_text, encode_packet, encode_payload, mark,
}
use socket_io_java.Parser.Decode.{decode_packet}
use socket_io_java.Parser.Payload.{decode_payload, decode_payload-encode_payload, IsFramable}
use socket_io_java.Parser.Wire.{Wire, IsSendable, to_packet, kind}
use socket_io_java.Parser.Wire.Match.{number_text}
use socket_io_java.Parser.Wire.RoundTrip.{decode_packet-encode_packet, encode_packet-fragments}
use socket_io_java.Client.State.{Output, transmits}
use socket_io_java.Client.Delivery.{delivered}

-- XHR.payload; a single packet is sent as Transport.packet sends it.
unfoldable pub payload_text : Json → List Packet → Text
unfolding encode_packet encode_payload
payload_text js ps = encode_payload (map (encode_packet js) ps)

-- What a peer reads that gets every text of the log, those included whose posts failed later.
unfoldable pub texts_read : Json → List Output → List Packet
unfolding payload_text decode_payload
texts_read js [] = []
texts_read js (transmits ps ∷ os) = decode_payload js (payload_text js ps) ++ texts_read js os
texts_read js (_ ∷ os) = texts_read js os

-- A message holds a packet.
abbrev pub IsFilled : Output → Type 0
IsFilled (transmits []) = ⊥
IsFilled _ = Unit

-- A packet as it is read: the query string of a connect packet is a text there, '' where it was not given.
abbrev pub query_read : Option Kind → Option Text → Option Text
query_read (some Kind.connect) qs = some (or_empty qs)
query_read _ qs = qs

abbrev pub as_read : Packet → Packet
as_read p = record p { qs = query_read p.type p.qs }

-- A packet that the protocol can carry.
abbrev pub CanSend : Json → Packet → Type 0
CanSend js p = (w : Wire) × IsSendable js w × (as_read p ≡ to_packet w)

data_fragment-as_read :
    (js : Json) (p : Packet) (k : Option Kind)
    → data_fragment js (record p { qs = query_read k p.qs }) k ≡ data_fragment js p k
unfolding data_fragment
data_fragment-as_read js p (some Kind.connect) = query_kept p.qs
  where
    query_kept :
        (qs : Option Text)
        → (if or_empty qs == [] then none else some (or_empty qs))
          ≡ (if or_empty qs == [] then none else qs)
    query_kept none = refl
    query_kept (some t) = refl
data_fragment-as_read js p _ = refl

encode_packet-as_read : (js : Json) (p : Packet) → encode_packet js (as_read p) ≡ encode_packet js p
unfolding encode_packet
encode_packet-as_read js p = rw (data_fragment-as_read js p p.type) refl

number_text-Stops : (k : Kind) (t : Text) → Stops (λ c. eqb c mark) (number_text k ++ t)
unfolding type_text index_text index_of
number_text-Stops Kind.disconnect t = refl
number_text-Stops _ t = refl

encode_packet-Wire :
    (js : Json) (p : Packet) (w : Wire)
    → as_read p ≡ to_packet w
    → encode_packet js p ≡ encode_packet js (to_packet w)
encode_packet-Wire js p w e = sym (encode_packet-as_read js p) ∙ ap (encode_packet js) e

encode_packet-Stops :
    (js : Json) (p : Packet) → CanSend js p → Stops (λ c. eqb c mark) (encode_packet js p)
encode_packet-Stops js p (w, h, e) =
    rw (encode_packet-Wire js p w e, encode_packet-fragments js w)
      (number_text-Stops (kind w.body) _)

decode-encode :
    (js : Json) (ps : List Packet)
    → All (CanSend js) ps
    → map (decode_packet js) (map (encode_packet js) ps) ≡ map as_read ps
decode-encode js [] h = refl
decode-encode js (p ∷ ps) ((w, g, e), h) =
    let read =
      ap (decode_packet js) (encode_packet-Wire js p w e)
      ∙ decode_packet-encode_packet js w g
      ∙ sym e in
    rw (read, decode-encode js ps h) refl

payload-texts_read :
    (js : Json) (ps : List Packet)
    → IsFilled (transmits ps)
    → All (CanSend js) ps
    → decode_payload js (payload_text js ps) ≡ map as_read ps
unfolding payload_text
payload-texts_read js ps f h =
    decode_payload-encode_payload js (map (encode_packet js) ps) (framable ps f h)
    ∙ decode-encode js ps h
  where
    framable :
        (ps : List Packet)
        → IsFilled (transmits ps)
        → All (CanSend js) ps
        → IsFramable (map (encode_packet js) ps)
    framable [] f h = f
    framable (p ∷ []) f h = encode_packet-Stops js p h.0
    framable (p ∷ q ∷ ps) f h = tt

-- The texts stand for the packets that the transport was given.
pub texts_read_lem :
    (js : Json) (os : List Output)
    → All IsFilled os
    → All (CanSend js) (delivered os)
    → texts_read js os ≡ map as_read (delivered os)
unfolding texts_read
texts_read_lem js [] f h = refl
texts_read_lem js (transmits ps ∷ os) f h =
    let (g, k) = All-split (CanSend js) ps (delivered os) h in
    rw (payload-texts_read js ps f.0 g, texts_read_lem js os f.1 k)
      (sym (map-append as_read ps (delivered os)))
texts_read_lem js (_ ∷ os) f h = texts_read_lem js os f.1 h
