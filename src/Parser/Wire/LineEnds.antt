-- ===== src/Parser/Wire/LineEnds.antt =====
-- The arguments of an acknowledgement end at the first line terminator of their JSON text.
use socket_io_java.Common.{
  ℕ, ◌≡◌, ◌≢◌, refl, ap, ◌∙◌, false, some, [], ◌∷◌, ◌++◌, Text, InClass, is_digit, take_while,
  take_while-append, drop_while-append, nat_eq, text_eq, ◌==◌, if◌then◌else◌,
}
use socket_io_java.Value.{Value, Items, arr, nil, cons}
use socket_io_java.Parser.Packet.{Packet, Kind}
use socket_io_java.Parser.Encode.{Json, encode_packet, data_fragment}
use socket_io_java.Parser.Decode.{
  decode_packet, not_colon, not_line_end, args_or, decode_body, decode_ack,
}
use socket_io_java.Parser.Wire.{IsId, Wire, acknowledges, to_packet, unacknowledged}
use socket_io_java.Parser.Wire.Fragments.{ack_fragment-tail}
use socket_io_java.Parser.Wire.RoundTrip.{decode_packet-body, blank}

-- The packet of an acknowledgement with arguments.
abbrev pub acknowledgement : Text → Text → Value → Items → Wire
acknowledgement address id v vs = record {
  ticket = unacknowledged;
  address = address;
  body = acknowledges id (cons v vs);
}

-- What follows the id is cut at the line terminator.
cut_args :
    (js : Json) (pre post : Text) (c : ℕ)
    → InClass not_line_end pre
    → pre ≢ []
    → not_line_end c ≡ false
    → let text = take_while not_line_end (pre ++ c ∷ post) in
      (if text == [] then some (arr nil) else args_or (js.parse text) (some (arr nil)))
      ≡ args_or (js.parse pre) (some (arr nil))
cut_args js [] post c h k e = absurd (k refl)
cut_args js (d ∷ pre) post c h k e = rw (take_while-append not_line_end (d ∷ pre) (c ∷ post) h e)

decode_ack-cut :
    (js : Json) (q : Packet) (id pre post : Text) (c : ℕ)
    → IsId id
    → InClass not_line_end pre
    → pre ≢ []
    → not_line_end c ≡ false
    → decode_ack js q (id ++ b'+' ∷ (pre ++ c ∷ post))
      ≡ record q { ack_id = some id; args = args_or (js.parse pre) (some (arr nil)) }
unfolding decode_ack
decode_ack-cut js q [] pre post c i h k e = absurd (i.0 refl)
decode_ack-cut js q (d ∷ ds) pre post c i h k e = rw (
  take_while-append is_digit (d ∷ ds) (b'+' ∷ (pre ++ c ∷ post)) i.1 refl,
  drop_while-append is_digit (d ∷ ds) (b'+' ∷ (pre ++ c ∷ post)) i.1 refl,
  cut_args js pre post c h k e,
)

-- An acknowledgement whose arguments are printed with a line terminator (JSON text may hold U+2028 and
-- U+2029) loses what stands behind the first one: the arguments received are those that JSON
-- reads from the text before it, and none if it reads nothing from that.
pub decode_packet-acknowledgement_cut :
    (js : Json) (address id : Text) (v : Value) (vs : Items) (pre post : Text) (c : ℕ)
    → InClass not_colon address
    → IsId id
    → InClass not_line_end pre
    → pre ≢ []
    → not_line_end c ≡ false
    → js.stringify (arr (cons v vs)) ≡ pre ++ c ∷ post
    → decode_packet js (encode_packet js (to_packet (acknowledgement address id v vs)))
      ≡ record (to_packet (acknowledgement address id v vs)) {
        args = args_or (js.parse pre) (some (arr nil));
      }
unfolding decode_body data_fragment to_packet
decode_packet-acknowledgement_cut js address id v vs pre post c a i h k e p =
    decode_packet-body js (acknowledgement address id v vs) tt a
    ∙ ap (decode_ack js (record (blank address) { type = some Kind.ack }))
        (ack_fragment-tail js id (cons v vs) ∙ ap (λ t. id ++ b'+' ∷ t) p)
    ∙ decode_ack-cut js (record (blank address) { type = some Kind.ack }) id pre post c i h k e
