-- ===== src/Tests/Parsing.antt =====
-- The parser at concrete packets.
use socket_io_java.Common.{
  true, InClass, ℕ, ◌≡◌, ◌≢◌, refl, List, [], ◌∷◌, ◌++◌, map, some, Text, codes,
}
use socket_io_java.Value.{bool, str, arr, nil, cons}
use socket_io_java.Parser.Packet.{no_packet}
use socket_io_java.Parser.Encode.{encode_packet, encode_payload, mark}
use socket_io_java.Parser.Decode.{not_colon, decode_packet, args_or}
use socket_io_java.Parser.Payload.{decode_payload, decode_payload-encode_payload}
use socket_io_java.Parser.Wire.{
  Wire, IsSendable, to_packet, by_data, unacknowledged, messages, acknowledges,
}
use socket_io_java.Parser.Wire.RoundTrip.{decode_packet-encode_packet}
use socket_io_java.Parser.Wire.LineEnds.{decode_packet-acknowledgement_cut, acknowledgement}
use socket_io_java.Tests.Samples.{sample_json}

abbrev hello : Wire
hello = record {
  ticket = by_data (codes "12");
  address = codes "/chat";
  body = messages (codes "a:b");
}

hello_text : encode_packet sample_json (to_packet hello) ≡ codes "3:12+:/chat:a:b"
unfolding encode_packet to_packet
hello_text = refl

abbrev receipt_of_4 : Wire
receipt_of_4 = record {
  ticket = unacknowledged;
  address = codes "/chat";
  body = acknowledges (codes "4") (cons (bool true) nil);
}

receipt_text : encode_packet sample_json (to_packet receipt_of_4) ≡ codes "6::/chat:4+[true]"
unfolding encode_packet to_packet
receipt_text = refl

chat_InClass : InClass not_colon (codes "/chat")
chat_InClass = (refl, (refl, (refl, (refl, (refl, tt)))))

not_empty : (c : ℕ) (t : Text) → ◌≢◌ {A = Text} (c ∷ t) []
not_empty c t = cc

receipt_of_4-IsSendable : IsSendable sample_json receipt_of_4
receipt_of_4-IsSendable = record {
  ticket = tt;
  address = chat_InClass;
  body = (
    (not_empty _ _, (refl, tt)),
    (refl, not_empty _ _, (refl, (refl, (refl, (refl, (refl, (refl, tt))))))),
  );
}

decode_packet-encode_packet_example :
    decode_packet sample_json (encode_packet sample_json (to_packet receipt_of_4))
    ≡ to_packet receipt_of_4
decode_packet-encode_packet_example =
    decode_packet-encode_packet sample_json receipt_of_4 receipt_of_4-IsSendable

abbrev two_texts : List Text
two_texts = codes "3:::a" ∷ (codes "3:::" ++ mark ∷ codes "9") ∷ []

two_texts_payload :
    encode_payload two_texts
    ≡ (mark ∷ codes "5")
      ++ ((mark ∷ codes "3:::a")
          ++ ((mark ∷ codes "6") ++ (mark ∷ (codes "3:::" ++ mark ∷ codes "9"))))
unfolding encode_payload
two_texts_payload = refl

decode_payload-encode_payload_example :
    decode_payload sample_json (encode_payload two_texts)
    ≡ map (decode_packet sample_json) two_texts
decode_payload-encode_payload_example = decode_payload-encode_payload sample_json two_texts tt

-- The empty payload is read as one packet with no type.
empty_payload : decode_payload sample_json (encode_payload []) ≡ no_packet ∷ []
unfolding decode_payload encode_payload decode_packet
empty_payload = refl

decode_packet-acknowledgement_cut_example :
    decode_packet sample_json (
      encode_packet sample_json
        (to_packet (acknowledgement (codes "/chat") (codes "4") (str (0x2028 ∷ [])) nil)))
    ≡ record (to_packet (acknowledgement (codes "/chat") (codes "4") (str (0x2028 ∷ [])) nil)) {
      args = args_or (sample_json.parse (codes "[\"")) (some (arr nil));
    }
decode_packet-acknowledgement_cut_example =
    decode_packet-acknowledgement_cut sample_json (codes "/chat") (codes "4") (str (0x2028 ∷ []))
      nil (codes "[\"") (codes "\"]") 0x2028 chat_InClass (not_empty _ _, (refl, tt))
      (refl, (refl, tt)) (not_empty _ _) refl refl

-- A text with no colon is no packet.
no_colon : decode_packet sample_json (codes "hello") ≡ no_packet
unfolding decode_packet
no_colon = refl
