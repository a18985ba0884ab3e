-- ===== src/Parser/Wire/Fragments.antt =====
-- The last fragment of each kind of packet, printed and read back.
use socket_io_java.Common.{
  ◌≡◌, ◌≢◌, refl, ap, ◌∙◌, Bool, true, false, none, some, [], ◌∷◌, ◌++◌, Text, codes, InClass,
  Stops, is_digit, arith, take_while, take_while-append, drop_while-append, decimal,
  decimal-suc_ne_zero, list_beq_iff, nat_eq, text_eq, ◌==◌, take_while-all, if◌then◌else◌,
}
use socket_io_java.Value.{Value, Items, arr, nil, cons, length_items}
use socket_io_java.Parser.Packet.{Packet, Kind, reasons, advices}
use socket_io_java.Parser.Encode.{
  Json, or_empty, data_fragment, has_length, event_object, args_field, ack_fragment, error_fragment,
  index_or_empty,
}
use socket_io_java.Parser.Decode.{
  not_line_end, args_or, decode_body, decode_event, decode_ack, decode_error,
}
use socket_io_java.Parser.Wire.{
  Body, IsAckArgs, IsBody, IsId, Reason, acknowledges, advice_text, calls, carries,
  client_not_handshaken, connects, disconnects, does_nothing, event_value, fails, heartbeats, kind,
  messages, reason_text, transport_not_supported, unauthorized, with_body,
}

pub has_length-cons : (v : Value) (vs : Items) → has_length (some (arr (cons v vs))) ≡ true
unfolding has_length
has_length-cons v vs = ground (
  arith,
  list_beq_iff (decimal (length_items (cons v vs))) (codes "0"),
  decimal-suc_ne_zero (length_items vs),
)

pub event_object-args :
    (n : Value) (vs : Items) → event_object (some n) (args_field (some (arr vs))) ≡ event_value n vs
unfolding event_object args_field
event_object-args n nil = refl
event_object-args n (cons v vs) = rw (has_length-cons v vs)

pub data_fragment-calls :
    (js : Json) (q : Packet) (n : Value) (vs : Items)
    → data_fragment js (with_body q (calls n vs)) (some Kind.event)
      ≡ some (js.stringify (event_value n vs))
unfolding data_fragment
data_fragment-calls js q n vs = ap (λ v. some (js.stringify v)) (event_object-args n vs)

pub decode_event-calls :
    (q : Packet) (n : Value) (vs : Items)
    → decode_event q (some (event_value n vs)) ≡ record q { name = some n; args = some (arr vs) }
unfolding decode_event
decode_event-calls q n nil = refl
decode_event-calls q n (cons v vs) = refl

-- What follows the id of an acknowledgement.
abbrev pub ack_tail : Json → Items → Text
ack_tail js nil = []
ack_tail js vs = b'+' ∷ js.stringify (arr vs)

pub ack_fragment-tail :
    (js : Json) (id : Text) (vs : Items)
    → ack_fragment js (some id) (some (arr vs)) ≡ id ++ ack_tail js vs
unfolding ack_fragment
ack_fragment-tail js id nil = refl
ack_fragment-tail js id (cons v vs) = rw (has_length-cons v vs)

pub ack_tail-Stops : (js : Json) (vs : Items) → Stops is_digit (ack_tail js vs)
ack_tail-Stops js nil = tt
ack_tail-Stops js (cons v vs) = refl

pub ack_args :
    (js : Json) (t : Text) (v : Value)
    → t ≢ []
    → InClass not_line_end t
    → js.parse t ≡ some v
    → let text = take_while not_line_end t in
      (if text == [] then some (arr nil) else args_or (js.parse text) (some (arr nil))) ≡ some v
ack_args js [] v h k e = absurd (h refl)
ack_args js (c ∷ cs) v h k e = rw (take_while-all not_line_end (c ∷ cs) k, e)

pub decode_ack-tail :
    (js : Json) (q : Packet) (id : Text) (vs : Items)
    → IsId id
    → IsAckArgs js vs
    → decode_ack js q (id ++ ack_tail js vs) ≡ record q { ack_id = some id; args = some (arr vs) }
unfolding decode_ack
decode_ack-tail js q [] vs h k = absurd (h.0 refl)
decode_ack-tail js q (c ∷ cs) nil h k =
    rw
      (take_while-append is_digit (c ∷ cs) [] h.1 tt, drop_while-append is_digit (c ∷ cs) [] h.1 tt)
decode_ack-tail js q (c ∷ cs) (cons v vs) h k = rw (
  take_while-append is_digit (c ∷ cs) (b'+' ∷ js.stringify (arr (cons v vs))) h.1 refl,
  drop_while-append is_digit (c ∷ cs) (b'+' ∷ js.stringify (arr (cons v vs))) h.1 refl,
  ack_args js (js.stringify (arr (cons v vs))) (arr (cons v vs)) k.1 k.2 k.0,
)

pub number_lookup :
    (r : Reason) (a : Bool) (q : Packet)
    → decode_error q (
        or_empty (
          error_fragment
            (index_or_empty reasons (some (reason_text (some r))))
            (index_or_empty advices (some (advice_text a)))))
      ≡ record q { reason = some (reason_text (some r)); advice = some (advice_text a) }
unfolding decode_error error_fragment index_or_empty
number_lookup transport_not_supported true q = refl
number_lookup transport_not_supported false q = refl
number_lookup client_not_handshaken true q = refl
number_lookup client_not_handshaken false q = refl
number_lookup unauthorized true q = refl
number_lookup unauthorized false q = refl

-- The last fragment is read back into the properties that it was built from.
pub decode_body-data_fragment :
    (js : Json) (q : Packet) (b : Body)
    → IsBody js b
    → decode_body js
        (record q { type = some (kind b) })
        (some (kind b))
        (or_empty (data_fragment js (with_body q b) (some (kind b))))
      ≡ with_body q b
unfolding decode_body data_fragment
decode_body-data_fragment js q disconnects h = refl
decode_body-data_fragment js q heartbeats h = refl
decode_body-data_fragment js q does_nothing h = refl
decode_body-data_fragment js q (connects []) h = refl
decode_body-data_fragment js q (connects (c ∷ cs)) h = refl
decode_body-data_fragment js q (messages []) h = refl
decode_body-data_fragment js q (messages (c ∷ cs)) h = refl
decode_body-data_fragment js q (carries v) h = rw h
decode_body-data_fragment js q (calls n vs) h =
    ap (λ o. decode_body js (record q { type = some Kind.event }) (some Kind.event) (or_empty o))
      (data_fragment-calls js q n vs)
    ∙ ap (decode_event (record q { type = some Kind.event })) h
    ∙ (decode_event-calls (record q { type = some Kind.event }) n vs)
decode_body-data_fragment js q (acknowledges id vs) h =
    ap (decode_ack js (record q { type = some Kind.ack })) (ack_fragment-tail js id vs)
    ∙ (decode_ack-tail js (record q { type = some Kind.ack }) id vs h.0 h.1)
decode_body-data_fragment js q (fails none true) h = refl
decode_body-data_fragment js q (fails none false) h = refl
decode_body-data_fragment js q (fails (some r) a) h =
    number_lookup r a (record q { type = some Kind.error })
