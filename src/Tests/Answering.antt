-- ===== src/Tests/Answering.antt =====
-- A call of the server and its answer.
use socket_io_java.Common.{true, false, some, ◌≡◌, refl, [], ◌∷◌, ◌++◌, codes}
use socket_io_java.Value.{Value, str, bool, nil, cons, arr}
use socket_io_java.Parser.Encode.{encode_packet}
use socket_io_java.Parser.Decode.{decode_packet}
use socket_io_java.Parser.Wire.{to_packet}
use socket_io_java.Client.State.{Namespace, answers}
use socket_io_java.Client.Buffer.{packet}
use socket_io_java.Client.Namespaces.{new_namespace, emit_event, set_namespace, with_callback}
use socket_io_java.Client.Packets.{on_packet}
use socket_io_java.Client.Answers.{call_wire, answer_wire, emit_answered}
use socket_io_java.Tests.Samples.{sample_json}
use socket_io_java.Tests.Connecting.{online}

abbrev room : Namespace
room = new_namespace (codes "/r")

abbrev chat : Value
chat = str (codes "chat")

call_text :
    encode_packet sample_json (to_packet (call_wire room chat nil 9))
    ≡ codes "5:1+:/r:{\"name\":\"chat\"}"
unfolding encode_packet to_packet
call_text = refl

emit_answered_example :
    let call = to_packet (call_wire room chat nil 9) in
    let read = decode_packet sample_json (encode_packet sample_json call) in
    let back =
      decode_packet sample_json
        (encode_packet sample_json (to_packet (answer_wire read (cons (bool true) nil)))) in
    let t = emit_event (codes "/r") room chat nil (some 9) online in
    (t
      ≡ set_namespace
          (codes "/r")
          (record (with_callback room 9) { json = false })
          (packet read online))
    × ((on_packet back t).log
        ≡ (packet read online).log ++ answers 9 (some (arr (cons (bool true) nil))) ∷ [])
emit_answered_example =
    emit_answered sample_json room chat nil (cons (bool true) nil) 9 online (refl, (refl, tt)) refl
      (refl, (λ e. cc e), (refl, (refl, (refl, (refl, (refl, (refl, tt)))))))
